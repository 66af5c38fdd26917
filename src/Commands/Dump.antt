-- ===== src/Commands/Dump.antt =====
-- mips-run/main.go: `dumpMemory`, as the text that it prints.
use mips.Prelude.{ℕ, zero, suc, ◌+◌, ◌-◌, String, ◌==◌, if◌then◌else◌}
use mips.Isa.{u32}
use mips.Memory.Interface.{MemoryOps}
use mips.Assembly.Printing.Numerals.{◌+++◌, format_uint}
use mips.Formatting.{pad}

abbrev pub memory_dump_columns : ℕ
memory_dump_columns = 16

abbrev hex_value : ℕ → String
hex_value b = pad 2 2 (format_uint 16 b)

abbrev hex_addr : ℕ → String
hex_addr i = pad 8 8 (format_uint 16 i)

module _ {M : Type 0} (ops : MemoryOps M) where
  -- the text of a round
  unfoldable byte_text : M → ℕ → ℕ → String
  unfolding ◌+++◌
  byte_text mem column i =
      (if column == 0 then hex_addr i +++ "  " else "")
      +++ hex_value (ops.get mem (u32 i))
      +++ (if column == memory_dump_columns - 1 then "\n" else " ")

  -- The loop: a round for each byte that is left. The last text ends a row that is not full.
  unfoldable dump_from : M → ℕ → ℕ → ℕ → String
  unfolding ◌+++◌ byte_text
  dump_from mem zero column i = if column == 0 then "" else "\n"
  dump_from mem (suc left) column i =
      byte_text mem column i
      +++ dump_from mem left (if column == memory_dump_columns - 1 then 0 else column + 1) (i + 1)

  unfoldable pub dump_memory : M → ℕ → ℕ → String
  unfolding ◌+++◌ dump_from
  dump_memory mem start size = "Memory dump:\n" +++ dump_from mem size 0 start
