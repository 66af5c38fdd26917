-- ===== src/Commands/Tests.antt =====
-- A dump of a memory whose bytes are the low bytes of their addresses.
use mips.Prelude.{◌≡◌, refl, ◌%◌}
use mips.Memory.Interface.{MemoryOps}
use mips.Assembly.Printing.Numerals.{format_uint}
use mips.Formatting.{pad}
use mips.Commands.Dump.{dump_memory}

abbrev counting : MemoryOps (Unit {0})
counting = record { get = λ mem ptr. ptr % 256; set = λ mem ptr b. mem }

dump_memory-eighteen :
    dump_memory counting tt 0xff0 18
    ≡ "Memory dump:\n00000ff0  f0 f1 f2 f3 f4 f5 f6 f7 f8 f9 fa fb fc fd fe ff\n00001000  00 01 \n"
unfolding dump_memory format_uint pad
dump_memory-eighteen = refl
