-- ===== src/Examples/Web.antt =====
-- The page: a view of an empty memory, a session, a small program, and the theorems at them.
use mips.Prelude.{
  ℕ, ◌+◌, ◌-◌, ◌^◌, ◌<◌, ◌≤◌, ◌≡◌, ◌≢◌, refl, sym, subst, List, [], ◌∷◌, none, some, arith,
  get_elem?, map,
}
use mathlib.Core.Logic.{◌↔◌}
use mips.Prelude.Int.{pos}
use mips.Isa.{ok, u8}
use mips.Memory.Interface.{MemoryLaws}
use mips.Memory.Lazy.{LazyMemory, lazy_ops, new_lazy_memory}
use mips.Memory.Lazy.Laws.{lazy_laws, new_lazy_memory-IsValid}
use mips.Coding.Decode.{decode_instruction}
use mips.Coding.Encode.{encode, immediate_word, nop_word}
use mips.Assembly.Token.{TokenizedLine}
use mips.Executable.Image.{end}
use mips.Executable.Source.{image}
use mips.Commands.Disassemble.{render_all}
use mips.Formatting.{format8_bit_hex}
use mips.Web.MemoryView.{MemoryView, update_base, clicked_cell}
use mips.Web.MemoryView.Cells.{IsShown, update_base-IsShown, clicked_cell-IsShown}
use mips.Web.Debugger.{Debugger, new_debugger, start_debugger, step_debugger, stop_debugger}
use mips.Web.Debugger.Keeping.{IsSound}
use mips.Web.Debugger.Session.{
  Event, command, ticked, frequency_entered, register_entered, byte_entered, executable_loaded,
  session, session-IsSound,
}
use mips.Web.Assembler.{shown_data}
use mips.Web.Disassembler.{data_text, disassemble, source}
use mips.Web.Page.{shown_data-disassemble}
use mips.Examples.Files.{two_words, two_words_executable, two_words-parsed, two_words-HasRoom}

abbrev blank_view : MemoryView LazyMemory
blank_view = record {
  base_label = "";
  base_address = 0;
  memory_cells = [];
  address_cells = [];
  memory = new_lazy_memory;
}

update_base-IsShown_example :
    (v : MemoryView LazyMemory) × (update_base lazy_ops 8 blank_view 0x1005 ≡ some v)
    × IsShown lazy_ops v
    × (v.memory ≡ blank_view.memory)
    × (v.base_address ≤ 0x1005)
    × ((0x1005 < v.base_address + 48) ↔ (0x1005 < 2 ^ 32 - 8))
update_base-IsShown_example = update_base-IsShown lazy_ops blank_view 0x1005 (omega arith)

-- the view that begins at 0x1000
abbrev shown_view : MemoryView LazyMemory
shown_view = (update_base-IsShown lazy_ops blank_view 0x1005 (omega arith)).0

shown_view-IsValid : MemoryLaws.IsValid lazy_laws shown_view.memory
shown_view-IsValid =
    subst (MemoryLaws.IsValid lazy_laws)
      (sym (update_base-IsShown lazy_ops blank_view 0x1005 (omega arith)).3) new_lazy_memory-IsValid

clicked_cell-IsShown_example :
    IsShown lazy_ops (clicked_cell lazy_ops shown_view 3 0x1ff)
    × (get_elem? (clicked_cell lazy_ops shown_view 3 0x1ff).memory_cells 3
        ≡ some (format8_bit_hex (u8 0x1ff)))
    × ((k : ℕ)
        → k < 48
        → k ≢ 3
        → get_elem? (clicked_cell lazy_ops shown_view 3 0x1ff).memory_cells k
          ≡ get_elem? shown_view.memory_cells k)
clicked_cell-IsShown_example =
    clicked_cell-IsShown lazy_ops lazy_laws shown_view 3 0x1ff
      (update_base-IsShown lazy_ops blank_view 0x1005 (omega arith)).2 shown_view-IsValid
      (omega arith)

abbrev events : List Event
events =
    command step_debugger
    ∷ register_entered 4 7
    ∷ byte_entered 0x100 0xff
    ∷ command start_debugger
    ∷ ticked
    ∷ frequency_entered (pos 64)
    ∷ command stop_debugger
    ∷ executable_loaded none
    ∷ []

session-IsSound_example :
    (after : Debugger) × (session events new_debugger ≡ ok after) × IsSound after
session-IsSound_example = session-IsSound events (
  tt,
  (
    (omega arith, omega arith, omega arith),
    (omega arith, (tt, (tt, ((63, refl), (tt, (tt, tt)))))),
  ),
)

shown_data-disassemble_example :
    (shown_data two_words_executable ≡ ok (some (0x28affff6 ∷ 0 ∷ [])))
    × ((renderings : List TokenizedLine) × (render_all
            (map decode_instruction (0x28affff6 ∷ 0 ∷ []))
          ≡ ok renderings)
        × (disassemble (data_text (0x28affff6 ∷ 0 ∷ [])) ≡ source (ok renderings)))
unfolding image encode decode_instruction end immediate_word nop_word
shown_data-disassemble_example =
    shown_data-disassemble two_words two_words_executable (0x28affff6 ∷ 0 ∷ []) two_words-parsed
      two_words-HasRoom (refl, (refl, tt)) refl (omega arith) (omega arith, (omega arith, tt))
