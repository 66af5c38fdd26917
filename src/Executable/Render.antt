-- ===== src/Executable/Render.antt =====
-- `Executable.Render` with the sorted symbols. The loop's index into the symbols is the list of
-- those that are left.
use mips.Prelude.{ℕ, String, List, [], ◌∷◌, ◌++◌, some, not, ltb, leb, ◌==◌, if◌then◌else◌}
use mips.Isa.{Instruction, Result, ok, err, panic, ◌>>=◌, unrendered, add32}
use mips.Coding.Target.{SymbolTable}
use mips.Assembly.Token.{TokenizedLine, no_line}
use mips.Assembly.Render.{render}
use mips.Executable.Image.{Executable, Segments}
use mips.Executable.Parse.{segment_at}
use mips.Executable.Join.{sorted_segment_addresses}

-- `sort.Sort` on the pairs, by address. Pairs with one address stay in the order of the map, which
-- stands for any order that the sort may leave them in.
abbrev pub insert_pair : String × ℕ → SymbolTable → SymbolTable
insert_pair s [] = s ∷ []
insert_pair s (t ∷ l) = if leb s.1 t.1 then s ∷ t ∷ l else t ∷ insert_pair s l

abbrev pub sort_pairs : SymbolTable → SymbolTable
sort_pairs [] = []
sort_pairs (s ∷ l) = insert_pair s (sort_pairs l)

unfoldable pub sorted_symbol_addr_pairs : Executable → SymbolTable
sorted_symbol_addr_pairs e = sort_pairs e.symbols

pub record Rendering : Type 0 where
  pub list : List TokenizedLine
  pub symbols_left : SymbolTable
  pub current_address : ℕ

abbrev pub text_line : ℕ → TokenizedLine
text_line addr = record no_line { directive = some (record { name = "text"; constant = addr }) }

abbrev pub marker_line : String → TokenizedLine
marker_line sym = record no_line { symbol_marker = some sym }

abbrev pub emit : TokenizedLine → Rendering → Rendering
emit line r = record r { list = r.list ++ line ∷ [] }

-- if sym.Address != currentAddress { … }
unfoldable pub move_to : ℕ → Rendering → Rendering
move_to addr r =
    if not (addr == r.current_address)
    then emit (text_line addr) (record r { current_address = addr })
    else r

-- list = append(list, TokenizedLine{SymbolMarker: &sym.Symbol}); symbolIdx++
unfoldable pub declare : String × ℕ → SymbolTable → Rendering → Rendering
declare sym rest r = emit (marker_line sym.0) (record r { symbols_left = rest })

-- the symbols below a segment
unfoldable pub declare_below : ℕ → SymbolTable → Rendering → Rendering
unfolding move_to declare
declare_below segment [] r = r
declare_below segment (sym ∷ rest) r =
    if ltb sym.1 segment then declare_below segment rest (declare sym rest (move_to sym.1 r)) else r

-- the symbols at the address of an instruction
unfoldable pub declare_at : SymbolTable → Rendering → Rendering
unfolding declare
declare_at [] r = r
declare_at (sym ∷ rest) r =
    if sym.1 == r.current_address then declare_at rest (declare sym rest r) else r

abbrev pub at_address : ℕ → Result TokenizedLine → Result TokenizedLine
at_address addr (ok line) = ok line
at_address addr (err e) = err (unrendered addr e)
at_address addr panic = panic

unfoldable pub render_instruction : Instruction → Rendering → Result Rendering
unfolding declare_at
render_instruction inst r =
    let r = declare_at r.symbols_left r in
    do
      rendered ← at_address r.current_address (render inst)
      ok (record (emit rendered r) { current_address = add32 r.current_address 4 })

-- the loop over the instructions of a segment
unfoldable pub render_instructions : List Instruction → Rendering → Result Rendering
unfolding render_instruction
render_instructions [] r = ok r
render_instructions (inst ∷ rest) r = do
  next ← render_instruction inst r
  render_instructions rest next

unfoldable pub start_segment : ℕ → Rendering → Rendering
unfolding declare_below
start_segment segment r =
    let r = declare_below segment r.symbols_left r in
    record (if not (segment == 0) then emit (text_line segment) r else r) {
      current_address = segment;
    }

-- the loop over the segments
unfoldable pub render_segments : List ℕ → Segments → Rendering → Result Rendering
unfolding start_segment render_instructions
render_segments [] segs r = ok r
render_segments (segment ∷ rest) segs r = do
  next ← render_instructions (segment_at segment segs) (start_segment segment r)
  render_segments rest segs next

-- the loop over the symbols that are left
unfoldable pub declare_rest : SymbolTable → Rendering → Rendering
unfolding move_to declare
declare_rest [] r = r
declare_rest (sym ∷ rest) r = declare_rest rest (declare sym rest (move_to sym.1 r))

-- an executable without segments is rendered as if it had an empty one at 0
abbrev pub or_zero : List ℕ → List ℕ
or_zero [] = 0 ∷ []
or_zero (a ∷ l) = a ∷ l

unfoldable pub render_executable : Executable → Result (List TokenizedLine)
unfolding render_segments declare_rest sorted_symbol_addr_pairs
render_executable e = do
  r ←
      render_segments (or_zero (sorted_segment_addresses e.segments)) e.segments
        (record { list = []; symbols_left = sorted_symbol_addr_pairs e; current_address = 0 })
  ok (declare_rest r.symbols_left r).list
