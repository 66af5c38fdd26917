-- ===== src/Executable/Verdict.antt =====
-- Which sources `ParseExecutable` rejects, with which error, and which it accepts.
use mips.Prelude.{
  ℕ, ◌≡◌, ◌≢◌, refl, sym, ap, ◌∙◌, subst, String, List, [], ◌∷◌, ◌++◌, none, some, arith, All,
  lookup, lookup_str,
}
use mips.Isa.{Instruction, Result, ok, err, ◌>>=◌, Error, overwriting, repeated_symbol, on_line}
use mips.Assembly.Token.{TokenizedLine}
use mips.Assembly.Lines.{line_instruction}
use mips.Executable.Image.{Executable, get_from}
use mips.Executable.Lookup.{get-some}
use mips.Executable.Parse.{Building, nothing_built, parse_line, parse_lines}
use mips.Executable.Join.{join_contiguous_segments, parse_executable}
use mips.Executable.Ranges.{word_of}
use mips.Executable.Source.{address_behind, image, labels, line_label, line_fault}
use mips.Executable.Splitting.{image-append}
use mips.Executable.Fault.{
  Fault, faulty, taken, repeated, Outcome, accepted, rejected, parse_line-Outcome,
}
use mips.Executable.Refines.{HasRoom, parse_lines-Built, nothing_built-IsReady}
use mips.Executable.Labels.{address_behind-parse_lines, lookup_str-parse_lines}

-- the first line that is rejected, if there is one
data FirstFault (lines : List TokenizedLine) (b : Building) : Result Building → Type 0 where
  all_accepted : (final : Building) → FirstFault lines b (ok final)
  rejected_at :
      (front : List TokenizedLine) (line : TokenizedLine) (back : List TokenizedLine)
      → lines ≡ front ++ line ∷ back
      → (mid : Building) → parse_lines front b ≡ ok mid
      → (e : Error) → Fault line mid e
      → FirstFault lines b (err (on_line line.line_number e))

later-FirstFault :
    (line : TokenizedLine) (rest : List TokenizedLine) (b next : Building) (r : Result Building)
    → parse_line line b ≡ ok next
    → FirstFault rest next r
    → FirstFault (line ∷ rest) b r
unfolding parse_lines
later-FirstFault line rest b next _ first (all_accepted final) = all_accepted final
later-FirstFault line rest b next _ first (rejected_at front bad back split mid built e fault) =
    rejected_at (line ∷ front) bad back (ap (λ l. line ∷ l) split) mid (rw first built) e fault

bind-FirstFault :
    (line : TokenizedLine) (rest : List TokenizedLine) (b : Building) (r : Result Building)
    → ((next : Building) → FirstFault rest next (parse_lines rest next))
    → parse_line line b ≡ r
    → Outcome line b r
    → FirstFault (line ∷ rest) b (r >>= parse_lines rest)
unfolding parse_lines
bind-FirstFault line rest b _ later first (accepted next) =
    later-FirstFault line rest b next _ first (later next)
bind-FirstFault line rest b _ later first (rejected e fault) =
    rejected_at [] line rest refl b refl e fault

parse_lines-FirstFault :
    (lines : List TokenizedLine) (b : Building) → FirstFault lines b (parse_lines lines b)
unfolding parse_lines
parse_lines-FirstFault [] b = all_accepted b
parse_lines-FirstFault (line ∷ rest) b =
    bind-FirstFault line rest b (parse_line line b) (parse_lines-FirstFault rest) refl
      (parse_line-Outcome line b)

-- Why a line is rejected behind others, in terms of the source: a fault of its own, or what it
-- places or declares is there already.
pub data Reason (front : List TokenizedLine) (line : TokenizedLine) : Error → Type 0 where
  at_fault : {e : Error} → line_fault line ≡ some e → Reason front line e
  overlapping :
      (i : Instruction)
      → line_instruction line ≡ some (ok i)
      → lookup (address_behind front 0) (image front 0) ≢ none
      → Reason front line (overwriting (address_behind front 0))
  declared :
      (s : String)
      → line_label line ≡ some s
      → lookup_str s (labels front 0) ≢ none
      → Reason front line (repeated_symbol s)

pub data Verdict (lines : List TokenizedLine) : Result Executable → Type 0 where
  success : (exe : Executable) → Verdict lines (ok exe)
  failure :
      (front : List TokenizedLine) (line : TokenizedLine) (back : List TokenizedLine)
      → lines ≡ front ++ line ∷ back
      → (e : Error) → Reason front line e
      → Verdict lines (err (on_line line.line_number e))

All-front : (xs ys : List (ℕ × Instruction)) → All HasRoom (xs ++ ys) → All HasRoom xs
All-front [] ys h = tt
All-front (x ∷ xs) ys h = (h.0, All-front xs ys h.1)

Fault-Reason :
    (front : List TokenizedLine) (line : TokenizedLine) (mid : Building) (e : Error)
    → All HasRoom (image front 0)
    → parse_lines front nothing_built ≡ ok mid
    → Fault line mid e
    → Reason front line e
unfolding get_from image
Fault-Reason front line mid _ room built (faulty fault) = at_fault fault
Fault-Reason front line mid _ room built (taken i is_inst used) =
    let done = parse_lines-Built front nothing_built mid nothing_built-IsReady room built in
    let here : mid.instruction_addr ≡ address_behind front 0 =
      address_behind-parse_lines front nothing_built mid built in
    let aligned : word_of mid.instruction_addr ≡ mid.instruction_addr =
      omega (arith, done.ready.addr_aligned) in
    subst (λ a. Reason front line (overwriting a)) (sym here)
      (overlapping i is_inst (λ absent. get-some mid.segments mid.instruction_addr used (
        done.got mid.instruction_addr
        ∙ ap (λ a. lookup a (image front 0)) (aligned ∙ here)
        ∙ absent)))
Fault-Reason front line mid _ room built (repeated s is_label present) =
    declared s is_label
      (λ absent. present (lookup_str-parse_lines front nothing_built mid built s ∙ absent))

FirstFault-Verdict :
    (lines : List TokenizedLine) (r : Result Building)
    → All HasRoom (image lines 0)
    → FirstFault lines nothing_built r
    → Verdict lines (do
      b ← r
      ok (record { segments = join_contiguous_segments b.segments; symbols = b.symbols }))
FirstFault-Verdict lines _ room (all_accepted final) = success _
FirstFault-Verdict lines _ room (rejected_at front line back split mid built e fault) =
    let whole = ap (λ l. image l 0) split ∙ image-append front (line ∷ back) 0 in
    failure front line back split e (
      Fault-Reason front line mid e (All-front (image front 0) _ (subst (All HasRoom) whole room))
        built fault)

-- A source whose instructions stand at addresses `a` with `a + 4 < 2 ^ 32` is either accepted, or
-- rejected with an error that carries the number of a line and is due to that line: the line has a
-- fault of its own (an instruction that is not understood, a `.text` that is not aligned, an
-- unknown directive), or the lines above it already put an instruction at the address where its
-- own would go, which the error names, or declare its label, which the error names. Nothing panics.
pub parse_executable-Verdict :
    (lines : List TokenizedLine)
    → All HasRoom (image lines 0)
    → Verdict lines (parse_executable lines)
unfolding parse_executable
parse_executable-Verdict lines room =
    FirstFault-Verdict lines (parse_lines lines nothing_built) room
      (parse_lines-FirstFault lines nothing_built)
