-- ===== src/Commands/Assemble.antt =====
-- mips-as/main.go: the loop that writes the words of an executable. What is written before an
-- error ends the command stays written.
use mips.Prelude.{ℕ, zero, suc, List, [], ◌∷◌, ◌++◌, Bool, Option, none, some, ltb, if◌then◌else◌}
use mips.Isa.{Result, ok, err, panic, ◌>>=◌, u8, add32, ◌>>>◌}
use mips.Coding.Encode.{encode}
use mips.Executable.Image.{Executable, end, get}

pub record Written : Type 0 where
  pub bytes : List ℕ
  pub result : Result (Unit {0})

unfoldable pub word_bytes : Bool → ℕ → List ℕ
word_bytes little_endian enc =
    if little_endian
    then u8 enc ∷ u8 (enc >>> 8) ∷ u8 (enc >>> 16) ∷ u8 (enc >>> 24) ∷ []
    else u8 (enc >>> 24) ∷ u8 (enc >>> 16) ∷ u8 (enc >>> 8) ∷ u8 enc ∷ []

-- the bytes of one round
unfoldable pub bytes_at : Executable → Bool → ℕ → Result (List ℕ)
unfolding word_bytes
bytes_at e little_endian addr = elim (get e addr) [
  | none ↦ ok (0 ∷ 0 ∷ 0 ∷ 0 ∷ [])
  | some inst ↦ do enc ← encode inst addr e.symbols; ok (word_bytes little_endian enc)
]

abbrev pub behind : List ℕ → Option Written → Option Written
behind front none = none
behind front (some w) = some (record w { bytes = front ++ w.bytes })

abbrev pub then_write : Result (List ℕ) → Option Written → Option Written
then_write (ok bytes) rest = behind bytes rest
then_write (err e) rest = some (record { bytes = []; result = err e })
then_write panic rest = some (record { bytes = []; result = panic })

-- `none` means that the fuel ran out: the address wraps around, so the loop need not end.
unfoldable pub write_from : ℕ → Executable → Bool → ℕ → Option Written
unfolding bytes_at
write_from zero e little_endian addr = none
write_from (suc fuel) e little_endian addr =
    let rest = write_from fuel e little_endian (add32 addr 4) in
    if ltb addr (end e)
    then then_write (bytes_at e little_endian addr) rest
    else some (record { bytes = []; result = ok tt })
