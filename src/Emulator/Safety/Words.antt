-- ===== src/Emulator/Safety/Words.antt =====
-- The emulator on words that are decoded, as the disassembler decodes them.
use mips.Prelude.{ℕ, ◌≢◌, sym, subst, List, [], ◌∷◌, All, some}
use mips.Isa.{Instruction, panic}
use mips.Memory.Interface.{MemoryOps, MemoryLaws}
use mips.Executable.Image.{Executable, Segments, get, get_from}
use mips.Executable.Lookup.{get-all}
use mips.Executable.Rewritten.{IsDecoded}
use mips.Emulator.State.{Emulator}
use mips.Emulator.Run.{run}
use mips.Emulator.Safety.Fits.{Fits}
use mips.Emulator.Safety.Valid.{IsRunnable, IsValid}
use mips.Emulator.Safety.Decoded.{decode_instruction-Fits}
use mips.Emulator.Safety.Whole.{run-IsValid}

IsDecoded-Fits : (insts : List Instruction) → All IsDecoded insts → All Fits insts
IsDecoded-Fits [] of = tt
IsDecoded-Fits (i ∷ rest) of = (
  subst Fits (sym of.0.decoded) (decode_instruction-Fits of.0.word of.0.word-lt),
  IsDecoded-Fits rest of.1,
)

segments-Fits :
    (segs : Segments) → All (λ seg. All IsDecoded seg.1) segs → All (λ seg. All Fits seg.1) segs
segments-Fits [] of = tt
segments-Fits (seg ∷ rest) of = (IsDecoded-Fits seg.1 of.0, segments-Fits rest of.1)

words-IsRunnable :
    (exe : Executable) → All (λ seg. All IsDecoded seg.1) exe.segments → IsRunnable exe
unfolding get get_from
words-IsRunnable exe of addr i found =
    get-all Fits exe.segments addr (segments-Fits exe.segments of) found

module _ {M : Type 0} (ops : MemoryOps M) (laws : MemoryLaws ops) where
  -- Let the instructions of an executable be decoded from 32-bit words, whichever they are. On a
  -- memory that keeps its laws, and from a well-formed emulator with this executable, the loop of
  -- mips-run does not panic, with any amount of fuel, and leaves the emulator well formed.
  pub run-decode_instruction :
      (exe : Executable) (fuel : ℕ) (e : Emulator M)
      → All (λ seg. All IsDecoded seg.1) exe.segments
      → IsValid ops laws exe e
      → ((run ops fuel e).0 ≢ some panic) × IsValid ops laws exe (run ops fuel e).1
  run-decode_instruction exe fuel e of v =
      run-IsValid ops laws exe (words-IsRunnable exe of) fuel e v
