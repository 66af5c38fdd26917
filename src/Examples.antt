-- ===== src/Examples.antt =====
-- A small program, and the theorems at it.
mod Sources
mod Files
mod Printing
mod Web
mod Tokens
mod Text
use mips.Prelude.{
  is_one_of, ℕ, ◌≡◌, ◌≢◌, refl, [], ◌∷◌, replicate, length-replicate, get_or-replicate, set, true,
  false, none, some, arith, if◌then◌else◌, ltb, ◌==◌, ◌&&◌, ◌≤◌, bit_or, bit_and,
}
use mathlib.Core.Logic.{◌↔◌}
use mips.Isa.{Instruction, instruction, no_pointer, ok, panic, add32, sub32, sext16, ◌<<◌}
use mips.Memory.Lazy.{LazyMemory, new_lazy_memory, get, set_byte, lazy_ops}
use mips.Memory.Lazy.Laws.{new_lazy_memory-IsValid, get-set_byte, lazy_laws}
use mips.Assembly.Token.{TokenizedLine}
use mips.Assembly.Render.{render}
use mips.Assembly.Lines.{line_instruction}
use mips.Assembly.Reassembly.Whole.{reassemble}
use mips.Coding.Target.{symbol_offset, instruction_jump_base, instruction_branch_offset}
use mips.Coding.Decode.{decode_instruction}
use mips.Coding.Encode.{encode}
use mips.Coding.RoundTrip.Whole.{encode-decode_instruction}
use mips.Coding.Landing.{symbol_offset-lands, symbol_offset-reaches, instruction_jump_base-lands}
use mips.Executable.Image.{Executable, Segments, end, address_in_use}
use mips.Executable.Image
use mips.Executable.Lookup.{get-all, get-address_in_use, get-end}
use mips.Emulator.State.{Emulator}
use mips.Emulator.Ending.{IsStraight, run-ends, run-ended}
use mips.Emulator.Step.{step, execute, is_done, branch_names, jump_names}
use mips.Emulator.Run.{run}
use mips.Emulator.Execute.Transfer.{load_word, store_word}
use mips.Emulator.Safety.Fits.{Fits, min_registers}
use mips.Emulator.Safety.Valid.{IsRunnable, IsValid}
use mips.Emulator.Safety.Words.{run-decode_instruction}
use mips.Emulator.Safety.Whole.{step-IsValid, run-IsValid}
use mips.Emulator.Branching.Branch.{branch-lands}
use mips.Emulator.Branching.Jump.{jump-lands}
use mips.Emulator.Execute.Data.{execute_immediate_arithmetic}
use mips.Emulator.Execute.Control.{execute_branch, execute_jump, decide_branch}
use mips.Emulator.Flow.Whole.{step-flow}
use mips.Emulator.Words.{get-store_word, load_word-store_word, byte_of_word}

-- start: ADDIU $r1, $r0, 5; BEQ $r1, $r1, start; SW $r1, 2($r0); J start
abbrev addiu_five : Instruction
addiu_five = record (instruction "ADDIU" (1 ∷ 0 ∷ [])) { signed_constant16 = 5 }

abbrev branch_back : Instruction
branch_back = record (instruction "BEQ" (1 ∷ 1 ∷ [])) {
  code_pointer = record no_pointer { is_symbol = true; symbol = "start" };
}

abbrev store_one : Instruction
store_one = record (instruction "SW" (1 ∷ [])) {
  memory_reference = record { register = 0; offset = 2 };
}

abbrev jump_back : Instruction
jump_back = record (instruction "J" []) {
  code_pointer = record { absolute = true; is_symbol = true; symbol = "start"; constant = 0 };
}

abbrev program : Executable
program = record {
  segments = (0x400000, addiu_five ∷ branch_back ∷ store_one ∷ jump_back ∷ []) ∷ [];
  symbols = ("start", 0x400000) ∷ [];
}

program-IsRunnable : IsRunnable program
unfolding Image.get min_registers
program-IsRunnable addr i h = get-all Fits program.segments addr (omega arith) h

abbrev machine : Emulator LazyMemory
machine = record {
  register_file = replicate 32 0;
  memory = new_lazy_memory;
  executable = program;
  program_counter = 0x400000;
  little_endian = true;
  force_mem_alignment = true;
  delay_slot = false;
  jump_next = false;
  jump_target = 0;
}

machine-IsValid : IsValid lazy_ops lazy_laws program machine
machine-IsValid = record {
  size = length-replicate 32 0;
  words = λ r. rw (get_or-replicate {A = ℕ} 32 r 0) (omega arith);
  zero = get_or-replicate 32 0 0;
  counter-lt = omega arith;
  target-lt = omega arith;
  memory_valid = new_lazy_memory-IsValid;
  same_executable = refl;
}

-- SB $r5, -30($r5), and BEQ with an offset back
encode-decode_instruction_example :
    encode (decode_instruction 0x10bfff38) 0x400004 program.symbols ≡ ok 0x10bfff38
encode-decode_instruction_example =
    encode-decode_instruction 0x10bfff38 0x400004 program.symbols (omega arith) (omega arith)

step-IsValid_example :
    ((step lazy_ops machine).0 ≢ panic)
    × IsValid lazy_ops lazy_laws program (step lazy_ops machine).1
step-IsValid_example =
    step-IsValid lazy_ops lazy_laws program program-IsRunnable machine machine-IsValid

run-IsValid_example :
    ((run lazy_ops 100 machine).0 ≢ some panic)
    × IsValid lazy_ops lazy_laws program (run lazy_ops 100 machine).1
run-IsValid_example =
    run-IsValid lazy_ops lazy_laws program program-IsRunnable 100 machine machine-IsValid

-- ADDIU $r1, $r0, 5; a branch back; and a word that is no instruction
abbrev words_program : Executable
words_program = record {
  segments =
      (
        0x400000,
        decode_instruction 0x24010005
            ∷ decode_instruction 0x10bfff38
            ∷ decode_instruction 0xffffffff
            ∷ [],
      )
      ∷ [];
  symbols = [];
}

abbrev words_machine : Emulator LazyMemory
words_machine = record machine { executable = words_program }

words_machine-IsValid : IsValid lazy_ops lazy_laws words_program words_machine
words_machine-IsValid = record {
  size = machine-IsValid.size;
  words = machine-IsValid.words;
  zero = machine-IsValid.zero;
  counter-lt = machine-IsValid.counter-lt;
  target-lt = machine-IsValid.target-lt;
  memory_valid = machine-IsValid.memory_valid;
  same_executable = refl;
}

run-decode_instruction_example :
    ((run lazy_ops 100 words_machine).0 ≢ some panic)
    × IsValid lazy_ops lazy_laws words_program (run lazy_ops 100 words_machine).1
run-decode_instruction_example =
    run-decode_instruction lazy_ops lazy_laws words_program 100 words_machine
      (
        (
          record { word = 0x24010005; word-lt = omega arith; decoded = refl },
          (
            record { word = 0x10bfff38; word-lt = omega arith; decoded = refl },
            (record { word = 0xffffffff; word-lt = omega arith; decoded = refl }, tt),
          ),
        ),
        tt,
      )
      words_machine-IsValid

step-flow_example :
    ((step lazy_ops machine).1.program_counter
      ≡ (if machine.jump_next then machine.jump_target else add32 machine.program_counter 4))
    × ((step lazy_ops machine).1.delay_slot ≡ machine.jump_next)
    × ((step lazy_ops machine).1.executable ≡ machine.executable)
    × ((step lazy_ops machine).1.little_endian ≡ machine.little_endian)
    × ((step lazy_ops machine).1.force_mem_alignment ≡ machine.force_mem_alignment)
    × (((step lazy_ops machine).1.jump_next && machine.jump_next) ≡ false)
step-flow_example = step-flow lazy_ops machine

get-set_byte_example :
    get (set_byte new_lazy_memory 0x1001 7) 0x1002
    ≡ (if 0x1001 == 0x1002 then 7 else get new_lazy_memory 0x1002)
get-set_byte_example =
    get-set_byte new_lazy_memory 0x1001 0x1002 7 new_lazy_memory-IsValid (omega arith) (omega arith)

get-store_word_example :
    lazy_ops.get (store_word lazy_ops false new_lazy_memory 0xffff_fffe 0x01020304) 1 ≡ (
      if ltb (sub32 1 0xffff_fffe) 4
      then byte_of_word false 0x01020304 (sub32 1 0xffff_fffe)
      else lazy_ops.get new_lazy_memory 1)
get-store_word_example =
    get-store_word lazy_ops lazy_laws false new_lazy_memory 0xffff_fffe 0x01020304 1
      new_lazy_memory-IsValid (omega arith) (omega arith)

load_word-store_word_example :
    load_word lazy_ops true
      (store_word lazy_ops true new_lazy_memory 0xffff_fffe 0x01020304)
      0xffff_fffe
    ≡ 0x01020304
load_word-store_word_example =
    load_word-store_word lazy_ops lazy_laws true new_lazy_memory 0xffff_fffe 0x01020304
      new_lazy_memory-IsValid (omega arith) (omega arith)

get-address_in_use_example :
    (Image.get program 0x40000c ≢ none) ↔ (address_in_use program.segments 0x40000c ≡ true)
get-address_in_use_example = get-address_in_use program 0x40000c

get-end_example : Image.get program 0x400010 ≡ none
get-end_example = get-end program 0x400010 (unfold end in omega arith)

symbol_offset-lands_example : add32 (add32 0x400004 4) 0xffff_fff8 ≡ 0x400000
symbol_offset-lands_example =
    symbol_offset-lands 0x400000 0x400004 0xffff_fff8 (omega arith) refl refl
      (unfold symbol_offset in refl)

symbol_offset-reaches_example :
    symbol_offset (add32 (add32 0 4) (sext16 0x8000 << 2)) 0 ≡ ok (sext16 0x8000 << 2)
symbol_offset-reaches_example = symbol_offset-reaches 0 0x8000 (omega arith)

instruction_jump_base-lands_example :
    bit_or (bit_and (add32 0x40000c 4) 0xf0000000) 0x400000 ≡ 0x400000
instruction_jump_base-lands_example =
    instruction_jump_base-lands jump_back 0x40000c program.symbols 0x400000 0x400000 refl
      (omega arith) (unfold instruction_jump_base in refl)

-- the branch of the program, with $r1 and $r1 equal
abbrev at_branch : Emulator LazyMemory
at_branch = record machine { program_counter = 0x400004 }

branch-lands_example : (step lazy_ops (step lazy_ops at_branch).1).1.program_counter ≡ 0x400000
unfolding Image.get
branch-lands_example =
    branch-lands lazy_ops at_branch branch_back 0x400000 refl refl refl refl refl (omega arith) refl
      refl refl
      (unfold step execute execute_branch decide_branch replicate instruction_branch_offset in refl)

abbrev at_jump : Emulator LazyMemory
at_jump = record machine { program_counter = 0x40000c }

jump-lands_example : (step lazy_ops (step lazy_ops at_jump).1).1.program_counter ≡ 0x400000
unfolding Image.get
jump-lands_example =
    jump-lands lazy_ops at_jump jump_back 0x400000 refl refl refl (omega arith) refl
      (unfold step execute execute_jump replicate instruction_jump_base in refl)

-- SLTI $r15, $r5, -10
reassemble_example :
    (line : TokenizedLine) × (back : Instruction) × (render (decode_instruction 0x28affff6)
      ≡ ok line)
    × (line_instruction line ≡ some (ok back))
    × (encode back 0x400000 program.symbols ≡ ok 0x28affff6)
reassemble_example = reassemble 0x28affff6 0x400000 program.symbols (omega arith) (omega arith)

-- one ADDIU, which ends
abbrev short_program : Executable
short_program = record { segments = (0x400000, addiu_five ∷ []) ∷ []; symbols = [] }

short_program-IsStraight : IsStraight short_program
unfolding Image.get
short_program-IsStraight addr i h =
    get-all (λ j. (is_one_of j.name branch_names ≡ false) × (is_one_of j.name jump_names ≡ false))
      short_program.segments addr (((refl, refl), tt), tt) h

abbrev short_machine : Emulator LazyMemory
short_machine = record machine { executable = short_program }

run-ends_example : (run lazy_ops 2 short_machine).0 ≢ none
run-ends_example =
    run-ends lazy_ops 1 short_machine short_program-IsStraight refl (unfold end in omega arith)
      (unfold end in omega arith)

-- the short program after its one step
abbrev short_end : Emulator LazyMemory
short_end = record short_machine {
  register_file = set (replicate 32 0) 1 5;
  program_counter = 0x400004;
}

run-ended_example :
    (short_end.jump_next ≡ false)
    × (end short_program ≤ short_end.program_counter)
    × (Image.get short_program short_end.program_counter ≡ none)
    × (short_end.executable ≡ short_program)
run-ended_example =
    run-ended lazy_ops 2 short_machine short_end
      (unfold run step execute execute_immediate_arithmetic is_done end Image.get replicate in refl)
