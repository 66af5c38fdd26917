-- ===== src/Emulator/Safety/Transfer.antt =====
-- `executeMemory` is safe.
use mips.Prelude.{ℕ, ◌^◌, ◌<◌, ◌≤◌, length, Bool, true, false, arith, String, str_eq, bit_or}
use mips.Bits.Fields.{bit_or-lt}
use mips.Isa.{Instruction, add32, u8, sext8-lt, ◌<<◌, ◌>>>◌}
use mips.Memory.Interface.{MemoryOps, MemoryLaws}
use mips.Executable.Image.{Executable}
use mips.Emulator.State.{Emulator, pure, modify, instruction_error}
use mips.Emulator.Execute.Transfer.{
  load_word, store_word, is_misaligned, execute_load_word, execute_store_word, transfer,
  execute_memory,
}
use mips.Emulator.Safety.Fits.{Fits}
use mips.Emulator.Safety.Rules.{
  Good, Runs, Any, bind-Safe, operand-Safe, get_reg-Safe, set_reg-Safe, if-SafeAt,
}

module _ {M : Type 0} (ops : MemoryOps M) (laws : MemoryLaws ops) (exe : Executable) where
  four_bytes-lt :
      (a b c d : ℕ) → d < 2 ^ 8 → bit_or (bit_or (bit_or (a << 24) (b << 16)) (c << 8)) d < 2 ^ 32
  four_bytes-lt a b c d hd =
      bit_or-lt 32 _ d
        (bit_or-lt 32 _ (c << 8) (bit_or-lt 32 (a << 24) (b << 16) (omega arith) (omega arith))
          (omega arith))
        (omega arith)

  load_word-lt :
      (little_endian : Bool) (m : M) (address : ℕ)
      → MemoryLaws.IsValid laws m
      → load_word ops little_endian m address < 2 ^ 32
  unfolding load_word
  load_word-lt true m address v = four_bytes-lt _ _ _ _ (MemoryLaws.get-lt laws m address v)
  load_word-lt false m address v =
      four_bytes-lt _ _ _ _ (MemoryLaws.get-lt laws m (add32 address 3) v)

  set-IsValid :
      (m : M) (address val : ℕ)
      → MemoryLaws.IsValid laws m
      → MemoryLaws.IsValid laws (ops.set m address (u8 val))
  set-IsValid m address val v = MemoryLaws.set-IsValid laws m address (u8 val) v (omega arith)

  store_word-IsValid :
      (little_endian : Bool) (m : M) (address val : ℕ)
      → MemoryLaws.IsValid laws m
      → MemoryLaws.IsValid laws (store_word ops little_endian m address val)
  unfolding store_word
  store_word-IsValid true m address val v =
      set-IsValid _ _ val (
        set-IsValid _ _ (val >>> 8) (set-IsValid _ _ (val >>> 16) (set-IsValid m _ (val >>> 24) v)))
  store_word-IsValid false m address val v =
      set-IsValid _ _ val (
        set-IsValid _ _ (val >>> 8) (set-IsValid _ _ (val >>> 16) (set-IsValid m _ (val >>> 24) v)))

  with_memory :
      (e : Emulator M) (m : M)
      → Good ops laws exe e
      → MemoryLaws.IsValid laws m
      → Good ops laws exe (record e { memory = m })
  with_memory e m v valid = record {
    size = v.size;
    words = v.words;
    zero = v.zero;
    counter-lt = v.counter-lt;
    target-lt = v.target-lt;
    memory_valid = valid;
    same_executable = v.same_executable;
  }

  execute_load_word-Safe :
      (register address : ℕ)
      → register < 32
      → Runs ops laws exe Any (execute_load_word ops register address)
  unfolding execute_load_word instruction_error
  execute_load_word-Safe register address h = record {
    at = λ e v.
        if-SafeAt ops laws exe Any (is_misaligned e address) _ _ (λ bad. v)
          (λ fine.
            (set_reg-Safe ops laws exe register _ h
                (load_word-lt e.little_endian e.memory address v.memory_valid)).at
              e v);
  }

  execute_store_word-Safe :
      (val address : ℕ) → Runs ops laws exe Any (execute_store_word ops val address)
  unfolding execute_store_word instruction_error modify
  execute_store_word-Safe val address = record {
    at = λ e v.
        if-SafeAt ops laws exe Any (is_misaligned e address) _ _ (λ bad. v)
          (λ fine. (
            with_memory e _ v
                (store_word-IsValid e.little_endian e.memory address val v.memory_valid),
            tt,
          ));
  }

  transfer-Safe :
      (name : String) (address register val : ℕ)
      → register < 32
      → Runs ops laws exe Any (transfer ops name address register val)
  unfolding transfer modify pure
  transfer-Safe name address register val h = record {
    at = λ e v.
        let byte-lt = MemoryLaws.get-lt laws e.memory address v.memory_valid in
        if-SafeAt ops laws exe Any (str_eq name "LB") _ _
          (λ _. (set_reg-Safe ops laws exe register _ h (sext8-lt _ byte-lt)).at e v)
          (λ _.
            if-SafeAt ops laws exe Any (str_eq name "LBU") _ _
              (λ _. (set_reg-Safe ops laws exe register _ h (omega arith)).at e v)
              (λ _.
                if-SafeAt ops laws exe Any (str_eq name "LW") _ _
                  (λ _. (execute_load_word-Safe register address h).at e v)
                  (λ _.
                    if-SafeAt ops laws exe Any (str_eq name "SB") _ _
                      (λ _.
                        (with_memory e _ v (set-IsValid e.memory address val v.memory_valid), tt))
                      (λ _.
                        if-SafeAt ops laws exe Any (str_eq name "SW") _ _
                          (λ _. (execute_store_word-Safe val address).at e v) (λ _. (v, tt))))));
  }

  pub execute_memory-Safe :
      (i : Instruction)
      → Fits i
      → 1 ≤ length i.registers
      → Runs ops laws exe Any (execute_memory ops i)
  unfolding execute_memory
  execute_memory-Safe i fit h =
      bind-Safe ops laws exe (get_reg-Safe ops laws exe i.memory_reference.register fit.base-lt)
        (λ base _.
          bind-Safe ops laws exe (operand-Safe ops laws exe i 0 h fit.registers-lt) (λ register hr.
            bind-Safe ops laws exe (get_reg-Safe ops laws exe register hr)
              (λ val _. transfer-Safe i.name _ register val hr)))
