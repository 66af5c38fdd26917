-- ===== src/Emulator/Execute/Transfer.antt =====
-- `executeMemory`: loads and stores of bytes and words.
use mips.Prelude.{ℕ, String, Bool, not, ◌&&◌, bit_and, bit_or, str_eq, ◌==◌, if◌then◌else◌}
use mips.Isa.{Instruction, misaligned_load, misaligned_store, u8, add32, sext8, sext16, ◌<<◌, ◌>>>◌}
use mips.Memory.Interface.{MemoryOps}
use mips.Emulator.State.{
  Emulator, Exec, ◌>>=◌, pure, modify, operand, get_reg, set_reg, instruction_error,
}

module _ {M : Type 0} where
  -- `e.ForceMemAlignment && (address&3) != 0`
  unfoldable pub is_misaligned : Emulator M → ℕ → Bool
  is_misaligned e address = e.force_mem_alignment && not (bit_and address 3 == 0)

module _ {M : Type 0} (ops : MemoryOps M) where
  -- four bytes, the most significant first or last
  unfoldable pub load_word : Bool → M → ℕ → ℕ
  load_word little_endian m address =
      if little_endian
      then bit_or
          (bit_or (bit_or (ops.get m (add32 address 3) << 24) (ops.get m (add32 address 2) << 16))
            (ops.get m (add32 address 1) << 8))
          (ops.get m address)
      else bit_or
          (bit_or (bit_or (ops.get m address << 24) (ops.get m (add32 address 1) << 16))
            (ops.get m (add32 address 2) << 8))
          (ops.get m (add32 address 3))

  unfoldable pub store_little : M → ℕ → ℕ → M
  store_little m address val =
      let m3 = ops.set m (add32 address 3) (u8 (val >>> 24)) in
      let m2 = ops.set m3 (add32 address 2) (u8 (val >>> 16)) in
      let m1 = ops.set m2 (add32 address 1) (u8 (val >>> 8)) in ops.set m1 address (u8 val)

  unfoldable pub store_big : M → ℕ → ℕ → M
  store_big m address val =
      let m0 = ops.set m address (u8 (val >>> 24)) in
      let m1 = ops.set m0 (add32 address 1) (u8 (val >>> 16)) in
      let m2 = ops.set m1 (add32 address 2) (u8 (val >>> 8)) in
      ops.set m2 (add32 address 3) (u8 val)

  unfoldable pub store_word : Bool → M → ℕ → ℕ → M
  unfolding store_little store_big
  store_word little_endian m address val =
      if little_endian then store_little m address val else store_big m address val

  unfoldable pub execute_load_word : ℕ → ℕ → Exec M (Unit {0})
  unfolding is_misaligned load_word instruction_error set_reg
  execute_load_word register address e =
      if is_misaligned e address
      then instruction_error (misaligned_load address) e
      else set_reg register (load_word e.little_endian e.memory address) e

  unfoldable pub execute_store_word : ℕ → ℕ → Exec M (Unit {0})
  unfolding is_misaligned store_word instruction_error modify
  execute_store_word val address e =
      if is_misaligned e address
      then instruction_error (misaligned_store address) e
      else modify (λ s. record s { memory = store_word s.little_endian s.memory address val }) e

  -- the switch on the name, with `address`, `register` and `registerValue`
  unfoldable pub transfer : String → ℕ → ℕ → ℕ → Exec M (Unit {0})
  unfolding execute_load_word execute_store_word set_reg modify pure
  transfer name address register register_value e =
      if str_eq name "LB"
      then set_reg register (sext8 (ops.get e.memory address)) e
      else if str_eq name "LBU"
      then set_reg register (ops.get e.memory address) e
      else if str_eq name "LW"
      then execute_load_word register address e
      else if str_eq name "SB"
      then modify (λ s. record s { memory = ops.set s.memory address (u8 register_value) }) e
      else if str_eq name "SW"
      then execute_store_word register_value address e
      else pure tt e

  unfoldable pub execute_memory : Instruction → Exec M (Unit {0})
  unfolding get_reg operand transfer
  execute_memory inst = do
    base ← get_reg inst.memory_reference.register
    register ← operand inst 0
    register_value ← get_reg register
    transfer inst.name (add32 base (sext16 inst.memory_reference.offset)) register register_value
