-- ===== src/Isa/Failure.antt =====
-- The errors of the package, one constructor for each message, with the values that it shows.
use mips.Prelude.{ℕ, String, ◌≡◌, refl, ◌⊎◌, inl, inr}

pub data Error : Type 0 where
  -- inst_coding.go
  register_count : String → Error
  unknown_symbol : String → Error
  unknown_instruction : String → Error
  expecting_relative : String → Error
  expecting_absolute : String → Error
  branch_out_of_bounds : Error
  jump_overflows : Error
  jump_not_encodable : Error
  misaligned_address : Error
  -- emulator.go; `at pc e` is `instructionError` around the message `e`
  branch_in_delay_slot : Error
  jump_in_delay_slot : Error
  misaligned_load : ℕ → Error
  misaligned_store : ℕ → Error
  at : ℕ → Error → Error
  -- instruction.go
  bad_usage : String → Error
  invalid_arguments : String → Error
  no_such_instruction : String → Error
  -- arg_token.go
  bad_token : String → Error
  missing_dollar : String → Error
  invalid_register : String → Error
  invalid_number : String → Error
  invalid_memory : String → Error
  offset_out_of_bounds : String → Error
  -- lexer.go; `on_source_line n e` is the message `e` behind "error on line n: ", `at_operand i e`
  -- behind "operand i: "
  invalid_name : Error
  missing_comma : ℕ → Error
  at_operand : ℕ → Error → Error
  on_source_line : ℕ → Error → Error
  -- executable.go; `on_line n e` is the message `e` behind "line n: ", `unrendered a e` behind
  -- "failed to render instruction at a: "
  overwriting : ℕ → Error
  misaligned_segment : Error
  unknown_directive : String → Error
  repeated_symbol : String → Error
  on_line : ℕ → Error → Error
  unrendered : ℕ → Error → Error

-- A value, an `error`, or a run-time panic (an index out of range).
pub data Result {ℓ} (A : Type ℓ) : Type ℓ where
  ok : A → Result A
  err : Error → Result A
  panic : Result A

infixl 5 ◌>>=◌
abbrev pub ◌>>=◌ {ℓ κ} : {A : Type ℓ} {B : Type κ} → Result A → (A → Result B) → Result B
panic >>= next = panic
err e >>= next = err e
ok a >>= next = next a

pub ok-injective : {A : Type 0} (a c : A) → ◌≡◌ {A = Result A} (ok a) (ok c) → a ≡ c
ok-injective a c h = cc

pub Result-cases :
    {A : Type 0} (r : Result A)
    → ((a : A) × (r ≡ ok a)) ⊎ (((e : Error) × (r ≡ err e)) ⊎ (r ≡ panic))
Result-cases (ok a) = inl (a, refl)
Result-cases (err e) = inr (inl (e, refl))
Result-cases panic = inr (inr refl)

-- A chain that succeeds, taken apart at its first action.
pub bind-ok :
    {A B : Type 0} (r : Result A) (rest : A → Result B) (final : B)
    → (r >>= rest) ≡ ok final
    → (next : A) × (r ≡ ok next) × (rest next ≡ ok final)
bind-ok (ok next) rest final h = (next, refl, h)
bind-ok (err e) rest final h = absurd (cc)
bind-ok panic rest final h = absurd (cc)
