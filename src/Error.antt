-- ===== src/Error.antt =====
-- src/lib.rs: the error type that every module of the crate shares, and the outcome of a call.
use dbprimkit.Base.{ℕ, String, ◌≢◌, ◌≡◌, refl, sym, Bool, true, false, if◌then◌else◌}
use mathlib.Core.Path.{subst}

-- `std::io::Error`, as far as the crate looks at it: its kind.
pub data IoErrorKind : Type 0 where
  not_found unexpected_eof other : IoErrorKind

pub data Error : Type 0 where
  misc_error : String → Error
  io_error : IoErrorKind → Error
  not_a_directory : String → Error
  invalid_argument : String → Error
  not_supported : String → Error
  crc_check_failed : Error
  ring_buffer_full : Error
  log_entry_too_large : ℕ → ℕ → Error
  corrupt_file : String → Error
  decoding_failed : String → String → Error
  function_not_running : String → Error
  element_in_use : Error
  element_in_mut_use : Error
  element_deleted : Error
  element_ref_not_mutable : Error

-- `Result<A>`, with a panic, or a read of memory that was never written, as a value of its own.
pub data Outcome {ℓ} (A : Type ℓ) : Type ℓ where
  ok : A → Outcome A
  err : Error → Outcome A
  panic : Outcome A

infixl 5 ◌>>=◌ ◌>>◌
abbrev pub ◌>>=◌ {ℓ κ} : {A : Type ℓ} {B : Type κ} → Outcome A → (A → Outcome B) → Outcome B
ok a >>= f = f a
err e >>= f = err e
panic >>= f = panic

abbrev pub ◌>>◌ {ℓ κ} : {A : Type ℓ} {B : Type κ} → Outcome A → Outcome B → Outcome B
m >> k = m >>= λ _. k

module _ {ℓ} {A : Type ℓ} where
  abbrev IsPanic : Outcome A → Type 0
  IsPanic panic = Unit
  IsPanic _ = ⊥

  pub ok≢panic : {a : A} → ok a ≢ panic
  ok≢panic e = subst IsPanic (sym e) tt

  pub err≢panic : {e : Error} → ◌≢◌ {A = Outcome A} (err e) panic
  err≢panic e = subst IsPanic (sym e) tt

  -- A guard that returns early panics only if one of its two ways does.
  pub guard-then :
      (b : Bool) {x y : Outcome A}
      → x ≢ panic
      → (b ≡ false → y ≢ panic)
      → (if b then x else y) ≢ panic
  guard-then true hx hy = hx
  guard-then false hx hy = hy refl
