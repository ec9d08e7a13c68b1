-- ===== src/Ipc/Result.antt =====
-- `io::IoResult` of src/ipc.rs with the messages that its own checks give.
use vvmux.Prelude.{Bool, true, false}

pub data Error : Type 0 where
  end_of_stream sequence_gap reserved_flags body_too_large length_overflow unexpected_record : Error
  malformed short_header reserved_field extent_overflow exceeds_total last_disagrees : Error
  bad_magic version_mismatch reserved_byte unknown_channel invalid_maximum channel_mismatch : Error

pub data IoResult {ℓ} (T : Type ℓ) : Type ℓ where
  err : Error → IoResult T
  ok : T → IoResult T

-- The `?` operator, with and without the value of the step before.
infixl 5 ◌>>=◌ ◌>>◌
abbrev pub ◌>>=◌ {κ ℓ} : {T : Type κ} {U : Type ℓ} → IoResult T → (T → IoResult U) → IoResult U
err problem >>= next = err problem
ok value >>= next = next value

abbrev pub ◌>>◌ {ℓ} : {U : Type ℓ} → IoResult (Unit {0}) → IoResult U → IoResult U
checked >> next = checked >>= λ done. next

-- `if refused { return Err(problem); }`
abbrev pub reject : Bool → Error → IoResult (Unit {0})
reject false problem = ok tt
reject true problem = err problem
