-- ===== src/Machine/Step.antt =====
-- src/lib.rs: how `Machine::step` reads the C library's answer.
use libriscv_rust_binding.Common.{
  ℕ, zero, suc, ◌%◌, ◌^◌, ◌<◌, ◌≡◌, Bool, Option, none, some, ℤ, pos, negsuc, ok, err, arith,
  from_bool, refl, is_negative, ltb, low_u32, true, ◌⊎◌, inl, ◌↔◌, to_i32-negsuc,
}
use libriscv_rust_binding.Sys.{Host, Sys}
use libriscv_rust_binding.Error.{Error, Fallible}
use libriscv_rust_binding.Error.Check.{error_message, check_code}
use libriscv_rust_binding.Machine.{Machine, step}

-- The answers that an `i32` keeps where they are negative, and an `i64` where they are not.
abbrev pub IsAnswer : ℤ → Type 0
IsAnswer (pos n) = n < 2 ^ 63
IsAnswer (negsuc n) = n < 2 ^ 31

module _ {F : Type 0} (sys : Sys F) (self : Machine) (verbose : Bool) (h : Host F) where
  -- What the answers mean: 0 is the end, a positive number an address, a negative one an error.
  abbrev pub meaning : ℤ → Host F → Fallible (Option ℕ)
  meaning (pos zero) h' = ok none
  meaning (pos (suc n)) h' = ok (some (suc n))
  meaning (negsuc n) h' =
      err (Error.library "libriscv_step_one" (negsuc n) (error_message sys (negsuc n) h'))

  -- When the C library answers with a non-negative `i64` or a negative `i32`, `step` returns none
  -- for 0, the number for a positive answer, and for a negative one the error with that code and
  -- the library's message for it; nothing changes after the call.
  pub step-outcome :
      (z : ℤ) (h' : Host F)
      → IsAnswer z
      → sys.libriscv_step_one self.ptr (from_bool verbose) h ≡ (z, h')
      → step sys self verbose h ≡ (meaning z h', h')
  unfolding step check_code
  step-outcome (pos zero) h' small answer = rw answer refl
  step-outcome (pos (suc n)) h' small answer =
      let fits : suc n % 2 ^ 64 ≡ suc n = omega arith in
      let test : ltb 0 (suc n) ≡ true = ground arith in rw (answer, fits, test) refl
  step-outcome (negsuc n) h' small answer = rw (answer, to_i32-negsuc n small) refl

  step-none_of :
      (z : ℤ) (h' : Host F)
      → sys.libriscv_step_one self.ptr (from_bool verbose) h ≡ (z, h')
      → ((step sys self verbose h).0 ≡ ok none)
        ↔ ((z ≡ pos 0) ⊎ ((is_negative z ≡ true) × (low_u32 z ≡ 0)))
  unfolding step check_code
  step-none_of (pos zero) h' answer = rw answer (λ _. inl refl, λ _. refl)
  step-none_of (pos (suc n)) h' answer =
      let test : ltb 0 (suc n) ≡ true = ground arith in rw (answer, test) (ground arith)
  step-none_of (negsuc n) h' answer = rw answer (ground arith)

  -- `step` returns none exactly when the answer is 0, or is negative and its low 32 bits are zero:
  -- that error is lost.
  pub step-none : (step sys self verbose h).0 ≡ ok none ↔ (
      let z = (sys.libriscv_step_one self.ptr (from_bool verbose) h).0 in
      (z ≡ pos 0) ⊎ ((is_negative z ≡ true) × (low_u32 z ≡ 0)))
  unfolding step check_code
  step-none = step-none_of _ _ refl
