-- ===== src/Error/Ends.antt =====
-- How a run ends: with a value and a state for which `P` holds, or with an error and a state for
-- which `E` holds.
use mathlib.Core.Path.{subst₂}
use libriscv_rust_binding.Common.{◌≡◌, ap, ok, err}
use libriscv_rust_binding.Error.{Error, Fallible}
use libriscv_rust_binding.Error.Action.{Action, and_then}

pub data Ends {S A : Type 0} (P : A → S → Type 0) (E : Error → S → Type 0)
    : Fallible A × S → Type 0 where
  returns : {a : A} {s : S} → P a s → Ends P E (ok a, s)
  raises : {e : Error} {s : S} → E e s → Ends P E (err e, s)

module _ {S A : Type 0} {P : A → S → Type 0} {E : Error → S → Type 0} where
  pub bind :
      {B : Type 0} {Q : B → S → Type 0} {G : Error → S → Type 0} {r : Fallible A × S}
      {k : A → Action S B}
      → Ends P E r
      → ((a : A) (s : S) → P a s → Ends Q G (k a s))
      → ((e : Error) (s : S) → E e s → G e s)
      → Ends Q G (and_then r k)
  bind (returns p) next early = next _ _ p
  bind (raises e) next early = raises (early _ _ e)

  pub weaken :
      {Q : A → S → Type 0} {G : Error → S → Type 0} {r : Fallible A × S}
      → Ends P E r
      → ((a : A) (s : S) → P a s → Q a s)
      → ((e : Error) (s : S) → E e s → G e s)
      → Ends Q G r
  weaken (returns p) value early = returns (value _ _ p)
  weaken (raises p) value early = raises (early _ _ p)

  -- What holds of a run that is known to have returned, and of one known to have failed.
  pub returned : {a : A} {s : S} {r : Fallible A × S} → Ends P E r → r ≡ (ok a, s) → P a s
  returned {a} {s} (returns {a = b} {s = t} p) e =
      let value : b ≡ a = cc (ap (λ (r : Fallible A × S). r.0) e) in
      subst₂ P value (ap (λ (r : Fallible A × S). r.1) e) p
  returned (raises p) e = cc (ap (λ (r : Fallible A × S). r.0) e)

  pub raised : {x : Error} {s : S} {r : Fallible A × S} → Ends P E r → r ≡ (err x, s) → E x s
  raised (returns p) e = cc (ap (λ (r : Fallible A × S). r.0) e)
  raised {x} {s} (raises {e = y} {s = t} p) e =
      let value : y ≡ x = cc (ap (λ (r : Fallible A × S). r.0) e) in
      subst₂ E value (ap (λ (r : Fallible A × S). r.1) e) p
