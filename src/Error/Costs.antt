-- ===== src/Error/Costs.antt =====
-- Pieces of Rust that raise a count by so much at most, however they end.
use libriscv_rust_binding.Common.{ℕ, ◌+◌, ◌≤◌, Bool, true, false, ok, err, arith, if◌then◌else◌}
use libriscv_rust_binding.Error.{Fallible}
use libriscv_rust_binding.Error.Action.{Action, and_then, ◌>>=◌}

-- A piece of the program raises a count by `n` at most, however it ends.
pub record Costs {S A : Type 0} (count : S → ℕ) (n : ℕ) (f : Action S A) : Type 0 where
  pub bound : (s : S) → count (f s).1 ≤ count s + n

module _ {S : Type 0} {count : S → ℕ} where
  and_then-bound :
      {A B : Type 0} {k : A → Action S B} {m n : ℕ} (r : Fallible A) (t : S)
      → count t ≤ m
      → ((a : A) → Costs count n (k a))
      → count (and_then (r, t) k).1 ≤ m + n
  and_then-bound (ok a) t first next = omega (arith, (next a).bound t)
  and_then-bound (err e) t first next = omega arith

  pub after :
      {A B : Type 0} {f : Action S A} {k : A → Action S B} (m n : ℕ) {total : ℕ}
      → m + n ≤ total
      → Costs count m f
      → ((a : A) → Costs count n (k a))
      → Costs count total (f >>= k)
  after {f = f} {k = k} m n enough first next = record {
    bound = λ s.
        let (r, t) = f s in
        omega (arith, and_then-bound {k = k} {m = count s + m} {n = n} r t (first.bound s) next);
  }

  pub relax :
      {A : Type 0} {f : Action S A} (m : ℕ) {n : ℕ} → m ≤ n → Costs count m f → Costs count n f
  relax m less costs = record { bound = λ s. omega (arith, costs.bound s) }

  pub either :
      {A : Type 0} {f g : Action S A} {n : ℕ} (b : Bool)
      → Costs count n f
      → Costs count n g
      → Costs count n (if b then f else g)
  either true yes_costs no_costs = yes_costs
  either false yes_costs no_costs = no_costs
