-- ===== src/Error/Action.antt =====
-- A piece of Rust that runs on a state and may return early with an error by `?`. The state is the
-- host's memory, or the whole host where the C library is called.
use libriscv_rust_binding.Common.{ok, err}
use libriscv_rust_binding.Memory.{Memory}
use libriscv_rust_binding.Sys.{Host}
use libriscv_rust_binding.Error.{Error, Fallible}

abbrev pub Action : Type 0 → Type 0 → Type 0
Action S A = S → Fallible A × S

module _ {S : Type 0} where
  abbrev pub pure : {A : Type 0} → A → Action S A
  pure a s = (ok a, s)

  abbrev pub fail : {A : Type 0} → Error → Action S A
  fail e s = (err e, s)

  -- `let x = result?;`
  abbrev pub attempt : {A : Type 0} → Fallible A → Action S A
  attempt r s = (r, s)

  -- A call that cannot fail.
  abbrev pub call : {A : Type 0} → (S → A × S) → Action S A
  call f s = let (a, s') = f s in (ok a, s')

  abbrev pub and_then : {A B : Type 0} → Fallible A × S → (A → Action S B) → Fallible B × S
  and_then (ok a, s) k = k a s
  and_then (err e, s) k = (err e, s)

  infixl 5 ◌>>=◌ ◌>>◌
  abbrev pub ◌>>=◌ : {A B : Type 0} → Action S A → (A → Action S B) → Action S B
  m >>= k = λ s. and_then (m s) k

  abbrev pub ◌>>◌ : {B : Type 0} → Action S (Unit {0}) → Action S B → Action S B
  m >> k = m >>= λ _. k

-- Work on the memory alone.
abbrev pub on_memory : {F A : Type 0} → Action Memory A → Action (Host F) A
on_memory f h = let (r, m) = f h.memory in (r, record h { memory = m })
