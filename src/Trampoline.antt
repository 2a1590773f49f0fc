-- ===== src/Trampoline.antt =====
-- libriscv-macros/src/lib.rs and src/syscall.rs: the trampolines that the attribute macros generate, and
-- what becomes of a handler's result. `S` is the state that a handler works on, with the host's memory
-- in it; a handler may panic, and the state is then what it left.
use libriscv_rust_binding.Common.{ℕ, ℤ, Option, none, some}
use libriscv_rust_binding.Memory.{Memory}
use libriscv_rust_binding.Error.{Fallible}
use libriscv_rust_binding.Callbacks.{ErrorContext, StdoutContext, error_context, stdout_context}
use libriscv_rust_binding.Syscall.Context.{SyscallContext, from_raw}

pub record SyscallResult (T : Type 0) : Type 0 where
  pub result : Fallible T

-- `From<Result<T>> for SyscallResult<T>`.
unfoldable pub from : {T : Type 0} → Fallible T → SyscallResult T
from value = record { result = value }

-- `SyscallHandlerOutput`: a result becomes its side effects, of which neither implementation has any.
unfoldable pub handle_unit : Unit {0} → Unit {0}
handle_unit self = tt

unfoldable pub handle_result : {T : Type 0} → SyscallResult T → Unit {0}
handle_result self = tt

pub data Outcome (A : Type 0) : Type 0 where
  returned : A → Outcome A
  panicked : Outcome A

abbrev pub then_handle : {A : Type 0} → (A → Unit {0}) → Outcome A → Outcome (Unit {0})
then_handle handle (returned a) = returned (handle a)
then_handle handle panicked = panicked

-- `result.into()`.
abbrev pub into : {T : Type 0} → Outcome (Fallible T) → Outcome (SyscallResult T)
into (returned result) = returned (from result)
into panicked = panicked

-- The body that `wrap_syscall_result` puts into a function: the written one is a closure that returns a
-- `Result`.
unfoldable pub wrapped_body :
    {S C T : Type 0} → (C → S → Outcome (Fallible T) × S) → C → S → Outcome (SyscallResult T) × S
unfolding from
wrapped_body block ctx s = let (outcome, t) = block ctx s in (into outcome, t)

module _ {S : Type 0} where
  -- `let _ = catch_unwind(closure)`: a panic goes no further.
  abbrev pub caught : (S → Outcome (Unit {0}) × S) → S → S
  caught closure s = (closure s).1

  -- `if let Some(mut ctx) = SyscallContext::from_raw(m)`.
  abbrev pub if_some :
      (SyscallContext → S → Outcome (Unit {0}) × S)
      → Option SyscallContext
      → S
      → Outcome (Unit {0}) × S
  if_some run none s = (returned tt, s)
  if_some run (some ctx) s = run ctx s

module _ {S A : Type 0} where
  -- The function's call and `SyscallHandlerOutput::handle`.
  abbrev pub handled : (A → Unit {0}) → (S → Outcome A × S) → S → Outcome (Unit {0}) × S
  handled handle run s = let (outcome, t) = run s in (then_handle handle outcome, t)

  unfoldable pub syscall_trampoline :
      (handle : A → Unit {0}) → (SyscallContext → S → Outcome A × S) → (m : ℕ) → S → S
  unfolding from_raw
  syscall_trampoline handle fn m = caught (if_some (λ ctx. handled handle (fn ctx)) (from_raw m))

  -- The pointers are read in the memory of the state in which the C library calls.
  module _ (memory : S → Memory) where
    unfoldable pub error_trampoline :
        (handle : A → Unit {0})
        → (ErrorContext → S → Outcome A × S)
        → (opaque : ℕ) → (type : ℤ) → (msg : ℕ) → (given : ℤ) → S
        → S
    unfolding error_context
    error_trampoline handle fn opaque type msg given =
        caught (λ s. handled handle (fn (error_context opaque type msg given (memory s))) s)

    unfoldable pub stdout_trampoline :
        (handle : A → Unit {0}) → (StdoutContext → S → Outcome A × S) → (opaque msg len : ℕ) → S → S
    unfolding stdout_context
    stdout_trampoline handle fn opaque msg len =
        caught (λ s. handled handle (fn (stdout_context opaque msg len (memory s))) s)
