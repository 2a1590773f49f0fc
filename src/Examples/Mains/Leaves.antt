-- ===== src/Examples/Mains/Leaves.antt =====
-- examples/basic.rs, examples/vmcall.rs and examples/advanced_syscalls.rs: the machines that exist after
-- a part of a `main`, up to the drop of its machine.
use libriscv_rust_binding.Common.{
  ℕ, ◌≡◌, refl, ◌∙◌, true, false, ◌==◌, Result, ok, err, arith, Bool-cases, inl, inr,
}
use libriscv_rust_binding.Slice.{Slice}
use libriscv_rust_binding.Sys.{Host, Sys}
use libriscv_rust_binding.Error.{Fallible}
use libriscv_rust_binding.Error.Action.{Action, on_memory}
use libriscv_rust_binding.Error.Ends.{Ends, returns, raises}
use libriscv_rust_binding.Options.{Options}
use libriscv_rust_binding.Syscall.{SyscallRegistry}
use libriscv_rust_binding.Machine
use libriscv_rust_binding.Machine.{Machine, run, return_value, address_of}
use libriscv_rust_binding.Machine.Lifecycle.{MachineTable}
use libriscv_rust_binding.Machine.Lifecycle.Safe.{Makes, Same, new-Makes}
use libriscv_rust_binding.Examples.Handlers.{Printed, App}
use libriscv_rust_binding.Machine.Lifecycle.Keeps.{Keeps}
use libriscv_rust_binding.Examples.Mains.{
  Failure, Main, done, stop_with, and_then, ◌>>=◌, boxed, lib, say, with_machine,
}

module _ {F : Type 0} (sys : Sys F) (t : MachineTable sys) where
  -- After `m` the same machines exist.
  pub record Leaves {A : Type 0} (m : Main F A) : Type 0 where
    pub leaves : (s : App F) (q : ℕ) → t.exists (m s).1.host.foreign q ≡ t.exists s.host.foreign q

  boxed-state : {A : Type 0} (r : Fallible A) (s : App F) → (boxed (r, s)).1 ≡ s
  boxed-state (ok a) s = refl
  boxed-state (err e) s = refl

  pub lib-Leaves : {A : Type 0} (f : Action (Host F) A) → Keeps sys t f → Leaves (lib f)
  lib-Leaves f kept = record {
    leaves = λ s q.
        let (r, h) = f s.host in rw (boxed-state r (record s { host = h })) (kept.keeps s.host q);
  }

  pub memory-Leaves : {A : Type 0} (f : Action _ A) → Leaves (lib (on_memory f))
  memory-Leaves f = lib-Leaves (on_memory f) (record { keeps = λ h q. refl })

  pub say-Leaves : (event : Printed) → Leaves (say event)
  say-Leaves event = record { leaves = λ s q. refl }

  pub done-Leaves : {A : Type 0} (a : A) → Leaves (done a)
  done-Leaves a = record { leaves = λ s q. refl }

  pub stop_with-Leaves : {A : Type 0} (e : Failure) → Leaves {A = A} (stop_with e)
  stop_with-Leaves e = record { leaves = λ s q. refl }

  and_then-Leaves :
      {A B : Type 0} (r : Result Failure A × App F) (k : A → Main F B) (q : ℕ)
      → ((a : A) → Leaves (k a))
      → t.exists (and_then r k).1.host.foreign q ≡ t.exists r.1.host.foreign q
  and_then-Leaves (ok a, s) k q next = (next a).leaves s q
  and_then-Leaves (err e, s) k q next = refl

  pub bind-Leaves :
      {A B : Type 0} (m : Main F A) (k : A → Main F B)
      → Leaves m
      → ((a : A) → Leaves (k a))
      → Leaves (m >>= k)
  bind-Leaves m k first next = record {
    leaves = λ s q. and_then-Leaves (m s) k q next ∙ first.leaves s q;
  }

  -- A machine that was made, and what `main` does with it up to its drop.
  opened-Leaves :
      {A : Type 0} (r : Fallible Machine × Host F) (body : Machine → Main F A) (s : App F) (q : ℕ)
      → Ends (λ machine h'. Makes sys t s.host machine.ptr h') (λ e h'. Same sys t s.host h') r
      → ((machine : Machine) → Leaves (body machine))
      → t.exists
          (and_then
            (boxed (r.0, record s { host = r.1 }))
            (λ machine. with_machine sys machine (body machine))).1.host.foreign
          q
        ≡ t.exists s.host.foreign q
  unfolding with_machine Machine.drop
  opened-Leaves (ok machine, h) body s q (returns (fresh, made)) inside =
      let after : App F = (body machine (record s { host = h })).1 in
      let kept = (inside machine).leaves (record s { host = h }) in
      let known : t.exists after.host.foreign machine.ptr ≡ true =
        kept machine.ptr ∙ made machine.ptr ∙ ground arith in
      let gone = t.delete_ends machine.ptr after.host known q in
      let kept_q = kept q in
      let made_q = made q in
      elim (Bool-cases (machine.ptr == q)) [
        | inl here ↦
            let same : q ≡ machine.ptr = ground arith in
            let was : t.exists s.host.foreign q ≡ false = cc (same, fresh) in
            gone ∙ rw (here, was) refl
        | inr elsewhere ↦ gone ∙ rw (kept_q, made_q, elsewhere) refl
      ]
  opened-Leaves (err e, h) body s q (raises same) inside = same q

  pub open_machine-Leaves :
      {A : Type 0} (elf : Slice) (options : Options) (registry : SyscallRegistry)
      (body : Machine → Main F A)
      → ((machine : Machine) → Leaves (body machine))
      → Leaves (
          lib (Machine.new sys elf options registry) >>= λ machine.
          with_machine sys machine (body machine))
  open_machine-Leaves elf options registry body inside = record {
    leaves = λ s q.
        opened-Leaves (Machine.new sys elf options registry s.host) body s q
          (new-Makes sys t elf options registry s.host) inside;
  }
