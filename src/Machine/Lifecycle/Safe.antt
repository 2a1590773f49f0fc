-- ===== src/Machine/Lifecycle/Safe.antt =====
-- The machines that a program owns and those of the C library, after any number of steps.
use libriscv_rust_binding.Common.{
  ℕ, ◌<◌, ◌≡◌, refl, ◌∙◌, true, false, not, ◌&&◌, ◌||◌, none, some, List, [], ◌∷◌, ◌==◌, arith,
  Bool-cases, inl, inr,
}
use libriscv_rust_binding.Raw.{null}
use libriscv_rust_binding.Slice.{Slice, nonnull-cases}
use libriscv_rust_binding.Sys.{Host, Sys}
use libriscv_rust_binding.Error.Ends
use libriscv_rust_binding.Error.Ends.{Ends, returns, raises}
use libriscv_rust_binding.Options
use libriscv_rust_binding.Options.{Options, zeroed, default_raw_options}
use libriscv_rust_binding.Syscall.{SyscallRegistry, get, register_syscall_handler}
use libriscv_rust_binding.Machine.{Machine, new, fast_fork, drop, to_owned, setup_native_memory}
use libriscv_rust_binding.Machine.Calls.{perform}
use libriscv_rust_binding.Machine.Create.{created, new-outcome}
use libriscv_rust_binding.Machine.Lifecycle.{
  Owned, owns, is_parent, is_borrowed, without, Program, MachineTable, Step, Steps,
}
use libriscv_rust_binding.Machine.Lifecycle.Keeps.{OtherCalls, checked-Keeps}
use libriscv_rust_binding.Machine.Lifecycle.Performs.{perform-keeps}

-- No machine has two owners.
abbrev pub Distinct : List Owned → Type 0
Distinct [] = Unit
Distinct (o ∷ os) = (owns os o.machine.ptr ≡ false) × Distinct os

pub owns-without :
    (os : List Owned) (p q : ℕ) → Distinct os → owns (without os p) q ≡ (not (p == q) && owns os q)
owns-without [] p q d = ground arith
owns-without (o ∷ os) p q d = ground (arith, owns-without os p q d.1, d.0)

is_borrowed-without :
    (os : List Owned) (p q : ℕ) → is_borrowed (without os p) q ≡ true → is_borrowed os q ≡ true
is_borrowed-without [] p q h = h
is_borrowed-without (o ∷ os) p q h = ground (arith, is_borrowed-without os p q)

Distinct-without : (os : List Owned) (p : ℕ) → Distinct os → Distinct (without os p)
Distinct-without [] p d = tt
Distinct-without (o ∷ os) p d = elim (Bool-cases (o.machine.ptr == p)) [
  | inl here ↦ rw here d.1
  | inr later ↦
      rw later (ground (arith, owns-without os p o.machine.ptr d.1, d.0), Distinct-without os p d.1)
]

module _ {F : Type 0} (sys : Sys F) (t : MachineTable sys) where
  -- The C library's machines are the owned ones, and a machine that is borrowed is owned.
  record Invariant (a : Program F) : Type 0 where
    exact : (q : ℕ) → t.exists a.host.foreign q ≡ owns a.owned q
    distinct : Distinct a.owned
    parents : (q : ℕ) → is_borrowed a.owned q ≡ true → owns a.owned q ≡ true

  -- From `h` to `h'` the C library made the machine at `p`, which is new.
  abbrev pub Makes : Host F → ℕ → Host F → Type 0
  Makes h p h' =
      (t.exists h.foreign p ≡ false)
      × ((q : ℕ) → t.exists h'.foreign q ≡ (p == q || t.exists h.foreign q))

  abbrev pub Same : Host F → Host F → Type 0
  Same h h' = (q : ℕ) → t.exists h'.foreign q ≡ t.exists h.foreign q

  -- What the table says of a call that returned `p`, null or not.
  Makes-present :
      (h h' : Host F) (p : ℕ)
      → 0 < p
      → (t.exists h.foreign p ≡ false)
      → ((q : ℕ) → t.exists h'.foreign q ≡ (not (p == null) && p == q || t.exists h.foreign q))
      → Makes h p h'
  Makes-present h h' p present fresh made = (fresh, λ q. ground (arith, made q, present))

  Same-absent :
      (h h' : Host F) (p : ℕ)
      → p ≡ 0
      → ((q : ℕ) → t.exists h'.foreign q ≡ (not (p == null) && p == q || t.exists h.foreign q))
      → Same h h'
  Same-absent h h' p absent made q = ground (arith, made q, absent)

  pub new-Makes :
      (elf : Slice) (options : Options) (registry : SyscallRegistry) (h : Host F)
      → Ends
          (λ machine h'. Makes h machine.ptr h')
          (λ e h'. Same h h')
          (new sys elf options registry h)
  new-Makes elf options registry h =
      let (copy, m) = to_owned elf h.memory in
      let (fresh, made) = t.new_makes copy.address elf.len options.raw (record h { memory = m }) in
      let (p, h') = created sys elf options registry h in
      Ends.weaken (new-outcome sys elf options registry h)
        (λ machine after (_, present, state, same).
          rw (state, same) (Makes-present h h' p present fresh made))
        (λ e after failed. elim failed [
          | inl (_, _, state) ↦ rw state (λ q. refl)
          | inr (_, absent, _, state) ↦ rw state (Same-absent h h' p absent made)
        ])

  fast_fork-Makes :
      (self : Machine) (options : Options) (h : Host F)
      → t.exists h.foreign self.ptr ≡ true
      → Ends
          (λ fork h'. Makes h fork.machine.ptr h')
          (λ e h'. Same h h')
          (fast_fork sys self options h)
  unfolding fast_fork
  fast_fork-Makes self options h known =
      let (fresh, made) = t.fork_makes self.ptr options.raw h known in
      let ((p, _), h') = sys.libriscv_fast_fork self.ptr options.raw h in
      elim (nonnull-cases "libriscv_fast_fork" p) [
        | inl (absent, e) ↦ rw e (raises (Same-absent h h' p absent made))
        | inr (present, e) ↦ rw e (returns (Makes-present h h' p present fresh made))
      ]

  Invariant-Makes :
      (owned : List Owned) (h h' : Host F) (o : Owned)
      → Invariant (record { owned = owned; host = h })
      → ((q : ℕ) → is_parent o.parent q ≡ true → owns owned q ≡ true)
      → Makes h o.machine.ptr h'
      → Invariant (record { owned = o ∷ owned; host = h' })
  Invariant-Makes owned h h' o i known (fresh, made) = record {
    exact = λ q. ground (arith, made q, i.exact q);
    distinct = (ground (arith, fresh, i.exact o.machine.ptr), i.distinct);
    parents = λ q borrowed. ground (arith, borrowed, known q, i.parents q);
  }

  Invariant-Same :
      (owned : List Owned) (h h' : Host F)
      → Invariant (record { owned = owned; host = h })
      → Same h h'
      → Invariant (record { owned = owned; host = h' })
  Invariant-Same owned h h' i same = record {
    exact = λ q. same q ∙ i.exact q;
    distinct = i.distinct;
    parents = i.parents;
  }

  Invariant-drop :
      (owned : List Owned) (h : Host F) (self : Machine)
      → Invariant (record { owned = owned; host = h })
      → owns owned self.ptr ≡ true
      → is_borrowed owned self.ptr ≡ false
      → Invariant (record { owned = without owned self.ptr; host = drop sys self h })
  unfolding drop
  Invariant-drop owned h self i mine free = record {
    exact = λ q. ground (
      arith,
      t.delete_ends self.ptr h (i.exact self.ptr ∙ mine) q,
      i.exact q,
      owns-without owned self.ptr q i.distinct,
    );
    distinct = Distinct-without owned self.ptr i.distinct;
    parents = λ q borrowed.
        let before = is_borrowed-without owned self.ptr q borrowed in
        ground (arith, before, i.parents q before, owns-without owned self.ptr q i.distinct, free);
  }

  Step-Invariant : {a b : Program F} → OtherCalls sys t → Invariant a → Step sys a b → Invariant b
  unfolding register_syscall_handler setup_native_memory Options.new default_raw_options
  Step-Invariant c i (Step.creates {owned} {h} {h'} {machine} elf options registry e) =
      Invariant-Makes owned h h' (record { machine = machine; parent = none }) i
        (λ q never. cc never) (Ends.returned (new-Makes elf options registry h) e)
  Step-Invariant c i (Step.create_fails {owned} {h} {h'} elf options registry e) =
      Invariant-Same owned h h' i (Ends.raised (new-Makes elf options registry h) e)
  Step-Invariant c i (Step.forks {owned} {h} {h'} {fork} self options mine e) =
      Invariant-Makes owned h h' (record { machine = fork.machine; parent = some self.ptr }) i
        (λ q same. ground (arith, same, mine))
        (Ends.returned (fast_fork-Makes self options h (i.exact self.ptr ∙ mine)) e)
  Step-Invariant c i (Step.fork_fails {owned} {h} {h'} self options mine e) =
      Invariant-Same owned h h' i
        (Ends.raised (fast_fork-Makes self options h (i.exact self.ptr ∙ mine)) e)
  Step-Invariant c i (Step.drops {owned} {h} self mine free) =
      Invariant-drop owned h self i mine free
  Step-Invariant c i (Step.calls {owned} {h} self call mine) =
      Invariant-Same owned h (perform sys self call h) i (perform-keeps sys t c self call h)
  Step-Invariant c i (Step.registers {owned} {h} num handler) =
      let kept =
        checked-Keeps sys t "libriscv_set_syscall_handler"
          (sys.libriscv_set_syscall_handler (get num) handler.pointer)
          (c.set_syscall_handler_keeps (get num) handler.pointer) in
      Invariant-Same owned h _ i (kept.keeps h)
  Step-Invariant c i (Step.sets_up {owned} {h} syscall_base) =
      let kept =
        checked-Keeps sys t "libriscv_setup_native_memory"
          (sys.libriscv_setup_native_memory syscall_base)
          (c.setup_native_memory_keeps syscall_base) in
      Invariant-Same owned h _ i (kept.keeps h)
  Step-Invariant c i (Step.takes_defaults {owned} {h}) =
      Invariant-Same owned h _ i ((c.set_defaults_keeps zeroed).keeps h)
  Step-Invariant c i (Step.computes {owned} {h} memory) =
      Invariant-Same owned h (record h { memory = memory }) i (λ q. refl)

  Steps-Invariant : {a b : Program F} → OtherCalls sys t → Invariant a → Steps sys a b → Invariant b
  Steps-Invariant c i Steps.done = i
  Steps-Invariant c i (Steps.then steps step) = Step-Invariant c (Steps-Invariant c i steps) step

module _ {F : Type 0} (sys : Sys F) (t : MachineTable sys) (c : OtherCalls sys t) (h : Host F)
    (b : Program F) where
  start-Invariant :
      ((q : ℕ) → t.exists h.foreign q ≡ false)
      → Steps sys (record { owned = []; host = h }) b
      → Invariant sys t b
  start-Invariant clean steps =
      Steps-Invariant sys t c
        (record { exact = clean; distinct = tt; parents = λ q never. cc never }) steps

  -- A program that starts without machines, and then makes, forks and drops machines, calls any of
  -- their methods, registers handlers, takes default options and changes its memory, in any order,
  -- also with calls that fail, owns at every time exactly the machines that exist in the C
  -- library, each once; so none is deleted twice and none is left over.
  pub machines-Distinct :
      ((q : ℕ) → t.exists h.foreign q ≡ false)
      → Steps sys (record { owned = []; host = h }) b
      → Distinct b.owned × ((q : ℕ) → t.exists b.host.foreign q ≡ owns b.owned q)
  machines-Distinct clean steps = let i = start-Invariant clean steps in (i.distinct, i.exact)

  -- In a program that starts without machines, whatever steps it takes, a machine that a fork borrows
  -- exists as long as the fork does.
  pub parent_exists :
      (q : ℕ)
      → ((q : ℕ) → t.exists h.foreign q ≡ false)
      → Steps sys (record { owned = []; host = h }) b
      → is_borrowed b.owned q ≡ true
      → t.exists b.host.foreign q ≡ true
  parent_exists q clean steps borrowed =
      let i = start-Invariant clean steps in i.exact q ∙ i.parents q borrowed
