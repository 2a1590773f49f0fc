-- ===== src/Machine/Lifecycle/Ending.antt =====
-- src/lib.rs: how a program can end: the drops in the reverse order of the makings.
use libriscv_rust_binding.Common.{
  ℕ, ◌≡◌, true, false, List, [], ◌∷◌, ◌==◌, arith, Bool-cases, inl, inr, subst,
}
use libriscv_rust_binding.Sys.{Host, Sys}
use libriscv_rust_binding.Machine.{drop}
use libriscv_rust_binding.Machine.Lifecycle.{
  Owned, owns, is_parent, is_borrowed, without, Program, MachineTable, Step, Steps,
}
use libriscv_rust_binding.Machine.Lifecycle.Keeps.{OtherCalls}
use libriscv_rust_binding.Machine.Lifecycle.Safe.{Distinct, owns-without, machines-Distinct}

-- Each machine that is borrowed was owned before the one that borrows it.
abbrev Ordered : List Owned → Type 0
Ordered [] = Unit
Ordered (o ∷ os) = ((q : ℕ) → is_parent o.parent q ≡ true → owns os q ≡ true) × Ordered os

is_borrowed-Ordered :
    (os : List Owned) (q : ℕ) → Ordered os → is_borrowed os q ≡ true → owns os q ≡ true
is_borrowed-Ordered [] q d h = h
is_borrowed-Ordered (o ∷ os) q d h = ground (arith, d.0 q, is_borrowed-Ordered os q d.1)

Ordered-without :
    (os : List Owned) (p : ℕ)
    → Distinct os
    → Ordered os
    → is_borrowed os p ≡ false
    → Ordered (without os p)
Ordered-without [] p e d free = tt
Ordered-without (o ∷ os) p e d free = elim (Bool-cases (o.machine.ptr == p)) [
  | inl here ↦ rw here d.1
  | inr later ↦ rw later (
    λ q same. ground (arith, same, d.0 q same, owns-without os p q e.1, free),
    Ordered-without os p e.1 d.1 (ground (arith, free)),
  )
]

Step-Ordered :
    {F : Type 0} (sys : Sys F) {a b : Program F}
    → Distinct a.owned
    → Ordered a.owned
    → Step sys a b
    → Ordered b.owned
Step-Ordered sys e d (Step.creates elf options registry made) = (λ q never. cc never, d)
Step-Ordered sys e d (Step.create_fails elf options registry failed) = d
Step-Ordered sys e d (Step.forks self options mine made) = (λ q same. ground (arith, same, mine), d)
Step-Ordered sys e d (Step.fork_fails self options mine failed) = d
Step-Ordered sys e d (Step.drops {owned} self mine free) = Ordered-without owned self.ptr e d free
Step-Ordered sys e d (Step.calls self call mine) = d
Step-Ordered sys e d (Step.registers num handler) = d
Step-Ordered sys e d (Step.sets_up syscall_base) = d
Step-Ordered sys e d Step.takes_defaults = d
Step-Ordered sys e d (Step.computes memory) = d

-- The newest machine is owned, and nothing that is left borrows it.
newest :
    (o : Owned) (os : List Owned)
    → Distinct (o ∷ os)
    → Ordered (o ∷ os)
    → (owns (o ∷ os) o.machine.ptr ≡ true)
      × (is_borrowed (o ∷ os) o.machine.ptr ≡ false)
      × (without (o ∷ os) o.machine.ptr ≡ os)
newest o os e d =
    let q = o.machine.ptr in
    (ground arith, ground (arith, e.0, d.0 q, is_borrowed-Ordered os q d.1), ground arith)

module _ {F : Type 0} (sys : Sys F) where
  append : {a b c : Program F} → Steps sys a b → Steps sys b c → Steps sys a c
  append first Steps.done = first
  append first (Steps.then rest step) = Steps.then (append first rest) step

  -- The host after the owners of the list have dropped their machines, the newest first.
  abbrev pub after_drops : List Owned → Host F → Host F
  after_drops [] h = h
  after_drops (o ∷ os) h = after_drops os (drop sys o.machine h)

  drop_all :
      (os : List Owned) (h : Host F)
      → Distinct os
      → Ordered os
      → Steps sys (record { owned = os; host = h }) (record { owned = []; host = after_drops os h })
  drop_all [] h e d = Steps.done
  drop_all (o ∷ os) h e d =
      let (mine, free, rest) = newest o os e d in
      let step : Step sys (record { owned = o ∷ os; host = h })
          (record { owned = without (o ∷ os) o.machine.ptr; host = drop sys o.machine h }) =
        Step.drops o.machine mine free in
      let one =
        subst
          (λ (l : List Owned).
            Step sys (record { owned = o ∷ os; host = h })
              (record { owned = l; host = drop sys o.machine h }))
          rest step in
      append (Steps.then Steps.done one) (drop_all os (drop sys o.machine h) e.1 d.1)

module _ {F : Type 0} (sys : Sys F) (t : MachineTable sys) (c : OtherCalls sys t) (h : Host F) where
  Steps-Ordered :
      {b : Program F}
      → ((q : ℕ) → t.exists h.foreign q ≡ false)
      → Steps sys (record { owned = []; host = h }) b
      → Ordered b.owned
  Steps-Ordered clean Steps.done = tt
  Steps-Ordered clean (Steps.then steps step) =
      Step-Ordered sys (machines-Distinct sys t c h _ clean steps).0 (Steps-Ordered clean steps)
        step

  -- A program that starts without machines, and then makes, forks and drops machines, calls their
  -- methods, registers handlers, takes default options and changes its memory, in any order, is
  -- never stuck with a machine: from every point it can drop what it owns, the newest first, each
  -- drop allowed because nothing borrows that machine; and then no machine exists in the C
  -- library.
  pub can_end :
      (b : Program F)
      → ((q : ℕ) → t.exists h.foreign q ≡ false)
      → Steps sys (record { owned = []; host = h }) b
      → Steps sys b (record { owned = []; host = after_drops sys b.owned b.host })
        × ((q : ℕ) → t.exists (after_drops sys b.owned b.host).foreign q ≡ false)
  can_end b clean steps =
      let ordered = Steps-Ordered clean steps in
      let (distinct, _) = machines-Distinct sys t c h b clean steps in
      let rest = drop_all sys b.owned b.host distinct ordered in
      (rest, (machines-Distinct sys t c h _ clean (append sys steps rest)).1)
