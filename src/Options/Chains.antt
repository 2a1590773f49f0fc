-- ===== src/Options/Chains.antt =====
-- src/lib.rs: a chain of calls of `OptionsBuilder`'s methods.
use libriscv_rust_binding.Common.{
  ◌≡◌, ◌≢◌, refl, ◌∙◌, ap, sym, subst, Option, none, some, List, [], ◌∷◌, arith,
}
use libriscv_rust_binding.Options.{OptionsBuilder}
use libriscv_rust_binding.Options.Setters.{Setting, Slot, apply, slot}
use libriscv_rust_binding.Options.Orders.{apply_comm, apply_last}

unfoldable pub Slot-discrete : Discrete Slot
Slot-discrete = hlevel

-- The calls of the chain, the first one first.
abbrev pub chain : List Setting → OptionsBuilder → OptionsBuilder
chain [] b = b
chain (s ∷ ss) b = chain ss (apply s b)

-- The later call, if there is one, or else `s` if it is about the option.
abbrev pub later : Slot → Setting → Option Setting → Option Setting
later k s (some t) = some t
later k s none = elim (Slot-discrete k (slot s)) [ yes same ↦ some s | no other ↦ none ]

-- The last call of a chain about an option.
abbrev pub last_about : Slot → List Setting → Option Setting
last_about k [] = none
last_about k (s ∷ ss) = later k s (last_about k ss)

abbrev all : List Slot
all =
    Slot.max_memory_slot ∷ Slot.stack_size_slot ∷ Slot.strict_sandbox_slot
    ∷ Slot.use_memory_arena_slot ∷ Slot.use_shared_execute_segments_slot ∷ Slot.exit_function_slot
    ∷ Slot.load_program_slot ∷ Slot.protect_segments_slot ∷ Slot.native_syscall_base_slot
    ∷ Slot.arena_size_slot ∷ Slot.args_slot ∷ Slot.error_slot ∷ Slot.stdout_slot ∷ Slot.opaque_slot
    ∷ []

abbrev Absent : Slot → List Slot → Type 0
Absent k [] = Unit
Absent k (j ∷ js) = (k ≢ j) × Absent k js

abbrev Separate : List Slot → Type 0
Separate [] = Unit
Separate (k ∷ ks) = Absent k ks × Separate ks

abbrev Listed : Slot → List Slot → Type 0
Listed k ks = Absent k ks → ⊥

all-Separate : Separate all
all-Separate = ground arith

all-Listed : (k : Slot) → Listed k all
all-Listed k = ground arith

-- The call that is about the option, if any.
abbrev pick : Option Setting → OptionsBuilder → OptionsBuilder
pick none b = b
pick (some s) b = apply s b

-- One call for each option.
abbrev each : List Slot → (Slot → Option Setting) → OptionsBuilder → OptionsBuilder
each [] f b = b
each (k ∷ ks) f b = pick (f k) (each ks f b)

-- The call is about the option, if there is one.
abbrev IsAbout : Slot → Option Setting → Type 0
IsAbout k none = Unit
IsAbout k (some u) = slot u ≡ k

later-IsAbout :
    (k : Slot) (s : Setting) (o : Option Setting) → IsAbout k o → IsAbout k (later k s o)
later-IsAbout k s (some u) about = about
later-IsAbout k s none about =
    elim (Slot-discrete k (slot s))
      as (λ d. IsAbout k (elim d [ yes same ↦ some s | no other ↦ none ])) [
        | yes same ↦ sym same
        | no other ↦ tt
      ]

later-same : (k : Slot) (s : Setting) → k ≡ slot s → later k s none ≡ some s
later-same k s e =
    elim (Slot-discrete k (slot s))
      as (λ d. Path (Option Setting) (elim d [ yes same ↦ some s | no other ↦ none ]) (some s)) [
        | yes same ↦ refl
        | no other ↦ absurd (other e)
      ]

later-other : (k : Slot) (s : Setting) (o : Option Setting) → k ≢ slot s → later k s o ≡ o
later-other k s (some u) ne = refl
later-other k s none ne =
    elim (Slot-discrete k (slot s))
      as (λ d. Path (Option Setting) (elim d [ yes same ↦ some s | no other ↦ none ]) none) [
        | yes same ↦ absurd (ne same)
        | no other ↦ refl
      ]

pick_comm :
    (k : Slot) (s : Setting) (o : Option Setting) (b : OptionsBuilder)
    → IsAbout k o
    → k ≢ slot s
    → pick o (apply s b) ≡ apply s (pick o b)
pick_comm k s none b about ne = refl
pick_comm k s (some u) b about ne = apply_comm u s b (λ e. ne (sym about ∙ e))

pick_last :
    (k : Slot) (s : Setting) (o : Option Setting) (b : OptionsBuilder)
    → IsAbout k o
    → k ≡ slot s
    → pick o (apply s b) ≡ pick (later k s o) b
pick_last k s none b about e = ap (λ o. pick o b) (sym (later-same k s e))
pick_last k s (some u) b about e = apply_last u s b (about ∙ e)

module _ (s : Setting) (f : Slot → Option Setting) (about : (k : Slot) → IsAbout k (f k)) where
  -- A call about another option than those listed can be made last, and changes no choice.
  each-Absent :
      (ks : List Slot) (b : OptionsBuilder)
      → Absent (slot s) ks
      → (each ks f (apply s b) ≡ apply s (each ks f b))
        × (each ks (λ k. later k s (f k)) b ≡ each ks f b)
  each-Absent [] b absent = (refl, refl)
  each-Absent (k ∷ ks) b absent =
      let (moved, kept) = each-Absent ks b absent.1 in
      let ne : k ≢ slot s = λ e. absent.0 (sym e) in
      (
        ap (pick (f k)) moved ∙ pick_comm k s (f k) (each ks f b) (about k) ne,
        ap (λ o. pick o (each ks (λ k. later k s (f k)) b)) (later-other k s (f k) ne)
            ∙ ap (pick (f k)) kept,
      )

  -- A first call counts if no later one is about its option.
  each-Listed :
      (ks : List Slot) (b : OptionsBuilder)
      → Separate ks
      → Listed (slot s) ks
      → each ks f (apply s b) ≡ each ks (λ k. later k s (f k)) b
  each-Listed [] b separate listed = absurd (listed tt)
  each-Listed (k ∷ ks) b separate listed = elim (Slot-discrete k (slot s)) [
    | yes same ↦
        let (moved, kept) = each-Absent ks b (subst (λ j. Absent j ks) same separate.0) in
        ap (pick (f k)) moved
        ∙ pick_last k s (f k) (each ks f b) (about k) same
        ∙ ap (pick (later k s (f k))) (sym kept)
    | no other ↦
        let rest = each-Listed ks b separate.1 (λ absent. listed (λ e. other (sym e), absent)) in
        ap (pick (f k)) rest
        ∙ ap (λ o. pick o (each ks (λ k. later k s (f k)) b)) (sym (later-other k s (f k) other))
  ]

last_about-IsAbout : (k : Slot) (ss : List Setting) → IsAbout k (last_about k ss)
last_about-IsAbout k [] = tt
last_about-IsAbout k (s ∷ ss) = later-IsAbout k s (last_about k ss) (last_about-IsAbout k ss)

each-none : (ks : List Slot) (b : OptionsBuilder) → each ks (λ k. none) b ≡ b
each-none [] b = refl
each-none (k ∷ ks) b = each-none ks b

-- A chain does what the last call about each option does.
chain-each :
    (ss : List Setting) (b : OptionsBuilder) → chain ss b ≡ each all (λ k. last_about k ss) b
chain-each [] b = sym (each-none all b)
chain-each (s ∷ ss) b =
    chain-each ss (apply s b)
    ∙ each-Listed s (λ k. last_about k ss) (λ k. last_about-IsAbout k ss) all b all-Separate
        (all-Listed (slot s))

each-agree :
    (ks : List Slot) (f g : Slot → Option Setting) (b : OptionsBuilder)
    → ((k : Slot) → f k ≡ g k)
    → each ks f b ≡ each ks g b
each-agree [] f g b agree = refl
each-agree (k ∷ ks) f g b agree =
    ap (λ o. pick o (each ks f b)) (agree k) ∙ ap (pick (g k)) (each-agree ks f g b agree)

-- Of a chain of calls of the builder's methods only the last one about each option counts: two
-- chains with the same last calls, whatever their orders and whatever they set before, leave the
-- same builder. Setting and clearing the exit function, or the arguments, are calls about one
-- option.
pub chain-last :
    (c d : List Setting) (b : OptionsBuilder)
    → ((k : Slot) → last_about k c ≡ last_about k d)
    → chain c b ≡ chain d b
chain-last c d b agree =
    chain-each c b
    ∙ each-agree all (λ k. last_about k c) (λ k. last_about k d) b agree
    ∙ sym (chain-each d b)
