-- ===== src/Options/Build.antt =====
-- src/lib.rs: how `OptionsBuilder::build` ends, and the memory that it leaves.
use mathlib.Core.Option
use libriscv_rust_binding.Common.{
  ℕ, ◌+◌, ◌*◌, ◌≤◌, ◌<◌, ◌≡◌, refl, inl, inr, Option, none, some, List, [], ◌∷◌, map, arith, ltb,
  if◌then◌else◌, length, u32_max, Option-cases, Bool-cases,
}
use libriscv_rust_binding.Memory.{
  Memory, Extends, Extends-refl, Extends-trans, alloc_words, alloc_words-Extends,
  alloc_bytes-Extends, Holds, Holds-congr, write_cells-Holds,
}
use libriscv_rust_binding.Memory.Strings.{
  CString, first_nul, HoldsString, HoldsString-Extends, cstring_new-clean, cstring_new-nul,
  alloc_bytes-HoldsString,
}
use libriscv_rust_binding.Error.{Error}
use libriscv_rust_binding.Error.Ends
use libriscv_rust_binding.Error.Ends.{Ends, returns, raises}
use libriscv_rust_binding.Options.{
  Options, OptionsBuilder, PointerVec, cstring, cstrings, optional_cstring, pointers, finish, build,
}

-- The error of the first string with a NUL in it.
abbrev pub string_error : List ℕ → Option Error
string_error a =
    Option.map (λ i. Error.nul_error (record { position = i; bytes = a })) (first_nul a)

abbrev pub strings_error : List (List ℕ) → Option Error
strings_error [] = none
strings_error (a ∷ rest) = elim (string_error a) [ none ↦ strings_error rest | some e ↦ some e ]

abbrev pub optional_error : Option (List ℕ) → Option Error
optional_error none = none
optional_error (some a) = string_error a

-- What is wrong with the settings: too many arguments, or the first string with a NUL, the
-- arguments before the exit function.
abbrev pub build_error : OptionsBuilder → Option Error
build_error b =
    if ltb u32_max (length b.args)
    then some (Error.args_too_large (length b.args))
    else (elim (strings_error b.args) [
      | none ↦ optional_error b.default_exit_function
      | some e ↦ some e
    ])

-- The memory holds each of the strings at the address of its `CString`.
abbrev pub HoldsStrings : Memory → List CString → List (List ℕ) → Type 0
HoldsStrings m [] [] = Unit
HoldsStrings m (s ∷ ss) (a ∷ rest) = HoldsString m s.address a × HoldsStrings m ss rest
HoldsStrings m _ _ = ⊥

pub HoldsStrings-Extends :
    {m n : Memory} (ss : List CString) (strings : List (List ℕ))
    → Extends m n
    → HoldsStrings m ss strings
    → HoldsStrings n ss strings
HoldsStrings-Extends [] [] later h = tt
HoldsStrings-Extends [] (a ∷ rest) later h = h
HoldsStrings-Extends (s ∷ ss) [] later h = h
HoldsStrings-Extends (s ∷ ss) (a ∷ rest) later h =
    (HoldsString-Extends later h.0, HoldsStrings-Extends ss rest later h.1)

cstring-Ends :
    (a : List ℕ) (m : Memory)
    → 0 < m.limit
    → Ends
        (λ s n. HoldsString n s.address a × Extends m n × (string_error a ≡ none))
        (λ e n. (string_error a ≡ some e) × Extends m n)
        (cstring a m)
unfolding cstring
cstring-Ends a m room = elim (Option-cases (first_nul a)) [
  | inl clean ↦
      rw (clean, cstring_new-clean a m clean)
        (returns (alloc_bytes-HoldsString a m clean room, alloc_bytes-Extends _ m, refl))
  | inr (i, found) ↦ rw (cstring_new-nul a m i found) (raises (rw found, Extends-refl m))
]

cstrings-Ends :
    (strings : List (List ℕ)) (m : Memory)
    → 0 < m.limit
    → Ends
        (λ ss n. HoldsStrings n ss strings × Extends m n × (strings_error strings ≡ none))
        (λ e n. (strings_error strings ≡ some e) × Extends m n)
        (cstrings strings m)
unfolding cstrings
cstrings-Ends [] m room = returns (tt, Extends-refl m, refl)
cstrings-Ends (a ∷ rest) m room =
    Ends.bind (cstring-Ends a m room)
      (λ s n (held, grown, clean).
        Ends.bind (cstrings-Ends rest n (omega arith))
          (λ ss n' (others, grown', clean'). returns (
            (HoldsString-Extends grown' held, others),
            Extends-trans grown grown',
            rw (clean, strings_error) clean',
          ))
          (λ e n' (found, grown'). (rw (clean, strings_error) found, Extends-trans grown grown')))
      (λ e n (found, grown). (rw (found, strings_error), grown))

-- What the exit function's pointer is for.
abbrev pub HoldsOptional : Memory → Option CString → Option (List ℕ) → Type 0
HoldsOptional m none none = Unit
HoldsOptional m (some s) (some a) = HoldsString m s.address a
HoldsOptional m _ _ = ⊥

optional_cstring-Ends :
    (o : Option (List ℕ)) (m : Memory)
    → 0 < m.limit
    → Ends
        (λ s n. HoldsOptional n s o × Extends m n × (optional_error o ≡ none))
        (λ e n. (optional_error o ≡ some e) × Extends m n)
        (optional_cstring o m)
unfolding optional_cstring
optional_cstring-Ends none m room = returns (tt, Extends-refl m, refl)
optional_cstring-Ends (some a) m room =
    Ends.bind (cstring-Ends a m room) (λ s n done. returns done) (λ e n failed. failed)

-- The memory holds the vector's pointers.
pub record HoldsPointers (m : Memory) (v : PointerVec) : Type 0 where
  pub content : Holds 8 m.word v.address v.items
  pub inside : (q : ℕ) → v.address ≤ q → q < v.address + 8 * length v.items → q < m.limit

pub HoldsPointers-Extends :
    {m n : Memory} {v : PointerVec} → Extends m n → HoldsPointers m v → HoldsPointers n v
HoldsPointers-Extends {m} {n} {v} later h = record {
  content =
      Holds-congr 8 m.word n.word v.address v.items
        (λ q lo hi. later.same_word q (h.inside q lo hi)) (omega arith) h.content;
  inside = λ q lo hi. omega (arith, h.inside q lo hi);
}

abbrev pub addresses : List CString → List ℕ
addresses = map (λ s. s.address)

pointers-Holds :
    (ss : List CString) (m : Memory)
    → let (v, n) = pointers ss m in (v.items ≡ addresses ss) × HoldsPointers n v × Extends m n
unfolding pointers alloc_words
pointers-Holds [] m =
    (refl, record { content = tt; inside = λ q lo hi. absurd (omega arith) }, Extends-refl m)
pointers-Holds (s ∷ rest) m = (
  refl,
  record {
    content = write_cells-Holds 8 m.word m.limit (addresses (s ∷ rest)) (omega arith);
    inside = λ q lo hi. hi;
  },
  alloc_words-Extends (addresses (s ∷ rest)) m,
)

-- What `build` leaves behind: the options that it returns, in a memory that holds their strings.
pub record IsBuilt (b : OptionsBuilder) (n : Memory) (o : Options) : Type 0 where
  pub strings : HoldsStrings n o.keepalive.args b.args
  pub items : o.keepalive.argv_ptrs.items ≡ addresses o.keepalive.args
  pub pointers : HoldsPointers n o.keepalive.argv_ptrs
  pub exit : HoldsOptional n o.keepalive.default_exit_function b.default_exit_function
  pub raw : o ≡ finish b.raw o.keepalive
  pub counted : length b.args ≤ u32_max

-- On every input: the settings have no error and the result is built, or it is their first error.
pub build-Ends :
    (b : OptionsBuilder) (m : Memory)
    → 0 < m.limit
    → Ends
        (λ o n. IsBuilt b n o × Extends m n × (build_error b ≡ none))
        (λ e n. (build_error b ≡ some e) × Extends m n)
        (build b m)
unfolding build
build-Ends b m room = elim (Bool-cases (ltb u32_max (length b.args))) [
  | inl long ↦ rw (long, build_error) (raises (refl, Extends-refl m))
  | inr short ↦
      rw (short, build_error)
        (Ends.bind (cstrings-Ends b.args m room)
          (λ ss n (held, grown, clean).
            let (items, words, grown') = pointers-Holds ss n in
            let (v, n') = pointers ss n in
            Ends.bind (optional_cstring-Ends b.default_exit_function n' (omega arith))
              (λ exit l (held', grown'', clean'). returns (
                record {
                  strings = HoldsStrings-Extends ss b.args (Extends-trans grown' grown'') held;
                  items = items;
                  pointers = HoldsPointers-Extends grown'' words;
                  exit = held';
                  raw = refl;
                  counted = ground arith;
                },
                Extends-trans grown (Extends-trans grown' grown''),
                rw clean clean',
              ))
              (λ e l (found, grown'').
                (rw clean found, Extends-trans grown (Extends-trans grown' grown''))))
          (λ e n (found, grown). (rw found, grown)))
]
