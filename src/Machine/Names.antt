-- ===== src/Machine/Names.antt =====
-- src/lib.rs: the strings that `Machine::address_of` and `Machine::allow_file` pass to the C library.
use libriscv_rust_binding.Common.{
  ℕ, ◌<◌, ◌≡◌, ◌⊎◌, refl, ap, true, false, none, some, List, ok, err, inl, inr, ◌++◌, [], ◌∷◌,
  Option-cases, Bool-cases,
}
use libriscv_rust_binding.Common.Utf8.{is_utf8}
use libriscv_rust_binding.Memory.{Memory, Extends, alloc_bytes, alloc_bytes-Extends}
use libriscv_rust_binding.Memory.Strings.{
  first_nul, c_str, c_str-HoldsString, cstring_new-clean, cstring_new-nul, alloc_bytes-HoldsString,
}
use libriscv_rust_binding.Slice.{nonzero}
use libriscv_rust_binding.Sys.{Host, Sys}
use libriscv_rust_binding.Error.{Error, Fallible}
use libriscv_rust_binding.Error.Action.{Action, and_then, on_memory}
use libriscv_rust_binding.Options.{cstring}
use libriscv_rust_binding.Machine.{Machine, address_of, allow_file}

-- `p` points to the C string `bs` in a memory that adds it to `m`.
pub record Passed (m : Memory) (bs : List ℕ) : Type 0 where
  pub p : ℕ
  pub memory : Memory
  pub reads : c_str memory p ≡ some bs
  pub grown : Extends m memory

pass : (m : Memory) (bs : List ℕ) → 0 < m.limit → first_nul bs ≡ none → Passed m bs
pass m bs room clean = record {
  p = m.limit;
  memory = (alloc_bytes (bs ++ 0 ∷ []) m).1;
  reads = c_str-HoldsString (alloc_bytes-HoldsString bs m clean room);
  grown = alloc_bytes-Extends (bs ++ 0 ∷ []) m;
}

cstring-clean :
    (bs : List ℕ) (m : Memory)
    → first_nul bs ≡ none
    → cstring bs m
      ≡ (ok (record { bytes = bs; address = m.limit }), (alloc_bytes (bs ++ 0 ∷ []) m).1)
unfolding cstring
cstring-clean bs m clean = rw (cstring_new-clean bs m clean) refl

cstring-nul :
    (bs : List ℕ) (m : Memory) (i : ℕ)
    → first_nul bs ≡ some i
    → cstring bs m ≡ (err (Error.nul_error (record { position = i; bytes = bs })), m)
unfolding cstring
cstring-nul bs m i found = rw (cstring_new-nul bs m i found) refl

-- The rest of a run, after work on the memory whose result is known.
and_then-on_memory :
    {F A B : Type 0} (f : Action Memory A) (h : Host F) {r : Fallible A × Memory}
    (k : A → Action (Host F) B)
    → f h.memory ≡ r
    → and_then (on_memory f h) k ≡ and_then (r.0, record h { memory = r.1 }) k
and_then-on_memory f h k e =
    ap (λ (r : Fallible _ × Memory). and_then (r.0, record h { memory = r.1 }) k) e

module _ {F : Type 0} (sys : Sys F) (self : Machine) where
  -- In a memory whose first free address is not null: a name without a NUL byte reaches the C library
  -- as exactly that C string, and an answer of 0 is none, any other the address; a name with one is an
  -- error that says where the first one stands, and the C library is not called.
  pub address_of-outcome :
      (name : List ℕ) (h : Host F)
      → 0 < h.memory.limit
      → ((c : Passed h.memory name) × (let (a, h') =
              sys.libriscv_address_of self.ptr c.p (record h { memory = c.memory }) in
            address_of sys self name h ≡ (ok (nonzero a), h')))
        ⊎ ((i : ℕ) × (first_nul name ≡ some i)
            × (address_of sys self name h
                ≡ (err (Error.nul_error (record { position = i; bytes = name })), h)))
  unfolding address_of pass
  address_of-outcome name h room = elim (Option-cases (first_nul name)) [
    | inl clean ↦ inl (
      pass h.memory name room clean,
      and_then-on_memory (cstring name) h _ (cstring-clean name h.memory clean),
    )
    | inr (i, found) ↦
        inr (i, found, and_then-on_memory (cstring name) h _ (cstring-nul name h.memory i found))
  ]

  -- In a memory whose first free address is not null: a path that is UTF-8 and has no NUL byte reaches
  -- the C library as exactly that C string, and `allow_file` succeeds; a path that is not UTF-8, or
  -- has a NUL byte, is the error that says so, and the C library is not called.
  pub allow_file-outcome :
      (path : List ℕ) (h : Host F)
      → 0 < h.memory.limit
      → ((is_utf8 path ≡ false) × (allow_file sys self path h ≡ (err Error.non_utf8_path, h)))
        ⊎ ((is_utf8 path ≡ true)
            × (((c : Passed h.memory path) × (let (_, h') =
                      sys.libriscv_allow_file self.ptr c.p (record h { memory = c.memory }) in
                    allow_file sys self path h ≡ (ok tt, h')))
                ⊎ ((i : ℕ) × (first_nul path ≡ some i)
                    × (allow_file sys self path h
                        ≡ (err (Error.nul_error (record { position = i; bytes = path })), h)))))
  unfolding allow_file pass
  allow_file-outcome path h room = elim (Bool-cases (is_utf8 path)) [
    | inr bad ↦ inl (bad, rw bad refl)
    | inl good ↦ inr (
      good,
      elim (Option-cases (first_nul path)) [
        | inl clean ↦ inl (
          pass h.memory path room clean,
          rw good (and_then-on_memory (cstring path) h _ (cstring-clean path h.memory clean)),
        )
        | inr (i, found) ↦ inr (
          i,
          found,
          rw good (and_then-on_memory (cstring path) h _ (cstring-nul path h.memory i found)),
        )
      ],
    )
  ]
