-- ===== src/Options/Owned.antt =====
-- src/lib.rs: the blocks that `OptionsKeepAlive` owns, into which the raw options point.
pub mod Reads
use libriscv_rust_binding.Common.{
  ℕ, ◌+◌, ◌*◌, ◌≤◌, ◌<◌, ◌≡◌, refl, sym, ap, ap₂, ◌∙◌, subst, inl, inr, Option, none, some, List,
  [], ◌∷◌, ◌++◌, map, arith, ltb, length, length-append, u32_max, Option-cases, Bool-cases,
}
use libriscv_rust_binding.Memory.{Memory, alloc_bytes, alloc_words}
use libriscv_rust_binding.Memory.Strings.{CString, first_nul, cstring_new-clean, cstring_new-nul}
use libriscv_rust_binding.Slice.{Slice}
use libriscv_rust_binding.Error.Ends
use libriscv_rust_binding.Error.Ends.{Ends, returns, raises}
use libriscv_rust_binding.Options.{
  Options, OptionsBuilder, OptionsKeepAlive, PointerVec, cstring, cstrings, optional_cstring,
  pointers, finish, build,
}

-- A string's bytes and the NUL behind them.
abbrev pub string_block : CString → Slice
string_block s = record { address = s.address; len = length s.bytes + 1 }

-- A vector of no pointers has no block.
abbrev pub vec_block : (items : List ℕ) → (address : ℕ) → List Slice
vec_block [] address = []
vec_block (p ∷ ps) address = record { address = address; len = 8 * length (p ∷ ps) } ∷ []

abbrev pub optional_block : Option CString → List Slice
optional_block none = []
optional_block (some s) = string_block s ∷ []

abbrev pub blocks : OptionsKeepAlive → List Slice
blocks k =
    map string_block k.args
    ++ (vec_block k.argv_ptrs.items k.argv_ptrs.address ++ optional_block k.default_exit_function)

-- The blocks lie one behind the other from `first` on, and end at `last`.
abbrev pub Tile : ℕ → List Slice → ℕ → Type 0
Tile first [] last = first ≡ last
Tile first (s ∷ ss) last = (s.address ≡ first) × Tile (first + s.len) ss last

Tile-append :
    (first middle last : ℕ) (xs ys : List Slice)
    → Tile first xs middle
    → Tile middle ys last
    → Tile first (xs ++ ys) last
Tile-append first middle last [] ys e t = subst (λ (p : ℕ). Tile p ys last) (sym e) t
Tile-append first middle last (x ∷ xs) ys t t' =
    (t.0, Tile-append (first + x.len) middle last xs ys t.1 t')

abbrev pub bytes_of : List CString → List (List ℕ)
bytes_of = map (λ s. s.bytes)

abbrev pub optional_bytes : Option CString → Option (List ℕ)
optional_bytes none = none
optional_bytes (some s) = some s.bytes

cstring-Tile :
    (a : List ℕ) (m : Memory)
    → Ends
        (λ s n. (s.bytes ≡ a) × Tile m.limit (string_block s ∷ []) n.limit)
        (λ e n. Unit {0})
        (cstring a m)
unfolding cstring alloc_bytes
cstring-Tile a m = elim (Option-cases (first_nul a)) [
  | inl clean ↦
      rw (cstring_new-clean a m clean)
        (returns (refl, (refl, omega (arith, length-append a (0 ∷ [])))))
  | inr (i, found) ↦ rw (cstring_new-nul a m i found) (raises tt)
]

cstrings-Tile :
    (strings : List (List ℕ)) (m : Memory)
    → Ends
        (λ ss n. (bytes_of ss ≡ strings) × Tile m.limit (map string_block ss) n.limit)
        (λ e n. Unit {0})
        (cstrings strings m)
unfolding cstrings
cstrings-Tile [] m = returns (refl, refl)
cstrings-Tile (a ∷ rest) m =
    Ends.bind (cstring-Tile a m)
      (λ s n (same, tile).
        Ends.bind (cstrings-Tile rest n)
          (λ ss l (others, tiles). returns (
            ap₂ (λ (x : List ℕ) (xs : List (List ℕ)). x ∷ xs) same others,
            Tile-append m.limit n.limit l.limit (string_block s ∷ []) (map string_block ss) tile
                tiles,
          ))
          (λ e l failed. failed))
      (λ e n failed. failed)

optional_cstring-Tile :
    (o : Option (List ℕ)) (m : Memory)
    → Ends
        (λ s n. (optional_bytes s ≡ o) × Tile m.limit (optional_block s) n.limit)
        (λ e n. Unit {0})
        (optional_cstring o m)
unfolding optional_cstring
optional_cstring-Tile none m = returns (refl, refl)
optional_cstring-Tile (some a) m =
    Ends.bind (cstring-Tile a m) (λ s n (same, tile). returns (ap some same, tile))
      (λ e n failed. failed)

pointers-Tile :
    (ss : List CString) (m : Memory)
    → let (v, n) = pointers ss m in Tile m.limit (vec_block v.items v.address) n.limit
unfolding pointers alloc_words
pointers-Tile [] m = refl
pointers-Tile (s ∷ rest) m = (refl, refl)

-- The options that `build` returns own, block by block, all that `build` has allocated; their strings
-- are the builder's.
pub build-Tile :
    (b : OptionsBuilder) (m : Memory)
    → Ends
        (λ o n.
          (bytes_of o.keepalive.args ≡ b.args)
          × (optional_bytes o.keepalive.default_exit_function ≡ b.default_exit_function)
          × Tile m.limit (blocks o.keepalive) n.limit)
        (λ e n. Unit {0})
        (build b m)
unfolding build finish
build-Tile b m = elim (Bool-cases (ltb u32_max (length b.args))) [
  | inl long ↦ rw long (raises tt)
  | inr short ↦ rw short (
      Ends.bind (cstrings-Tile b.args m)
        (λ ss n (same, tiles).
          let (v, l) = pointers ss n in
          Ends.bind (optional_cstring-Tile b.default_exit_function l)
            (λ exit k (same', tile'). returns (
              same,
              same',
              Tile-append m.limit n.limit k.limit (map string_block ss) _ tiles (
                  Tile-append n.limit l.limit k.limit (vec_block v.items v.address)
                    (optional_block exit) (pointers-Tile ss n) tile'),
            ))
            (λ e k failed. failed))
        (λ e n failed. failed))
]
