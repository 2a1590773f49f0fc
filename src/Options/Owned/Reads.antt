-- ===== src/Options/Owned/Reads.antt =====
-- src/lib.rs: what the C library reads through built options while their own blocks are left alone.
use libriscv_rust_binding.Common.{
  ℕ, ◌+◌, ◌≤◌, ◌<◌, ◌≡◌, ap, Option, none, some, List, [], ◌∷◌, ◌++◌, map, arith, length,
  length-append, ok,
}
use libriscv_rust_binding.Memory.{Memory, Extends-refl, Holds-congr}
use libriscv_rust_binding.Memory.Strings.{CString, HoldsString}
use libriscv_rust_binding.Slice.{Slice}
use libriscv_rust_binding.Error.Ends
use libriscv_rust_binding.Options.{Options, OptionsBuilder, PointerVec, build}
use libriscv_rust_binding.Options.Build.{
  HoldsStrings, HoldsOptional, HoldsPointers, IsBuilt, build-Ends,
}
use libriscv_rust_binding.Options.Argv.{argv_view, symbol_view, argv-IsBuilt, exit-IsBuilt}
use libriscv_rust_binding.Options.Owned.{
  string_block, vec_block, optional_block, blocks, Tile, bytes_of, optional_bytes, build-Tile,
}

-- A later memory in which the blocks are still allocated, with the same contents. What it is elsewhere,
-- is not said: other blocks may have been freed and used again.
abbrev pub Intact : Memory → List Slice → Memory → Type 0
Intact m [] later = Unit
Intact m (s ∷ ss) later =
    (s.address + s.len ≤ later.limit)
    × ((q : ℕ)
        → s.address ≤ q
        → q < s.address + s.len
        → (later.byte q ≡ m.byte q) × (later.word q ≡ m.word q))
    × Intact m ss later

Intact-append :
    (m later : Memory) (xs ys : List Slice)
    → Intact m (xs ++ ys) later
    → Intact m xs later × Intact m ys later
Intact-append m later [] ys h = (tt, h)
Intact-append m later (x ∷ xs) ys h =
    let (front, back) = Intact-append m later xs ys h.2 in ((h.0, h.1, front), back)

HoldsString-Intact :
    (m later : Memory) (s : CString) (a : List ℕ)
    → s.bytes ≡ a
    → Intact m (string_block s ∷ []) later
    → HoldsString m s.address a
    → HoldsString later s.address a
HoldsString-Intact m later s a same (room, kept, _) h =
    let n : length s.bytes ≡ length a = ap (λ (l : List ℕ). length l) same in
    record {
      no_nul = h.no_nul;
      nonnull = h.nonnull;
      inside = omega arith;
      content =
          Holds-congr 1 m.byte later.byte s.address (a ++ 0 ∷ [])
            (λ q lo hi. (kept q lo (omega (arith, length-append a (0 ∷ [])))).0) (omega arith)
            h.content;
    }

HoldsStrings-Intact :
    (m later : Memory) (ss : List CString) (strings : List (List ℕ))
    → bytes_of ss ≡ strings
    → Intact m (map string_block ss) later
    → HoldsStrings m ss strings
    → HoldsStrings later ss strings
HoldsStrings-Intact m later [] [] same kept h = tt
HoldsStrings-Intact m later [] (a ∷ rest) same kept h = h
HoldsStrings-Intact m later (s ∷ ss) [] same kept h = h
HoldsStrings-Intact m later (s ∷ ss) (a ∷ rest) same (room, kept, others) h = (
  HoldsString-Intact m later s a (cc) (room, kept, tt) h.0,
  HoldsStrings-Intact m later ss rest (cc) others h.1,
)

HoldsOptional-Intact :
    (m later : Memory) (s : Option CString) (symbol : Option (List ℕ))
    → optional_bytes s ≡ symbol
    → Intact m (optional_block s) later
    → HoldsOptional m s symbol
    → HoldsOptional later s symbol
HoldsOptional-Intact m later none none same kept h = tt
HoldsOptional-Intact m later none (some a) same kept h = h
HoldsOptional-Intact m later (some s) none same kept h = h
HoldsOptional-Intact m later (some s) (some a) same kept h =
    HoldsString-Intact m later s a (cc) kept h

HoldsPointers-Intact :
    (m later : Memory) (items : List ℕ) (address : ℕ)
    → Intact m (vec_block items address) later
    → HoldsPointers m (record { items = items; address = address })
    → HoldsPointers later (record { items = items; address = address })
HoldsPointers-Intact m later [] address kept h = record {
  content = tt;
  inside = λ q lo hi. absurd (omega arith);
}
HoldsPointers-Intact m later (p ∷ ps) address (room, kept, _) h = record {
  content =
      Holds-congr 8 m.word later.word address (p ∷ ps) (λ q lo hi. (kept q lo hi).1) (omega arith)
        h.content;
  inside = λ q lo hi. omega arith;
}

IsBuilt-Intact :
    (b : OptionsBuilder) (m later : Memory) (o : Options)
    → bytes_of o.keepalive.args ≡ b.args
    → optional_bytes o.keepalive.default_exit_function ≡ b.default_exit_function
    → Intact m (blocks o.keepalive) later
    → IsBuilt b m o
    → IsBuilt b later o
IsBuilt-Intact b m later o same same' kept built =
    let k = o.keepalive in
    let v : PointerVec = k.argv_ptrs in
    let (strings, others) = Intact-append m later (map string_block k.args) _ kept in
    let (vec, exit) = Intact-append m later (vec_block v.items v.address) _ others in
    record {
      strings = HoldsStrings-Intact m later k.args b.args same strings built.strings;
      items = built.items;
      pointers = HoldsPointers-Intact m later v.items v.address vec built.pointers;
      exit =
          HoldsOptional-Intact m later k.default_exit_function b.default_exit_function same' exit
            built.exit;
      raw = built.raw;
      counted = built.counted;
    }

module _ (b : OptionsBuilder) (m : Memory) {n : Memory} {o : Options} where
  -- Once `build` has returned, in a memory whose first free address is not null: the blocks of the
  -- kept strings and of the vector of their pointers are all that `build` has allocated; they
  -- follow one another from that address on, so that none overlaps another, and none is left over.
  -- As long as these blocks alone are left as they are, whatever becomes of the rest of the
  -- memory, the C library reads through `argc` and `argv` exactly the arguments that were set, and
  -- finds the exit function's symbol, or null where none was set.
  pub build-owns :
      0 < m.limit
      → build b m ≡ (ok o, n)
      → Tile m.limit (blocks o.keepalive) n.limit
        × ((later : Memory)
            → Intact n (blocks o.keepalive) later
            → (argv_view later o.raw.argc o.raw.argv ≡ some b.args)
              × (symbol_view later o.raw.default_exit_function ≡ b.default_exit_function))
  build-owns room e =
      let (built, _, _) = Ends.returned (build-Ends b m room) e in
      let (same, same', tiles) = Ends.returned (build-Tile b m) e in
      (
        tiles,
        λ later kept.
            let intact = IsBuilt-Intact b n later o same same' kept built in
            (
              argv-IsBuilt intact later (Extends-refl later),
              exit-IsBuilt intact later (Extends-refl later),
            ),
      )
