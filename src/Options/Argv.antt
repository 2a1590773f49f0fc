-- ===== src/Options/Argv.antt =====
-- What the C library reads through the pointers of built options, at any later time.
use libriscv_rust_binding.Common.{
  ℕ, suc, ◌<◌, ◌≡◌, refl, sym, ap, ap₂, ◌∙◌, Option, none, some, List, [], ◌∷◌, arith, ◌==◌, false,
  if◌then◌else◌, length, ok, err,
}
use libriscv_rust_binding.Raw.{null}
use libriscv_rust_binding.Memory.{Memory, Extends, read_cells, read_cells-Holds}
use libriscv_rust_binding.Memory.Strings.{CString, c_str, c_str-HoldsString, HoldsString-Extends}
use libriscv_rust_binding.Sys.{Host, Sys}
use libriscv_rust_binding.Error.{Error, Fallible}
use libriscv_rust_binding.Error.Ends
use libriscv_rust_binding.Error.Ends.{Ends, returns, raises}
use libriscv_rust_binding.Options.{
  Options, OptionsBuilder, PointerVec, new, builder, build, finish, cstrings, pointers,
  optional_cstring, argv_pointer, symbol_pointer,
}
use libriscv_rust_binding.Options.Build.{
  HoldsStrings, HoldsStrings-Extends, HoldsOptional, HoldsPointers-Extends, IsBuilt, addresses,
  build_error, build-Ends,
}

-- The C strings at the given pointers.
abbrev pub strings_view : Memory → List ℕ → Option (List (List ℕ))
strings_view m [] = some []
strings_view m (p ∷ ps) = elim (c_str m p) [
  | none ↦ none
  | some s ↦ elim (strings_view m ps) [ none ↦ none | some rest ↦ some (s ∷ rest) ]
]

-- `argv[0]` to `argv[argc - 1]`.
abbrev pub argv_view : Memory → (argc argv : ℕ) → Option (List (List ℕ))
argv_view m argc argv = strings_view m (read_cells 8 m.word argv argc)

-- An optional C string: null is none.
abbrev pub symbol_view : Memory → ℕ → Option (List ℕ)
symbol_view m p = if p == null then none else c_str m p

abbrev pub to_error : {A : Type 0} → Fallible A → Option Error
to_error (ok a) = none
to_error (err e) = some e

strings_view-HoldsStrings :
    (m : Memory) (ss : List CString) (strings : List (List ℕ))
    → HoldsStrings m ss strings
    → strings_view m (addresses ss) ≡ some strings
strings_view-HoldsStrings m [] [] h = refl
strings_view-HoldsStrings m [] (a ∷ rest) h = absurd h
strings_view-HoldsStrings m (s ∷ ss) [] h = absurd h
strings_view-HoldsStrings m (s ∷ ss) (a ∷ rest) h =
    rw (strings_view, c_str-HoldsString h.0, strings_view-HoldsStrings m ss rest h.1)

length-HoldsStrings :
    (m : Memory) (ss : List CString) (strings : List (List ℕ))
    → HoldsStrings m ss strings
    → length (addresses ss) ≡ length strings
length-HoldsStrings m [] [] h = refl
length-HoldsStrings m [] (a ∷ rest) h = absurd h
length-HoldsStrings m (s ∷ ss) [] h = absurd h
length-HoldsStrings m (s ∷ ss) (a ∷ rest) h = ap suc (length-HoldsStrings m ss rest h.1)

-- `argv` is null only for a vector of no pointers, so it can be read as the vector's address.
read_cells-argv_pointer :
    (f : ℕ → ℕ) (items : List ℕ) (address : ℕ)
    → read_cells 8 f (argv_pointer items address) (length items)
      ≡ read_cells 8 f address (length items)
read_cells-argv_pointer f [] address = refl
read_cells-argv_pointer f (p ∷ ps) address = refl

symbol_view-HoldsOptional :
    (m : Memory) (s : Option CString) (symbol : Option (List ℕ))
    → HoldsOptional m s symbol
    → symbol_view m (symbol_pointer s) ≡ symbol
symbol_view-HoldsOptional m none none h = refl
symbol_view-HoldsOptional m none (some a) h = absurd h
symbol_view-HoldsOptional m (some s) none h = absurd h
symbol_view-HoldsOptional m (some s) (some a) h =
    let ne : (s.address == null) ≡ false = ground (arith, h.nonnull) in rw ne (c_str-HoldsString h)

HoldsOptional-Extends :
    {m n : Memory} (s : Option CString) (symbol : Option (List ℕ))
    → Extends m n
    → HoldsOptional m s symbol
    → HoldsOptional n s symbol
HoldsOptional-Extends none none later h = tt
HoldsOptional-Extends none (some a) later h = h
HoldsOptional-Extends (some s) none later h = h
HoldsOptional-Extends (some s) (some a) later h = HoldsString-Extends later h

module _ {b : OptionsBuilder} {n : Memory} {o : Options} (built : IsBuilt b n o) where
  open built use {strings, items, pointers as held, exit, raw, counted}

  length-IsBuilt : length o.keepalive.argv_ptrs.items ≡ length b.args
  length-IsBuilt = ap length items ∙ length-HoldsStrings n o.keepalive.args b.args strings

  argc-IsBuilt : o.raw.argc ≡ length b.args
  unfolding finish
  argc-IsBuilt = ap (λ (p : Options). p.raw.argc) raw ∙ omega (arith, length-IsBuilt)

  pub argv-IsBuilt :
      (later : Memory) → Extends n later → argv_view later o.raw.argc o.raw.argv ≡ some b.args
  unfolding finish
  argv-IsBuilt later grown =
      let v : PointerVec = o.keepalive.argv_ptrs in
      let cells : read_cells 8 later.word o.raw.argv o.raw.argc ≡ addresses o.keepalive.args =
        ap₂ (read_cells 8 later.word) (ap (λ (p : Options). p.raw.argv) raw)
          (argc-IsBuilt ∙ sym length-IsBuilt)
        ∙ read_cells-argv_pointer later.word v.items v.address
        ∙ read_cells-Holds 8 later.word v.address v.items (HoldsPointers-Extends grown held).content
        ∙ items in
      ap (strings_view later) cells
      ∙ strings_view-HoldsStrings later o.keepalive.args b.args
          (HoldsStrings-Extends o.keepalive.args b.args grown strings)

  pub exit-IsBuilt :
      (later : Memory)
      → Extends n later
      → symbol_view later o.raw.default_exit_function ≡ b.default_exit_function
  unfolding finish
  exit-IsBuilt later grown =
      ap (symbol_view later) (ap (λ (p : Options). p.raw.default_exit_function) raw)
      ∙ symbol_view-HoldsOptional later o.keepalive.default_exit_function b.default_exit_function (
          HoldsOptional-Extends o.keepalive.default_exit_function b.default_exit_function grown
            exit)

-- In a memory whose first free address is not null, the first error of the settings (too many
-- arguments, or the first string with a NUL, the arguments before the exit function), and no
-- other, stops `build`; without one it returns. Either way what was allocated before is left as it
-- was.
pub build-outcome :
    (b : OptionsBuilder) (m : Memory)
    → 0 < m.limit
    → (to_error (build b m).0 ≡ build_error b) × Extends m (build b m).1
build-outcome b m room = outcome (build-Ends b m room)
  where
    outcome :
        {r : Fallible Options × Memory}
        → Ends
            (λ o n. IsBuilt b n o × Extends m n × (build_error b ≡ none))
            (λ e n. (build_error b ≡ some e) × Extends m n)
            r
        → (to_error r.0 ≡ build_error b) × Extends m r.1
    outcome (returns (built, grown, clean)) = (sym clean, grown)
    outcome (raises (found, grown)) = (sym found, grown)

module _ (b : OptionsBuilder) (m later : Memory) {n : Memory} {o : Options} where
  -- Once `build` has returned, in a memory whose first free address is not null and as long as the
  -- memory is only added to, the C library reads
  -- through `argc` and `argv` exactly the arguments that were set, and finds the exit function's
  -- symbol, or null where none was set.
  pub build-argv :
      0 < m.limit
      → build b m ≡ (ok o, n)
      → Extends n later
      → (argv_view later o.raw.argc o.raw.argv ≡ some b.args)
        × (symbol_view later o.raw.default_exit_function ≡ b.default_exit_function)
  build-argv room e grown =
      let (built, _, _) = Ends.returned (build-Ends b m room) e in
      (argv-IsBuilt built later grown, exit-IsBuilt built later grown)

-- A builder to which nothing was set builds the options of `Options::new`, but for the exit
-- function: `new` keeps the C library's default, and `build` clears it. Nothing is allocated.
pub builder-build :
    {F : Type 0} (sys : Sys F) (h : Host F) (m : Memory)
    → let (start, after) = builder sys h in
      let (o, after') = new sys h in
      (build start m ≡ (
        ok (record {
          raw = record o.raw { default_exit_function = null };
          keepalive = o.keepalive;
        }),
        m,
      ))
      × (after ≡ after')
unfolding new builder build cstrings pointers optional_cstring finish
builder-build sys h m = (refl, refl)
