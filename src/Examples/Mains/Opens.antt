-- ===== src/Examples/Mains/Opens.antt =====
-- examples/*.rs: the steps up to the creation of the machine, which the `main` functions share.
use libriscv_rust_binding.Common.{
  ℕ, ◌%◌, ◌^◌, ◌≤◌, ◌<◌, ◌≡◌, refl, ◌∙◌, false, arith, none, some, List, Result, ok, err, length,
  ltb, u32_max, ◌==◌, if◌then◌else◌, Bool-cases, inl, inr,
}
use libriscv_rust_binding.Memory.{
  Memory, Extends, Extends-refl, alloc_bytes, alloc_bytes-Extends, read_bytes, Holds-congr,
  write_cells-Holds, read_cells-Holds,
}
use libriscv_rust_binding.Slice.{Slice, contents}
use libriscv_rust_binding.Sys.{Host, Sys}
use libriscv_rust_binding.Error.{Error, Fallible}
use libriscv_rust_binding.Error.Ends.{Ends, returns, raises}
use libriscv_rust_binding.Raw.{RiscvOptions}
use libriscv_rust_binding.Options.{
  Options, OptionsBuilder, zeroed, default_raw_options, builder, build,
}
use libriscv_rust_binding.Options.Build.{IsBuilt, build-Ends, build_error}
use libriscv_rust_binding.Syscall.{SyscallRegistry}
use libriscv_rust_binding.Machine.{Machine, new, to_owned}
use libriscv_rust_binding.Machine.Create.{contents-to_owned}
use libriscv_rust_binding.Examples.Handlers.{App}
use libriscv_rust_binding.Examples.Call.{literal}
use libriscv_rust_binding.Examples.Mains.{Failure, Main, lib, and_then}

-- The bytes of a literal stay where they are.
literal-kept :
    (bs : List ℕ) (m later : Memory)
    → Extends (literal bs m).1 later
    → contents later (literal bs m).0 ≡ bs
unfolding literal alloc_bytes
literal-kept bs m later grown = read_cells-Holds 1 later.byte m.limit bs (
    Holds-congr 1 _ later.byte m.limit bs (λ q lo hi. grown.same_byte q (omega arith)) (omega arith)
      (write_cells-Holds 1 m.byte m.limit bs (omega arith)))

-- The machine's copy of a literal has its bytes, and nothing else is changed.
pub copied :
    (bs : List ℕ) (m n : Memory)
    → Extends (literal bs m).1 n
    → let (copy, later) = to_owned (literal bs m).0 n in
      Extends n later × (read_bytes later copy.address (length bs) ≡ bs)
unfolding literal alloc_bytes to_owned
copied bs m n grown =
    let (elf, _) = literal bs m in
    let (_, later) = to_owned elf n in
    (
      alloc_bytes-Extends (contents n elf) n,
      (contents-to_owned elf n later (Extends-refl later)).1 ∙ literal-kept bs m n grown,
    )

-- What the wrapper relies on: the C library leaves the memory of the process as it is, and may add to
-- it, when it fills a struct with its defaults.
pub record DefaultsExtend {F : Type 0} (sys : Sys F) : Type 0 where
  pub defaults_extend :
      (o : RiscvOptions) (h : Host F) → Extends h.memory (sys.libriscv_set_defaults o h).1.memory

-- The host after `Options::builder`.
abbrev pub defaults_taken : {F : Type 0} → Sys F → Host F → Host F
defaults_taken sys h = (sys.libriscv_set_defaults zeroed h).1

pub builder-host :
    {F : Type 0} (sys : Sys F) (h : Host F) → (builder sys h).1 ≡ defaults_taken sys h
unfolding builder default_raw_options
builder-host sys h = refl

-- Settings without an error are built.
pub record Built (b : OptionsBuilder) (m : Memory) (r : Fallible Options × Memory) : Type 0 where
  pub options : Options
  pub memory : Memory
  pub result : r ≡ (ok options, memory)
  pub built : IsBuilt b memory options
  pub grown : Extends m memory

pub build-Built :
    (b : OptionsBuilder) (m : Memory) → 0 < m.limit → build_error b ≡ none → Built b m (build b m)
build-Built b m room clean = from_ends (build-Ends b m room)
  where
    from_ends :
        {r : Fallible Options × Memory}
        → Ends
            (λ o n. IsBuilt b n o × Extends m n × (build_error b ≡ none))
            (λ e n. (build_error b ≡ some e) × Extends m n)
            r
        → Built b m r
    from_ends (returns {a} {s} (built, grown, _)) = record {
      options = a;
      memory = s;
      result = refl;
      built = built;
      grown = grown;
    }
    from_ends (raises (found, _)) = absurd (cc (found, clean))

module _ {F : Type 0} (s : App F) where
  -- What follows the answer of `libriscv_new`: the error for a null pointer, or the rest of `main` with
  -- the machine.
  abbrev pub opened :
      Slice
      → Options
      → (Machine → Main F (Unit {0}))
      → ℕ × Host F
      → Result Failure (Unit {0}) × App F
  opened elf options rest (p, h) =
      if p == 0
      then (err (Failure.library (Error.null_pointer "libriscv_new")), record s { host = h })
      else rest (record { ptr = p; elf = elf; options = options }) (record s { host = h })

  module _ (sys : Sys F) where
    pub new-opened :
        (elf : Slice) (options : Options) (registry : SyscallRegistry) (m : Memory)
        (rest : Machine → Main F (Unit {0}))
        → elf.len ≤ u32_max
        → let (copy, later) = to_owned elf m in
          and_then
            (lib (new sys elf options registry) (record s { host = record s.host { memory = m } }))
            rest
          ≡ opened copy options rest
              (sys.libriscv_new copy.address elf.len options.raw (record s.host { memory = later }))
    unfolding new
    new-opened elf options registry m rest small =
        let (copy, later) = to_owned elf m in
        let (p, h) =
          sys.libriscv_new copy.address elf.len options.raw (record s.host { memory = later }) in
        let le : ltb u32_max elf.len ≡ false = ground (arith, small) in
        let fits : elf.len % 2 ^ 32 ≡ elf.len = omega (arith, small) in
        rw (le, fits)
          (elim (Bool-cases (p == 0)) [
            | inl absent ↦ rw absent refl
            | inr present ↦ rw present refl
          ])
