-- ===== src/Machine/Create.antt =====
-- src/lib.rs: what `Machine::new` gives the C library, and how it ends.
use libriscv_rust_binding.Common.{
  ℕ, ◌+◌, ◌%◌, ◌^◌, ◌≤◌, ◌<◌, ◌≡◌, refl, sym, ap, ◌∙◌, List, ok, arith, ltb, u32_max, length, ◌⊎◌,
  inl, inr, Bool-cases, subst,
}
use libriscv_rust_binding.Memory.{
  Memory, Extends, alloc_bytes, read_bytes, Holds, Holds-congr, write_cells-Holds, read_cells-Holds,
  length-read_cells,
}
use libriscv_rust_binding.Slice.{Slice, contents, nonnull-cases}
use libriscv_rust_binding.Sys.{Host, Sys}
use libriscv_rust_binding.Error.{Error}
use libriscv_rust_binding.Error.Ends
use libriscv_rust_binding.Error.Ends.{Ends, returns, raises}
use libriscv_rust_binding.Options.{Options}
use libriscv_rust_binding.Machine.{Machine, to_owned, new}
use libriscv_rust_binding.Syscall.{SyscallRegistry}

-- From `m` to `later`, the block of the slice is left as it is.
abbrev pub Untouched : Slice → Memory → Memory → Type 0
Untouched s m later = (q : ℕ) → s.address ≤ q → q < s.address + s.len → later.byte q ≡ m.byte q

-- The copy has the length and the bytes of the original, as long as its own block is left as it is.
to_owned-Untouched :
    (s : Slice) (m later : Memory)
    → let (copy, n) = to_owned s m in
      Untouched copy n later
      → (m.limit ≤ copy.address)
        × (copy.address + copy.len ≤ n.limit)
        × (copy.len ≡ s.len)
        × (contents later copy ≡ contents m s)
unfolding to_owned alloc_bytes
to_owned-Untouched s m later kept =
    let bs : List ℕ = contents m s in
    let n : length bs ≡ s.len = length-read_cells 1 m.byte s.address s.len in
    let held : Holds 1 later.byte m.limit bs =
      Holds-congr 1 _ later.byte m.limit bs (λ q lo hi. kept q lo (omega (arith, hi, n)))
        (omega arith) (write_cells-Holds 1 m.byte m.limit bs (omega arith)) in
    (
      omega arith,
      omega (arith, n),
      refl,
      ap (read_bytes later m.limit) (sym n) ∙ read_cells-Holds 1 later.byte m.limit bs held,
    )

-- So it does while the memory grows.
pub contents-to_owned :
    (s : Slice) (m later : Memory)
    → let (copy, n) = to_owned s m in
      Extends n later → (copy.len ≡ s.len) × (contents later copy ≡ contents m s)
contents-to_owned s m later grown =
    let (_, inside, _, _) = to_owned-Untouched s m (to_owned s m).1 (λ q lo hi. refl) in
    let (_, _, len, same) =
      to_owned-Untouched s m later (λ q lo hi. grown.same_byte q (omega (arith, hi, inside))) in
    (len, same)

module _ {F : Type 0} (sys : Sys F) (elf : Slice) (options : Options) (registry : SyscallRegistry)
    (h : Host F) where
  -- The C library's answer to the one call that `new` makes: with the copy and its whole length.
  abbrev pub created : ℕ × Host F
  created =
      let (copy, m) = to_owned elf h.memory in
      sys.libriscv_new copy.address elf.len options.raw (record h { memory = m })

  -- `new` returns a machine exactly for a program of at most `u32::MAX` bytes for which the C library
  -- returns a pointer that is not null; the machine keeps that pointer, the copy and the options. A
  -- larger program is refused with its size, and nothing is allocated or called; a null pointer is
  -- an error that names the function.
  pub new-outcome :
      Ends
        (λ machine h'.
          (elf.len ≤ u32_max)
          × (0 < created.0)
          × (h' ≡ created.1)
          × (machine
              ≡ record { ptr = created.0; elf = (to_owned elf h.memory).0; options = options }))
        (λ e h'.
          ((u32_max < elf.len) × (e ≡ Error.elf_too_large elf.len) × (h' ≡ h))
          ⊎ ((elf.len ≤ u32_max)
              × (created.0 ≡ 0)
              × (e ≡ Error.null_pointer "libriscv_new")
              × (h' ≡ created.1)))
        (new sys elf options registry h)
  unfolding new to_owned alloc_bytes
  new-outcome = elim (Bool-cases (ltb u32_max elf.len)) [
    | inl large ↦ rw large (raises (inl (ground arith, refl, refl)))
    | inr small ↦
        let le : elf.len ≤ u32_max = ground arith in
        let fits : elf.len % 2 ^ 32 ≡ elf.len = omega arith in
        rw (small, fits)
          (elim (nonnull-cases "libriscv_new" created.0) [
            | inl (absent, e) ↦ rw e (raises (inr (le, absent, refl, refl)))
            | inr (present, e) ↦ rw e (returns (le, present, refl, refl))
          ])
  ]

  -- The program that a machine keeps is a block of its own, which begins at or behind the first
  -- address that was free before the call. It has the length and the bytes that the caller's slice
  -- had, at any later time at which that block alone is as `new` left it, whatever has become of
  -- the rest of the memory. The C library, when it makes the machine, only adds to the memory.
  pub new-keeps :
      {machine : Machine} {h' : Host F} (later : Memory)
      → new sys elf options registry h ≡ (ok machine, h')
      → Extends (to_owned elf h.memory).1 created.1.memory
      → Untouched machine.elf h'.memory later
      → (h.memory.limit ≤ machine.elf.address)
        × (machine.elf.len ≡ elf.len)
        × (contents later machine.elf ≡ contents h.memory elf)
  new-keeps {machine} {h'} later e kept untouched =
      let (_, _, state, made) = Ends.returned new-outcome e in
      let (copy, n) = to_owned elf h.memory in
      let same : machine.elf ≡ copy = ap (λ (m : Machine). m.elf) made in
      let still = subst (λ (k : Host F). Untouched machine.elf k.memory later) state untouched in
      let still' = subst (λ (s : Slice). Untouched s created.1.memory later) same still in
      let (_, inside, _, _) = to_owned-Untouched elf h.memory n (λ q lo hi. refl) in
      let (fresh, _, len, bytes) =
        to_owned-Untouched elf h.memory later
          (λ q lo hi. still' q lo hi ∙ kept.same_byte q (omega (arith, hi, inside))) in
      rw made (fresh, len, bytes)
