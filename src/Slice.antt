-- ===== src/Slice.antt =====
-- Slices and non-null pointers: a `&[u8]` is an address and a length in the host's memory.
use libriscv_rust_binding.Common.{
  ℕ, zero, suc, ◌<◌, String, ok, err, false, ◌⊎◌, inl, inr, refl, ◌≡◌, sym, ap, ◌∙◌, Option, none,
  some, List, ◌==◌, if◌then◌else◌, length, arith, ok_or,
}
use libriscv_rust_binding.Raw.{null}
use libriscv_rust_binding.Memory.{
  Memory, read_bytes, write_bytes, write_cells-Holds, read_cells-Holds, length-read_cells,
}
use libriscv_rust_binding.Error.{Error, Fallible}

pub record Slice : Type 0 where
  pub address : ℕ
  pub len : ℕ

-- The bytes of a slice.
abbrev pub contents : Memory → Slice → List ℕ
contents m s = read_bytes m s.address s.len

-- `dst.copy_from_slice(src)`, for slices of one length.
unfoldable pub copy_from_slice : Slice → Slice → Memory → Memory
copy_from_slice dst src m = write_bytes m dst.address (contents m src)

-- `NonNull::new(ptr)` and `NonZeroU64::new(n)`.
abbrev pub nonzero : ℕ → Option ℕ
nonzero p = if p == null then none else some p

-- `NonNull::new(ptr).ok_or(Error::NullPointer(op))`.
abbrev pub nonnull : String → ℕ → Fallible ℕ
nonnull op p = ok_or (nonzero p) (Error.null_pointer op)

-- After the copy the destination has the source's bytes.
pub contents-copy_from_slice :
    (dst src : Slice) (m : Memory)
    → dst.len ≡ src.len
    → contents (copy_from_slice dst src m) dst ≡ contents m src
unfolding copy_from_slice
contents-copy_from_slice dst src m e =
    let bs : List ℕ = contents m src in
    let n : dst.len ≡ length bs = e ∙ sym (length-read_cells 1 m.byte src.address src.len) in
    ap (read_bytes (write_bytes m dst.address bs) dst.address) n
    ∙ read_cells-Holds 1 (write_bytes m dst.address bs).byte dst.address bs
        (write_cells-Holds 1 m.byte dst.address bs (omega arith))

pub nonnull-cases :
    (op : String) (p : ℕ)
    → ((p ≡ 0) × (nonnull op p ≡ err (Error.null_pointer op))) ⊎ ((0 < p) × (nonnull op p ≡ ok p))
nonnull-cases op zero = inl (refl, refl)
nonnull-cases op (suc p) =
    let test : (suc p == null) ≡ false = ground arith in inr (omega arith, rw test)

pub nonnull-positive : (op : String) (p : ℕ) → 0 < p → nonnull op p ≡ ok p
nonnull-positive op p present = let test : (p == null) ≡ false = ground arith in rw test
