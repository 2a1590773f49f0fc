-- ===== src/Examples/Layout/Shared.antt =====
-- examples/advanced_syscalls.rs and examples/advanced/rust_program/src/main.rs: each declares the shared
-- structs for itself, the host with addresses as `u64` and the guest with pointers of its own.
use libriscv_rust_binding.Common.{ℕ, ◌≡◌, List, [], ◌∷◌, take, drop}
use libriscv_rust_binding.Raw.Layout.{
  Target, PointerWidth, WideAlign, CType, Place, struct_of, places, size_of,
}

abbrev pub host_strings : CType
host_strings = struct_of (("count", CType.u64) ∷ ("strings", CType.array CType.u64 32) ∷ [])

abbrev pub host_buffers : CType
host_buffers = struct_of (
    ("count", CType.u64)
    ∷ ("buffer", CType.array CType.u8 256)
    ∷ ("another_count", CType.u64)
    ∷ ("another_buffer_address", CType.u64)
    ∷ [])

abbrev pub guest_strings : CType
guest_strings = struct_of (("count", CType.u64) ∷ ("strings", CType.array CType.pointer 32) ∷ [])

abbrev pub guest_buffer : CType
guest_buffer = struct_of (
    ("count", CType.u64)
    ∷ ("buffer", CType.array CType.u8 256)
    ∷ ("another_count", CType.u64)
    ∷ ("another_buffer", CType.pointer)
    ∷ [])

-- The guest's target.
abbrev pub riscv64 : Target
riscv64 = record { pointer_width = PointerWidth.bits_64; wide_align = WideAlign.align_8 }

-- Where the fields stand, without their names.
abbrev pub spans : List Place → List (ℕ × ℕ)
spans [] = []
spans (p ∷ ps) = (p.offset, p.size) ∷ spans ps

-- The bytes of a struct, cut at those places.
abbrev pub cut : List ℕ → List (ℕ × ℕ) → List (List ℕ)
cut bytes [] = []
cut bytes ((offset, size) ∷ rest) = take size (drop offset bytes) ∷ cut bytes rest

-- Both sides lay a struct out alike.
abbrev pub Alike : Target → (host guest : CType) → (size : ℕ) → Type 0
Alike t host guest size =
    (spans (places t host) ≡ spans (places riscv64 guest))
    × (size_of t host ≡ size)
    × (size_of riscv64 guest ≡ size)
