-- ===== src/Raw/Structs/Compile.antt =====
-- libriscv-sys/src/bindings.rs: the targets on which its assertions hold.
use libriscv_rust_binding.Common.{◌≡◌, refl, ◌↔◌, true}
use libriscv_rust_binding.Raw.Layout.{Target, PointerWidth, WideAlign}
use libriscv_rust_binding.Raw.Structs.{bindings_compile}

-- Every target there is.
compile_table :
    (width : PointerWidth) (align : WideAlign)
    → (bindings_compile (record { pointer_width = width; wide_align = align }) ≡ true)
      ↔ ((width ≡ PointerWidth.bits_64) × (align ≡ WideAlign.align_8))
unfolding bindings_compile
compile_table PointerWidth.bits_32 WideAlign.align_4 = (λ h. cc, λ h. cc)
compile_table PointerWidth.bits_32 WideAlign.align_8 = (λ h. cc, λ h. cc)
compile_table PointerWidth.bits_64 WideAlign.align_4 = (λ h. cc, λ h. cc)
compile_table PointerWidth.bits_64 WideAlign.align_8 = (λ h. (refl, refl), λ h. refl)

-- The assertions of the bindings on sizes, alignments and offsets compile exactly on the targets
-- with pointers of 64 bits on which 64-bit numbers are aligned to 8 bytes.
pub bindings_compile_iff :
    (t : Target)
    → (bindings_compile t ≡ true)
      ↔ ((t.pointer_width ≡ PointerWidth.bits_64) × (t.wide_align ≡ WideAlign.align_8))
bindings_compile_iff t = compile_table t.pointer_width t.wide_align
