-- ===== src/Tests/Structs.antt =====
-- libriscv-sys/src/bindings.rs and the shared structs: their layout on concrete targets.
use libriscv_rust_binding.Common.{◌≡◌, ◌↔◌, refl, true, false, some, replicate}
use libriscv_rust_binding.Raw.Layout.{Target, PointerWidth, WideAlign, places, offset_of}
use libriscv_rust_binding.Raw.Structs.{bindings_compile, riscv_registers}
use libriscv_rust_binding.Raw.Structs.Compile.{bindings_compile_iff}
use libriscv_rust_binding.Examples.Layout.{Strings, Buffers}
use libriscv_rust_binding.Examples.Layout.Shared.{riscv64}

abbrev i686 : Target
i686 = record { pointer_width = PointerWidth.bits_32; wide_align = WideAlign.align_4 }

i686_refused : bindings_compile i686 ≡ false
unfolding bindings_compile
i686_refused = refl

fr_offset : offset_of "fr" (places riscv64 riscv_registers) ≡ some 272
unfolding offset_of places
fr_offset = refl

bindings_compile_iff_example :
    (bindings_compile riscv64 ≡ true)
    ↔ ((riscv64.pointer_width ≡ PointerWidth.bits_64) × (riscv64.wide_align ≡ WideAlign.align_8))
bindings_compile_iff_example = bindings_compile_iff riscv64

abbrev strings : Strings
strings = record { count = 2; strings = replicate 32 7 }

abbrev buffers : Buffers
buffers = record {
  count = 300;
  buffer = replicate 256 1;
  another_count = 5;
  another_buffer_address = 70000;
}
