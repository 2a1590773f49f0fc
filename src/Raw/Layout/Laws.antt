-- ===== src/Raw/Layout/Laws.antt =====
-- libriscv-sys/src/bindings.rs: what `repr(C)` promises of any struct.
use native.Mathlib.Nat.{mod-lt, div-add-mod', mul-mod_left}
use libriscv_rust_binding.Common.{
  ℕ, ◌+◌, ◌%◌, ◌≤◌, ◌<◌, ◌-◌, ◌*◌, ◌/◌, ◌≡◌, ap, ◌∙◌, List, [], ◌∷◌, arith,
}
use libriscv_rust_binding.Raw.Layout.{
  Target, PointerWidth, WideAlign, wide_alignment, pointer_size, CType, u8, u32, c_int, c_uint, u64,
  f32, f64, pointer, array, struct, union, Fields, end, field, Place, padding_needed_for, align_of,
  fields_align, size_of, fields_end, places_from, places,
}

-- The places come one after another between `offset` and `last`, each at a multiple of its alignment.
abbrev pub Fit : ℕ → List Place → ℕ → Type 0
Fit offset [] last = offset ≤ last
Fit offset (p ∷ ps) last =
    (offset ≤ p.offset)
    × (p.offset % p.align ≡ 0)
    × (p.offset < offset + p.align)
    × Fit (p.offset + p.size) ps last

round_up_lem :
    (offset align : ℕ)
    → 0 < align
    → 0 < offset % align
    → (offset + (align - offset % align)) % align ≡ 0
round_up_lem offset align h some =
    let less : offset % align < align = mod-lt offset h in
    let whole : offset + (align - offset % align) ≡ (offset / align + 1) * align =
      grind (arith, div-add-mod' offset align) in
    ap (λ (n : ℕ). n % align) whole ∙ mul-mod_left (offset / align + 1) align

padding_lem :
    (offset align : ℕ)
    → 0 < align
    → ((offset + padding_needed_for offset align) % align ≡ 0)
      × (padding_needed_for offset align < align)
unfolding padding_needed_for
padding_lem offset align h = ground (arith, round_up_lem offset align h, mod-lt offset h)

wide_pos :
    (a : WideAlign)
    → 0 < wide_alignment (record { pointer_width = PointerWidth.bits_32; wide_align = a })
wide_pos WideAlign.align_4 = omega arith
wide_pos WideAlign.align_8 = omega arith

pointer_pos :
    (w : PointerWidth)
    → 0 < pointer_size (record { pointer_width = w; wide_align = WideAlign.align_4 })
pointer_pos PointerWidth.bits_32 = omega arith
pointer_pos PointerWidth.bits_64 = omega arith

mutual
  unfolding align_of

  pub align_of_pos : (t : Target) (type : CType) → 0 < align_of t type
  align_of_pos t u8 = omega arith
  align_of_pos t u32 = omega arith
  align_of_pos t c_int = omega arith
  align_of_pos t c_uint = omega arith
  align_of_pos t u64 = wide_pos t.wide_align
  align_of_pos t f32 = omega arith
  align_of_pos t f64 = wide_pos t.wide_align
  align_of_pos t pointer = pointer_pos t.pointer_width
  align_of_pos t (array element n) = align_of_pos t element
  align_of_pos t (struct fields) = fields_align_pos t fields
  align_of_pos t (union fields) = fields_align_pos t fields

  fields_align_pos : (t : Target) (fields : Fields) → 0 < fields_align t fields
  fields_align_pos t end = omega arith
  fields_align_pos t (field name type rest) = omega (arith, fields_align_pos t rest)

module _ (t : Target) where
  fields_end-ge : (fields : Fields) (offset : ℕ) → offset ≤ fields_end t fields offset
  unfolding fields_end
  fields_end-ge end offset = omega arith
  fields_end-ge (field name type rest) offset =
      let at : ℕ = offset + padding_needed_for offset (align_of t type) in
      omega (arith, fields_end-ge rest (at + size_of t type))

  places_from-Fit :
      (fields : Fields) (offset last : ℕ)
      → fields_end t fields offset ≤ last
      → Fit offset (places_from t fields offset) last
  unfolding places_from fields_end
  places_from-Fit end offset last h = h
  places_from-Fit (field name type rest) offset last h =
      let (whole, less) = padding_lem offset (align_of t type) (align_of_pos t type) in
      let at : ℕ = offset + padding_needed_for offset (align_of t type) in
      (omega arith, whole, omega arith, places_from-Fit rest (at + size_of t type) last h)

  pub places-Fit :
      (fields : Fields)
      → Fit 0 (places t (struct fields)) (size_of t (struct fields))
        × (size_of t (struct fields) % align_of t (struct fields) ≡ 0)
  unfolding places size_of align_of
  places-Fit fields =
      let last : ℕ = fields_end t fields 0 in
      let (whole, less) = padding_lem last (fields_align t fields) (fields_align_pos t fields) in
      (places_from-Fit fields 0 _ (omega arith), whole)
