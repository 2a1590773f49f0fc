-- ===== src/Raw/Layout.antt =====
-- libriscv-sys/src/bindings.rs: the C structs as `repr(C)` lays them out, and the assertions on their
-- sizes, alignments and offsets that rust-bindgen writes beside them. What a target decides is the
-- width of its pointers and the alignment of 64-bit numbers.
pub mod Laws
use libriscv_rust_binding.Common.{
  ℕ, zero, suc, ◌+◌, ◌-◌, ◌*◌, ◌%◌, max, String, str_eq, Bool, true, ◌&&◌, Option, none, some, List,
  [], ◌∷◌, ltb, leb, if◌then◌else◌,
}

-- Of 32 or of 64 bits.
pub data PointerWidth : Type 0 where
  bits_32 bits_64 : PointerWidth

-- Where a `u64` or an `f64` may stand: i686 asks for 4 bytes only.
pub data WideAlign : Type 0 where
  align_4 align_8 : WideAlign

pub record Target : Type 0 where
  pub pointer_width : PointerWidth
  pub wide_align : WideAlign

-- The types of the fields. A function pointer in an `Option` is a pointer.
mutual
  pub data CType : Type 0 where
    u8 u32 c_int c_uint u64 f32 f64 pointer : CType
    array : CType → ℕ → CType
    struct : Fields → CType
    union : Fields → CType

  pub data Fields : Type 0 where
    end : Fields
    field : String → CType → Fields → Fields

abbrev pub fields_of : List (String × CType) → Fields
fields_of [] = end
fields_of ((name, type) ∷ rest) = field name type (fields_of rest)

abbrev pub struct_of : List (String × CType) → CType
struct_of rows = struct (fields_of rows)

abbrev pub union_of : List (String × CType) → CType
union_of rows = union (fields_of rows)

abbrev pub pointer_size : Target → ℕ
pointer_size t = elim t.pointer_width [ PointerWidth.bits_32 ↦ 4 | PointerWidth.bits_64 ↦ 8 ]

abbrev pub wide_alignment : Target → ℕ
wide_alignment t = elim t.wide_align [ WideAlign.align_4 ↦ 4 | WideAlign.align_8 ↦ 8 ]

-- The bytes from `offset` to the next multiple of `align`.
unfoldable pub padding_needed_for : (offset align : ℕ) → ℕ
padding_needed_for offset align =
    let misalignment = offset % align in if ltb 0 misalignment then align - misalignment else 0

unfoldable mutual
  pub align_of : Target → CType → ℕ
  align_of t u8 = 1
  align_of t u32 = 4
  align_of t c_int = 4
  align_of t c_uint = 4
  align_of t u64 = wide_alignment t
  align_of t f32 = 4
  align_of t f64 = wide_alignment t
  align_of t pointer = pointer_size t
  align_of t (array element n) = align_of t element
  align_of t (struct fields) = fields_align t fields
  align_of t (union fields) = fields_align t fields

  -- The largest alignment of a field.
  pub fields_align : Target → Fields → ℕ
  fields_align t end = 1
  fields_align t (field name type rest) = max (align_of t type) (fields_align t rest)

unfoldable mutual
  unfolding align_of padding_needed_for

  pub size_of : Target → CType → ℕ
  size_of t u8 = 1
  size_of t u32 = 4
  size_of t c_int = 4
  size_of t c_uint = 4
  size_of t u64 = 8
  size_of t f32 = 4
  size_of t f64 = 8
  size_of t pointer = pointer_size t
  size_of t (array element n) = n * size_of t element
  size_of t (struct fields) =
      let last = fields_end t fields 0 in last + padding_needed_for last (fields_align t fields)
  size_of t (union fields) =
      let last = fields_size t fields in last + padding_needed_for last (fields_align t fields)

  -- Where the fields end whose first may stand at `offset`.
  pub fields_end : Target → Fields → ℕ → ℕ
  fields_end t end offset = offset
  fields_end t (field name type rest) offset =
      let at = offset + padding_needed_for offset (align_of t type) in
      fields_end t rest (at + size_of t type)

  -- The largest size of a field.
  pub fields_size : Target → Fields → ℕ
  fields_size t end = 0
  fields_size t (field name type rest) = max (size_of t type) (fields_size t rest)

-- Where a field stands in its struct, and how long it is.
pub record Place : Type 0 where
  pub name : String
  pub offset : ℕ
  pub size : ℕ
  pub align : ℕ

unfoldable pub places_from : Target → Fields → ℕ → List Place
unfolding size_of padding_needed_for
places_from t end offset = []
places_from t (field name type rest) offset =
    let at = offset + padding_needed_for offset (align_of t type) in
    record { name = name; offset = at; size = size_of t type; align = align_of t type }
    ∷ places_from t rest (at + size_of t type)

-- Every field of a union stands at its start.
unfoldable pub places_at_start : Target → Fields → List Place
places_at_start t end = []
places_at_start t (field name type rest) =
    record { name = name; offset = 0; size = size_of t type; align = align_of t type }
    ∷ places_at_start t rest

unfoldable pub places : Target → CType → List Place
unfolding places_from places_at_start
places t (struct fields) = places_from t fields 0
places t (union fields) = places_at_start t fields
places t _ = []

-- `offset_of!`
unfoldable pub offset_of : String → List Place → Option ℕ
offset_of name [] = none
offset_of name (p ∷ rest) = if str_eq p.name name then some p.offset else offset_of name rest

-- `["…"][value - expected]` in a constant: a subtraction below zero does not compile, and neither does an
-- index behind the one element.
unfoldable pub const_index : (value expected : ℕ) → Bool
const_index value expected = leb expected value && ltb (value - expected) 1

-- The assertions on one type: its size, its alignment, and the offsets of its fields.
pub record Assertions : Type 0 where
  pub size : ℕ
  pub align : ℕ
  pub offsets : List (String × ℕ)

unfoldable pub offsets_compile : List Place → List (String × ℕ) → Bool
unfolding const_index offset_of
offsets_compile ps [] = true
offsets_compile ps ((name, expected) ∷ rest) =
    elim (offset_of name ps) [ none ↦ Bool.false | some value ↦ const_index value expected ]
    && offsets_compile ps rest

-- The block `const _: () = { … }` of a type.
unfoldable pub compiles : Target → CType → Assertions → Bool
unfolding const_index offsets_compile places size_of align_of
compiles t type a =
    const_index (size_of t type) a.size
    && const_index (align_of t type) a.align
    && offsets_compile (places t type) a.offsets
