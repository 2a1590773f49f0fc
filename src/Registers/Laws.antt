-- ===== src/Registers/Laws.antt =====
-- The register file as a store: reads after writes, ranges, and what a write leaves alone.
use libriscv_rust_binding.Common.{
  ℕ, ◌^◌, ◌<◌, ◌≡◌, ap, arith, leb, ◌==◌, if◌then◌else◌, length, length-set, get_or, set,
  get_or-set_self, get_or-set_ne, ok, err, Bool-cases, inl, inr, ==_iff, ltb, List, ◌&&◌, ◌∙◌, ◌≢◌,
}
use libriscv_rust_binding.Raw.{IsWhole}
use libriscv_rust_binding.Memory.{Memory}
use libriscv_rust_binding.Error.{Fallible}
use libriscv_rust_binding.Registers.{
  Registers, x, set_x, pc, set_pc, fcsr, set_fcsr, f32, set_f32, f64, set_f64, f32_low, set_f32_low,
}

pub get_or-set {ℓ} :
    {A : Type ℓ} (xs : List A) (i j : ℕ) (v d : A)
    → i < length xs
    → get_or (set xs i v) j d ≡ (if j == i then v else get_or xs j d)
get_or-set xs i j v d h = elim (Bool-cases (j == i)) [
  | inl same ↦ let e : j ≡ i = (==_iff j i).0 same in rw (same, e) (get_or-set_self xs i v d h)
  | inr other ↦ rw other (get_or-set_ne xs i j v d (ground arith))
]

-- A float register as `f32` and as `f64`, from its eight bytes.
abbrev low_of : Fallible ℕ → Fallible ℕ
low_of (ok float) = ok (f32_low float)
low_of (err e) = err e

f32-f64 : (self : Registers) (j : ℕ) (m : Memory) → (f32 self j m).0 ≡ low_of (f64 self j m).0
unfolding f32 f64
f32-f64 self j m = elim (Bool-cases (leb 32 j)) [ inl e ↦ rw e | inr e ↦ rw e ]

f32_low-set_f32_low : (float value : ℕ) → value < 2 ^ 32 → f32_low (set_f32_low float value) ≡ value
f32_low-set_f32_low float value h = omega arith

module _ (self : Registers) (m : Memory) (whole : IsWhole (m.registers self.ptr)) where
  r-set :
      (i j value : ℕ)
      → i < 32
      → get_or (set (m.registers self.ptr).r i value) j 0
        ≡ (if j == i then value else get_or (m.registers self.ptr).r j 0)
  r-set i j value h =
      get_or-set (m.registers self.ptr).r i j value 0 (omega (arith, whole.r_length))

  fr-set :
      (i j value : ℕ)
      → i < 32
      → get_or (set (m.registers self.ptr).fr i value) j 0
        ≡ (if j == i then value else get_or (m.registers self.ptr).fr j 0)
  fr-set i j value h =
      get_or-set (m.registers self.ptr).fr i j value 0 (omega (arith, whole.fr_length))

  -- In a whole register file, after a write of integer register `i` every index reads as before, but
  -- for `i`, if it is in range, which reads the new value.
  pub x-set_x :
      (i j value : ℕ)
      → (x self j (set_x self i value m).1).0
        ≡ (if ltb i 32 && j == i then ok value else (x self j m).0)
  unfolding x set_x
  x-set_x i j value = ground (arith, r-set i j value)

  -- In a whole register file, after a write of double-precision register `i` every index reads as
  -- before, but for `i`, if it is in range, which reads the new value.
  pub f64-set_f64 :
      (i j value : ℕ)
      → (f64 self j (set_f64 self i value m).1).0
        ≡ (if ltb i 32 && j == i then ok value else (f64 self j m).0)
  unfolding f64 set_f64
  f64-set_f64 i j value = ground (arith, fr-set i j value)

  -- The double-precision registers after a write of a single-precision one.
  pub f64-set_f32 :
      (i j value : ℕ)
      → (f64 self j (set_f32 self i value m).1).0 ≡ (
          if ltb i 32 && j == i
          then ok (set_f32_low (get_or (m.registers self.ptr).fr i 0) value)
          else (f64 self j m).0)
  unfolding f64 set_f32
  f64-set_f32 i j value =
      ground (arith, fr-set i j (set_f32_low (get_or (m.registers self.ptr).fr i 0) value))

  -- In a whole register file, a single-precision register is the low half of the double-precision one: a 32-bit pattern
  -- written through `set_f32` is read back by `f32`, and one written through `set_f64` shows its
  -- low half; every other index reads as before.
  pub f32-writes :
      (i j value : ℕ)
      → value < 2 ^ 32
      → ((f32 self j (set_f32 self i value m).1).0
          ≡ (if ltb i 32 && j == i then ok value else (f32 self j m).0))
        × ((f32 self j (set_f64 self i value m).1).0
            ≡ (if ltb i 32 && j == i then ok (f32_low value) else (f32 self j m).0))
  f32-writes i j value h = (
    f32-f64 self j (set_f32 self i value m).1
        ∙ ap low_of (f64-set_f32 i j value)
        ∙ rw (f32-f64 self j m)
            (ground (arith, f32_low-set_f32_low (get_or (m.registers self.ptr).fr i 0) value h)),
    f32-f64 self j (set_f64 self i value m).1
        ∙ ap low_of (f64-set_f64 i j value)
        ∙ rw (f32-f64 self j m) (ground arith),
  )

  -- Every write to a register file whose arrays have 32 elements keeps them at 32 elements.
  pub writes-IsWhole :
      (i value : ℕ)
      → IsWhole ((set_x self i value m).1.registers self.ptr)
        × IsWhole ((set_f32 self i value m).1.registers self.ptr)
        × IsWhole ((set_f64 self i value m).1.registers self.ptr)
        × IsWhole ((set_pc self value m).registers self.ptr)
        × IsWhole ((set_fcsr self value m).registers self.ptr)
  unfolding set_x set_f32 set_f64 set_pc set_fcsr
  writes-IsWhole i value =
      let float = set_f32_low (get_or (m.registers self.ptr).fr i 0) value in
      ground (
        arith,
        whole.r_length,
        whole.fr_length,
        length-set (m.registers self.ptr).r i value,
        length-set (m.registers self.ptr).fr i value,
        length-set (m.registers self.ptr).fr i float,
      )

-- What a write of one register leaves alone: registers of the other kinds, the program counter or
-- the status register, the bytes and words of the memory, and every other register file.
pub record Spares (self : Registers) (m n : Memory) : Type 0 where
  pub byte : n.byte ≡ m.byte
  pub word : n.word ≡ m.word
  pub limit : n.limit ≡ m.limit
  pub others : (q : ℕ) → q ≢ self.ptr → n.registers q ≡ m.registers q

module _ (self : Registers) (m : Memory) where
  -- A write of an integer register, in range or not, leaves every float register, the program
  -- counter, the status register, the bytes and words of the memory and every other register file
  -- as they were.
  pub set_x-frame :
      (i j value : ℕ)
      → let n = (set_x self i value m).1 in
        ((f32 self j n).0 ≡ (f32 self j m).0)
        × ((f64 self j n).0 ≡ (f64 self j m).0)
        × (pc self n ≡ pc self m)
        × (fcsr self n ≡ fcsr self m)
        × Spares self m n
  unfolding set_x f32 f64 pc fcsr
  set_x-frame i j value = ground arith

  -- A write of a float register, of either precision and in range or not, leaves every integer
  -- register, the program counter, the status register, the bytes and words of the memory and every
  -- other register file as they were.
  pub set_float-frame :
      (i j value : ℕ)
      → let n = (set_f32 self i value m).1 in
        let l = (set_f64 self i value m).1 in
        ((x self j n).0 ≡ (x self j m).0)
        × ((x self j l).0 ≡ (x self j m).0)
        × (pc self n ≡ pc self m)
        × (pc self l ≡ pc self m)
        × (fcsr self n ≡ fcsr self m)
        × (fcsr self l ≡ fcsr self m)
        × Spares self m n
        × Spares self m l
  unfolding set_f32 set_f64 x pc fcsr
  set_float-frame i j value = ground arith

  pub set_pc-frame :
      (j value : ℕ)
      → let n = set_pc self value m in
        (pc self n ≡ value)
        × ((x self j n).0 ≡ (x self j m).0)
        × ((f64 self j n).0 ≡ (f64 self j m).0)
        × (fcsr self n ≡ fcsr self m)
        × Spares self m n
  unfolding set_pc x f64 pc fcsr
  set_pc-frame j value = ground arith
