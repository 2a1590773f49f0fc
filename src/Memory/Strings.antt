-- ===== src/Memory/Strings.antt =====
-- C strings: `CString::new` and `CStr::from_ptr`, and what stays readable through their pointers.
use mathlib.Core.Option
use libriscv_rust_binding.Common.{
  ℕ, zero, suc, ◌+◌, ◌-◌, ◌<◌, ◌≡◌, Option, none, some, List, [], ◌∷◌, ◌++◌, arith, ◌==◌,
  if◌then◌else◌, length, length-append, Result, ok, err,
}
use libriscv_rust_binding.Memory.{Memory, Extends, alloc_bytes}
use libriscv_rust_binding.Memory.Cells.{Holds, Holds-congr, write_cells-Holds}

-- The position of the first NUL byte.
abbrev pub first_nul : List ℕ → Option ℕ
first_nul [] = none
first_nul (b ∷ bs) = if b == 0 then some 0 else Option.map suc (first_nul bs)

-- `std::ffi::NulError`: where the NUL stands, and the bytes.
pub record NulError : Type 0 where
  pub position : ℕ
  pub bytes : List ℕ

-- `CString`: the bytes without the terminator, and where they stand with it.
pub record CString : Type 0 where
  pub bytes : List ℕ
  pub address : ℕ

unfoldable pub cstring_new : List ℕ → Memory → Result NulError CString × Memory
unfolding alloc_bytes
cstring_new bs m = elim (first_nul bs) [
  | none ↦
      let (p, m') = alloc_bytes (bs ++ 0 ∷ []) m in (ok (record { bytes = bs; address = p }), m')
  | some i ↦ (err (record { position = i; bytes = bs }), m)
]

-- The bytes from `p` up to the first NUL, looking at `fuel` bytes at most.
c_str_from : ℕ → (ℕ → ℕ) → ℕ → Option (List ℕ)
c_str_from zero f p = none
c_str_from (suc fuel) f p =
    let rest = Option.map (λ bs. f p ∷ bs) (c_str_from fuel f (p + 1)) in
    if f p == 0 then some [] else rest

-- `CStr::from_ptr(p)`. Its precondition is a NUL in allocated memory; `none` is where it fails.
unfoldable pub c_str : Memory → ℕ → Option (List ℕ)
unfolding c_str_from
c_str m p = c_str_from (m.limit - p) m.byte p

-- The memory holds the C string `bs` at the non-null address `p`.
pub record HoldsString (m : Memory) (p : ℕ) (bs : List ℕ) : Type 0 where
  pub no_nul : first_nul bs ≡ none
  pub nonnull : 0 < p
  pub inside : p + length bs < m.limit
  pub content : Holds 1 m.byte p (bs ++ 0 ∷ [])

c_str_from-Holds :
    (fuel : ℕ) (f : ℕ → ℕ) (p : ℕ) (bs : List ℕ)
    → first_nul bs ≡ none
    → Holds 1 f p (bs ++ 0 ∷ [])
    → length bs < fuel
    → c_str_from fuel f p ≡ some bs
unfolding c_str_from
c_str_from-Holds zero f p bs clean h enough = absurd (omega arith)
c_str_from-Holds (suc fuel) f p [] clean h enough = ground arith
c_str_from-Holds (suc fuel) f p (b ∷ bs) clean h enough =
    let ih = c_str_from-Holds fuel f (p + 1) bs in ground (arith, h.0, ih)

pub c_str-HoldsString :
    {m : Memory} {p : ℕ} {bs : List ℕ} → HoldsString m p bs → c_str m p ≡ some bs
unfolding c_str
c_str-HoldsString {m} {p} {bs} h =
    c_str_from-Holds (m.limit - p) m.byte p bs h.no_nul h.content (omega (arith, h.inside))

-- A string stays readable while the memory grows.
pub HoldsString-Extends :
    {m n : Memory} {p : ℕ} {bs : List ℕ} → Extends m n → HoldsString m p bs → HoldsString n p bs
HoldsString-Extends {m} {n} {p} {bs} later h = record {
  no_nul = h.no_nul;
  nonnull = h.nonnull;
  inside = omega arith;
  content =
      Holds-congr 1 m.byte n.byte p (bs ++ 0 ∷ [])
        (λ q lo hi. later.same_byte q (omega (arith, length-append bs (0 ∷ [])))) (omega arith)
        h.content;
}

module _ (bs : List ℕ) (m : Memory) where
  pub cstring_new-clean :
      first_nul bs ≡ none
      → cstring_new bs m
        ≡ (ok (record { bytes = bs; address = m.limit }), (alloc_bytes (bs ++ 0 ∷ []) m).1)
  unfolding cstring_new
  cstring_new-clean clean = rw (clean, cstring_new)

  pub cstring_new-nul :
      (i : ℕ)
      → first_nul bs ≡ some i
      → cstring_new bs m ≡ (err (record { position = i; bytes = bs }), m)
  unfolding cstring_new
  cstring_new-nul i found = rw (found, cstring_new)

  pub alloc_bytes-HoldsString :
      first_nul bs ≡ none → 0 < m.limit → HoldsString (alloc_bytes (bs ++ 0 ∷ []) m).1 m.limit bs
  unfolding alloc_bytes
  alloc_bytes-HoldsString clean room = record {
    no_nul = clean;
    nonnull = room;
    inside = omega (arith, length-append bs (0 ∷ []));
    content = write_cells-Holds 1 m.byte m.limit (bs ++ 0 ∷ []) (omega arith);
  }
