-- ===== src/Common/Utf8.antt =====
-- `std::str::from_utf8` as a test, the well-formed byte sequences of the Unicode standard, and
-- `String::from_utf8_lossy`, which is also `CStr::to_string_lossy`.
use Prim.Native.Nat.{ℕ, zero, suc}
use native.Mathlib.Omega.{arith}
use mathlib.Core.Path.{◌≡◌, refl, sym, ap, ◌∙◌}
use mathlib.Core.Logic.{inl, inr}
use mathlib.Core.Bool.{Bool, true, false, ◌&&◌}
use mathlib.Core.Option.{Option, none, some}
use mathlib.Core.List.{List, [], ◌∷◌, ◌++◌, append_assoc, append-nil}
use libriscv_rust_binding.Common.Tests.{leb, ltb, ◌==◌, if◌then◌else◌, Bool-cases, Option-cases}

-- What a lead byte asks for: how many bytes follow, and the range of the first of them.
abbrev lead : ℕ → Option (ℕ × ℕ × ℕ)
lead b =
    if ltb b 0x80
    then some (0, 0, 0)
    else if leb 0xc2 b && leb b 0xdf
    then some (1, 0x80, 0xbf)
    else if b == 0xe0
    then some (2, 0xa0, 0xbf)
    else if b == 0xed
    then some (2, 0x80, 0x9f)
    else if leb 0xe1 b && leb b 0xef
    then some (2, 0x80, 0xbf)
    else if b == 0xf0
    then some (3, 0x90, 0xbf)
    else if leb 0xf1 b && leb b 0xf3
    then some (3, 0x80, 0xbf)
    else if b == 0xf4
    then some (3, 0x80, 0x8f)
    else none

-- `pending` bytes of a character are still to come, the first of them from `low` to `high`.
utf8_from : (pending low high : ℕ) → List ℕ → Bool
utf8_from zero low high [] = true
utf8_from zero low high (b ∷ bs) = elim (lead b) [
  | none ↦ false
  | some (n, l, h) ↦ utf8_from n l h bs
]
utf8_from (suc n) low high [] = false
utf8_from (suc n) low high (b ∷ bs) = leb low b && leb b high && utf8_from n 0x80 0xbf bs

unfoldable pub is_utf8 : List ℕ → Bool
unfolding utf8_from
is_utf8 = utf8_from 0 0 0

-- The bytes of U+FFFD.
abbrev pub replacement : List ℕ
replacement = 0xef ∷ 0xbf ∷ 0xbd ∷ []

-- `held` are the bytes of the character of which `pending` bytes are still to come. As many bytes as
-- can begin a character, but do not end one, become one U+FFFD.
lossy_from : (pending low high : ℕ) → (held : List ℕ) → List ℕ → List ℕ
lossy_from zero low high held [] = held
lossy_from zero low high held (b ∷ bs) = held ++ (elim (lead b) [
  | none ↦ lossy_from 0 0 0 replacement bs
  | some (n, l, h) ↦ lossy_from n l h (b ∷ []) bs
])
lossy_from (suc n) low high held [] = replacement
lossy_from (suc n) low high held (b ∷ bs) = elim (leb low b && leb b high) [
  | true ↦ lossy_from n 0x80 0xbf (held ++ b ∷ []) bs
  | false ↦ replacement ++ (elim (lead b) [
    | none ↦ lossy_from 0 0 0 replacement bs
    | some (n, l, h) ↦ lossy_from n l h (b ∷ []) bs
  ])
]

-- The bytes of the string that it gives.
unfoldable pub from_utf8_lossy : List ℕ → List ℕ
unfolding lossy_from
from_utf8_lossy bs = lossy_from 0 0 0 [] bs

lossy_from-utf8 :
    (n l h : ℕ) (held bs : List ℕ)
    → utf8_from n l h bs ≡ true
    → lossy_from n l h held bs ≡ held ++ bs
unfolding utf8_from lossy_from
lossy_from-utf8 zero l h held [] valid = sym (append-nil held)
lossy_from-utf8 zero low high held (b ∷ bs) valid = elim (Option-cases (lead b)) [
  | inl bad ↦ absurd (ground (arith, valid, bad))
  | inr ((n, l, h), begins) ↦
      let rest : utf8_from n l h bs ≡ true = rw (begins, utf8_from) at valid in
      rw begins (ap (λ t. held ++ t) (lossy_from-utf8 n l h (b ∷ []) bs rest))
]
lossy_from-utf8 (suc n) l h held [] valid = absurd (ground (arith, valid))
lossy_from-utf8 (suc n) l h held (b ∷ bs) valid = elim (Bool-cases (leb l b && leb b h)) [
  | inl inside ↦
      let rest : utf8_from n 0x80 0xbf bs ≡ true = ground (arith, valid, inside) in
      rw (inside, lossy_from)
        (lossy_from-utf8 n 0x80 0xbf (held ++ b ∷ []) bs rest ∙ append_assoc held (b ∷ []) bs)
  | inr outside ↦ absurd (ground (arith, valid, outside))
]

-- A text that is UTF-8 stays as it is.
pub from_utf8_lossy-utf8 : (bs : List ℕ) → is_utf8 bs ≡ true → from_utf8_lossy bs ≡ bs
unfolding is_utf8 from_utf8_lossy
from_utf8_lossy-utf8 bs valid = lossy_from-utf8 0 0 0 [] bs valid

abbrev pub is_ascii : List ℕ → Bool
is_ascii [] = true
is_ascii (b ∷ bs) = ltb b 0x80 && is_ascii bs

is_ascii-utf8 : (bs : List ℕ) → is_ascii bs ≡ true → utf8_from 0 0 0 bs ≡ true
unfolding utf8_from
is_ascii-utf8 [] ascii = refl
is_ascii-utf8 (b ∷ bs) ascii =
    let small : ltb b 0x80 ≡ true = ground (arith, ascii) in
    let rest : is_ascii bs ≡ true = ground (arith, ascii) in
    rw (small, utf8_from) (is_ascii-utf8 bs rest)

-- So does a text in ASCII.
pub from_utf8_lossy-ascii : (bs : List ℕ) → is_ascii bs ≡ true → from_utf8_lossy bs ≡ bs
unfolding is_utf8
from_utf8_lossy-ascii bs ascii = from_utf8_lossy-utf8 bs (is_ascii-utf8 bs ascii)
