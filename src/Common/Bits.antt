-- ===== src/Common/Bits.antt =====
-- The bit operations at variables: `&` with a mask of low ones is a remainder, and the low bits of
-- `|` are zero when those of both operands are.
use Prim.Native.Nat.{digits, bit_and-bitwise, bit_or-bitwise}
use Prim.Native.Nat.{ℕ, zero, suc, ◌+◌, ◌*◌, ◌/◌, ◌%◌, ◌^◌, ◌≤◌, ◌<◌, min, max, bit_and, bit_or}
use mathlib.Core.Path.{◌≡◌, refl, ap, sym, ◌∙◌}
use mathlib.Core.Logic.{◌↔◌}
use native.Mathlib.Nat.{
  pow-suc, one-le-pow, mod-lt, mod-eq_of_lt, add-mul-mod_self_left, div-add-mod,
}
use native.Mathlib.Omega.{arith}

module _ (rest : ℕ → ℕ) (f : ℕ → ℕ → ℕ) where
  digits-zero : (k b : ℕ) → digits rest f k 0 b ≡ rest b
  digits-zero zero b = refl
  digits-zero (suc k) b = refl

  -- The recursion on binary digits does not depend on its fuel.
  digits-fuel : (k l a b : ℕ) → a ≤ k → a ≤ l → digits rest f k a b ≡ digits rest f l a b
  digits-fuel k l zero b p q = digits-zero k b ∙ sym (digits-zero l b)
  digits-fuel zero l (suc a) b p q = absurd (omega arith)
  digits-fuel (suc k) zero (suc a) b p q = absurd (omega arith)
  digits-fuel (suc k) (suc l) (suc a) b p q =
      ap (λ (t : ℕ). t * 2 + f (suc a % 2) (b % 2))
        (digits-fuel k l (suc a / 2) (b / 2) (omega arith) (omega arith))

  digits-step :
      (a b : ℕ)
      → digits rest f (suc a) (suc a) b
        ≡ digits rest f (suc a / 2) (suc a / 2) (b / 2) * 2 + f (suc a % 2) (b % 2)
  digits-step a b =
      ap (λ (t : ℕ). t * 2 + f (suc a % 2) (b % 2))
        (digits-fuel a (suc a / 2) (suc a / 2) (b / 2) (omega arith) (omega arith))

bit_and-halves : (a b : ℕ) → bit_and a b ≡ bit_and (a / 2) (b / 2) * 2 + min (a % 2) (b % 2)
bit_and-halves zero b = omega (arith, bit_and-bitwise 0 b, bit_and-bitwise 0 (b / 2))
bit_and-halves (suc a) b =
    bit_and-bitwise (suc a) b
    ∙ digits-step (λ _. 0) min a b
    ∙ ap (λ (t : ℕ). t * 2 + min (suc a % 2) (b % 2)) (sym (bit_and-bitwise (suc a / 2) (b / 2)))

bit_or-halves : (a b : ℕ) → bit_or a b ≡ bit_or (a / 2) (b / 2) * 2 + max (a % 2) (b % 2)
bit_or-halves zero b = omega (arith, bit_or-bitwise 0 b, bit_or-bitwise 0 (b / 2))
bit_or-halves (suc a) b =
    bit_or-bitwise (suc a) b
    ∙ digits-step (λ y. y) max a b
    ∙ ap (λ (t : ℕ). t * 2 + max (suc a % 2) (b % 2)) (sym (bit_or-bitwise (suc a / 2) (b / 2)))

bit_and-zero_below : (n a : ℕ) → a ≤ n → bit_and a 0 ≡ 0
bit_and-zero_below n zero h = refl
bit_and-zero_below zero (suc a) h = absurd (omega arith)
bit_and-zero_below (suc n) (suc a) h =
    omega (arith, bit_and-halves (suc a) 0, bit_and-zero_below n (suc a / 2) (omega arith))

-- The mask of the k lowest bits, 2 ^ k - 1.
abbrev pub low_mask : ℕ → ℕ
low_mask zero = 0
low_mask (suc k) = low_mask k * 2 + 1

low_mask-halves : (k : ℕ) → (low_mask (suc k) / 2 ≡ low_mask k) × (low_mask (suc k) % 2 ≡ 1)
low_mask-halves k = omega arith

-- The remainder of `q * 2 + r`, in which `r` is the lowest digit.
mod-pow-suc_of : (n q r k : ℕ) → n ≡ q * 2 + r → r < 2 → n % 2 ^ suc k ≡ q % 2 ^ k * 2 + r
mod-pow-suc_of n q r k e small =
    let low : ℕ = q % 2 ^ k in
    let high : ℕ = q / 2 ^ k in
    let double : 2 ^ suc k * high ≡ 2 ^ k * high * 2 = rw pow-suc (grind arith) in
    let split : n ≡ low * 2 + r + 2 ^ suc k * high = omega (arith, double, div-add-mod q (2 ^ k)) in
    let fits : low * 2 + r < 2 ^ suc k =
      omega (arith, pow-suc 2 k, mod-lt q (one-le-pow k 2 (omega arith))) in
    ap (λ (t : ℕ). t % 2 ^ suc k) split
    ∙ add-mul-mod_self_left (low * 2 + r) (2 ^ suc k) high
    ∙ mod-eq_of_lt fits

mod-pow-suc : (a k : ℕ) → a % 2 ^ suc k ≡ a / 2 % 2 ^ k * 2 + a % 2
mod-pow-suc a k = mod-pow-suc_of a (a / 2) (a % 2) k (omega arith) (omega arith)

bit_or-mod-pow-suc :
    (a b k : ℕ) → bit_or a b % 2 ^ suc k ≡ bit_or (a / 2) (b / 2) % 2 ^ k * 2 + max (a % 2) (b % 2)
bit_or-mod-pow-suc a b k =
    mod-pow-suc_of (bit_or a b) (bit_or (a / 2) (b / 2)) (max (a % 2) (b % 2)) k (bit_or-halves a b)
      (omega arith)

pub bit_and-low_mask : (k a : ℕ) → bit_and a (low_mask k) ≡ a % 2 ^ k
bit_and-low_mask zero a = omega (arith, bit_and-zero_below a a)
bit_and-low_mask (suc k) a =
    bit_and-halves a (low_mask (suc k))
    ∙ rw ((low_mask-halves k).0, (low_mask-halves k).1, bit_and-low_mask k (a / 2))
        (omega (arith, mod-pow-suc a k))

-- The k lowest bits of `a | b` are zero exactly when those of `a` and of `b` are.
pub bit_or-low_zero : (k a b : ℕ) → (bit_or a b % 2 ^ k ≡ 0) ↔ ((a % 2 ^ k ≡ 0) × (b % 2 ^ k ≡ 0))
bit_or-low_zero zero a b = (λ _. (omega arith, omega arith), λ _. omega arith)
bit_or-low_zero (suc k) a b =
    let (into, back) = bit_or-low_zero k (a / 2) (b / 2) in
    let facts = bit_or-mod-pow-suc a b k in
    (
      λ h.
          let (p, q) = into (omega (arith, facts)) in
          (
            omega (arith, p, facts, mod-pow-suc a k, mod-pow-suc b k),
            omega (arith, q, facts, mod-pow-suc a k, mod-pow-suc b k),
          ),
      λ (p, q).
          let h = back (omega (arith, p, mod-pow-suc a k), omega (arith, q, mod-pow-suc b k)) in
          omega (arith, h, facts, p, q, mod-pow-suc a k, mod-pow-suc b k),
    )

-- `a & !0xf` on 64 bits.
pub bit_and-aligned : (a : ℕ) → a < 2 ^ 64 → bit_and a 0xffff_ffff_ffff_fff0 ≡ a / 16 * 16
bit_and-aligned a small =
    let low : bit_and (a / 2 / 2 / 2 / 2) 0xfff_ffff_ffff_ffff ≡ a / 2 / 2 / 2 / 2 % 2 ^ 60 =
      bit_and-low_mask 60 (a / 2 / 2 / 2 / 2) in
    omega (
      arith,
      low,
      bit_and-halves a 0xffff_ffff_ffff_fff0,
      bit_and-halves (a / 2) 0x7fff_ffff_ffff_fff8,
      bit_and-halves (a / 2 / 2) 0x3fff_ffff_ffff_fffc,
      bit_and-halves (a / 2 / 2 / 2) 0x1fff_ffff_ffff_fffe,
    )
