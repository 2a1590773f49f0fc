-- ===== src/Memory/Cells.antt =====
-- Rows of cells of one size in a memory that is a function of the address.
use libriscv_rust_binding.Common.{
  ℕ, zero, suc, ◌+◌, ◌*◌, ◌≤◌, ◌<◌, ◌≡◌, refl, List, [], ◌∷◌, arith, ◌==◌, if◌then◌else◌, length,
  ◌∙◌, ap, false,
}

-- `n` cells from `p` on.
abbrev pub read_cells : (stride : ℕ) → (ℕ → ℕ) → ℕ → ℕ → List ℕ
read_cells stride f p zero = []
read_cells stride f p (suc n) = f p ∷ read_cells stride f (p + stride) n

abbrev pub write_cells : (stride : ℕ) → (ℕ → ℕ) → ℕ → List ℕ → ℕ → ℕ
write_cells stride f p [] q = f q
write_cells stride f p (x ∷ xs) q = if q == p then x else write_cells stride f (p + stride) xs q

-- The cells from `p` on hold `xs`.
abbrev pub Holds : (stride : ℕ) → (ℕ → ℕ) → ℕ → List ℕ → Type 0
Holds stride f p [] = Unit
Holds stride f p (x ∷ xs) = (f p ≡ x) × Holds stride f (p + stride) xs

module _ (stride : ℕ) where
  pub read_cells-Holds :
      (f : ℕ → ℕ) (p : ℕ) (xs : List ℕ)
      → Holds stride f p xs
      → read_cells stride f p (length xs) ≡ xs
  read_cells-Holds f p [] h = refl
  read_cells-Holds f p (x ∷ xs) h = rw (h.0, read_cells-Holds f (p + stride) xs h.1)

  pub length-read_cells : (f : ℕ → ℕ) (p n : ℕ) → length (read_cells stride f p n) ≡ n
  length-read_cells f p zero = refl
  length-read_cells f p (suc n) = ap suc (length-read_cells f (p + stride) n)

  -- Only the addresses of the cells themselves matter.
  pub Holds-congr :
      (f g : ℕ → ℕ) (p : ℕ) (xs : List ℕ)
      → ((q : ℕ) → p ≤ q → q < p + stride * length xs → g q ≡ f q)
      → 0 < stride
      → Holds stride f p xs
      → Holds stride g p xs
  Holds-congr f g p [] same big h = tt
  Holds-congr f g p (x ∷ xs) same big h = (
    same p (omega arith) (omega arith) ∙ h.0,
    Holds-congr f g (p + stride) xs (λ q lo hi. same q (omega arith) (omega arith)) big h.1,
  )

  pub write_cells-below :
      (f : ℕ → ℕ) (p : ℕ) (xs : List ℕ) (q : ℕ) → q < p → write_cells stride f p xs q ≡ f q
  write_cells-below f p [] q h = refl
  write_cells-below f p (x ∷ xs) q h = ground (arith, write_cells-below f (p + stride) xs q)

  pub write_cells-above :
      (f : ℕ → ℕ) (p : ℕ) (xs : List ℕ) (q : ℕ)
      → 0 < stride
      → p + stride * length xs ≤ q
      → write_cells stride f p xs q ≡ f q
  write_cells-above f p [] q big h = refl
  write_cells-above f p (x ∷ xs) q big h =
      let ne : (q == p) ≡ false = ground arith in
      rw ne (write_cells-above f (p + stride) xs q big (omega arith))

  pub write_cells-Holds :
      (f : ℕ → ℕ) (p : ℕ) (xs : List ℕ) → 0 < stride → Holds stride (write_cells stride f p xs) p xs
  write_cells-Holds f p [] big = tt
  write_cells-Holds f p (x ∷ xs) big = (
    ground arith,
    Holds-congr (write_cells stride f (p + stride) xs) _ (p + stride) xs
        (λ q lo hi. let ne : (q == p) ≡ false = ground arith in rw ne) big
        (write_cells-Holds f (p + stride) xs big),
  )
