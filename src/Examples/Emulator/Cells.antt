-- ===== src/Examples/Emulator/Cells.antt =====
-- Rows of bytes that are seen at an offset, and beside a write.
use libriscv_rust_binding.Common.{
  ℕ, zero, suc, ◌+◌, ◌≤◌, ◌≡◌, refl, ap₂, subst, ◌⊎◌, inl, inr, List, ◌∷◌, arith, length,
}
use libriscv_rust_binding.Memory.{read_cells, write_cells, write_cells-below, write_cells-above}

pub read_cells-shift :
    (f g : ℕ → ℕ) (base p n : ℕ)
    → ((q : ℕ) → g (base + q) ≡ f q)
    → read_cells 1 g (base + p) n ≡ read_cells 1 f p n
read_cells-shift f g base p zero same = refl
read_cells-shift f g base p (suc n) same =
    ap₂ (λ (b : ℕ) (bs : List ℕ). b ∷ bs) (same p)
      (subst (λ q. read_cells 1 g q n ≡ read_cells 1 f (p + 1) n) (omega arith)
        (read_cells-shift f g base (p + 1) n same))

pub read_cells-apart :
    (f : ℕ → ℕ) (p : ℕ) (xs : List ℕ) (q n : ℕ)
    → (q + n ≤ p) ⊎ (p + length xs ≤ q)
    → read_cells 1 (write_cells 1 f p xs) q n ≡ read_cells 1 f q n
read_cells-apart f p xs q zero apart = refl
read_cells-apart f p xs q (suc n) (inl before) =
    ap₂ (λ (b : ℕ) (bs : List ℕ). b ∷ bs) (write_cells-below 1 f p xs q (omega arith))
      (read_cells-apart f p xs (q + 1) n (inl (omega arith)))
read_cells-apart f p xs q (suc n) (inr behind) =
    ap₂ (λ (b : ℕ) (bs : List ℕ). b ∷ bs) (write_cells-above 1 f p xs q (omega arith) (omega arith))
      (read_cells-apart f p xs (q + 1) n (inr (omega arith)))
