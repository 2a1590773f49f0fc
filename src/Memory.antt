-- ===== src/Memory.antt =====
-- The host's memory as the wrapper and the C library share it: bytes, cells of the size of a
-- pointer or a `u64`, and register files, each kind at its own addresses. What has been allocated
-- lies below `limit`; an allocation takes the addresses from `limit` on, and nothing is reused.
mod Cells
pub mod Strings
pub use Cells.*
use libriscv_rust_binding.Common.{ℕ, ◌+◌, ◌*◌, ◌≤◌, ◌<◌, ◌≡◌, refl, List, arith, length}
use libriscv_rust_binding.Raw.{RiscvRegisters}

pub record Memory : Type 0 where
  pub byte : ℕ → ℕ
  pub word : ℕ → ℕ
  pub registers : ℕ → RiscvRegisters
  pub limit : ℕ

-- A new block with the given contents: its address, and the memory that holds it.
unfoldable pub alloc_bytes : List ℕ → Memory → ℕ × Memory
alloc_bytes bs m =
    (m.limit, record m { byte = write_cells 1 m.byte m.limit bs; limit = m.limit + length bs })

unfoldable pub alloc_words : List ℕ → Memory → ℕ × Memory
alloc_words ws m =
    (m.limit, record m { word = write_cells 8 m.word m.limit ws; limit = m.limit + 8 * length ws })

-- `std::slice::from_raw_parts(p, n)`, read out.
abbrev pub read_bytes : Memory → ℕ → ℕ → List ℕ
read_bytes m p n = read_cells 1 m.byte p n

-- `slice.copy_from_slice(bs)` on a slice that starts at `p`.
abbrev pub write_bytes : Memory → ℕ → List ℕ → Memory
write_bytes m p bs = record m { byte = write_cells 1 m.byte p bs }

-- A later memory: what was allocated is still there, with the same contents.
pub record Extends (m n : Memory) : Type 0 where
  pub limit_le : m.limit ≤ n.limit
  pub same_byte : (q : ℕ) → q < m.limit → n.byte q ≡ m.byte q
  pub same_word : (q : ℕ) → q < m.limit → n.word q ≡ m.word q

pub Extends-refl : (m : Memory) → Extends m m
Extends-refl m = record { limit_le = omega arith; same_byte = λ q h. refl; same_word = λ q h. refl }

pub Extends-trans : {l m n : Memory} → Extends l m → Extends m n → Extends l n
Extends-trans a b = record {
  limit_le = omega arith;
  same_byte = λ q h. ground (arith, a.same_byte q h, b.same_byte q);
  same_word = λ q h. ground (arith, a.same_word q h, b.same_word q);
}

pub alloc_bytes-Extends : (bs : List ℕ) (m : Memory) → Extends m (alloc_bytes bs m).1
unfolding alloc_bytes
alloc_bytes-Extends bs m = record {
  limit_le = omega arith;
  same_byte = λ q h. write_cells-below 1 m.byte m.limit bs q h;
  same_word = λ q h. refl;
}

pub alloc_words-Extends : (ws : List ℕ) (m : Memory) → Extends m (alloc_words ws m).1
unfolding alloc_words
alloc_words-Extends ws m = record {
  limit_le = omega arith;
  same_byte = λ q h. refl;
  same_word = λ q h. write_cells-below 8 m.word m.limit ws q h;
}
