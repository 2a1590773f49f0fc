-- ===== src/Examples/Layout.antt =====
-- examples/advanced_syscalls.rs: the structs that the host and the guest share, as values. The
-- functions to and from bytes stand for no code of the repository: they say what the memory of such a
-- struct holds, which is what bytemuck's views of it show. The language lays the structs out like this:
-- `repr(C)`, the fields in their order, here without padding, and each number as on a little-endian host.
pub mod RoundTrip
pub mod Shared
use libriscv_rust_binding.Common.{ℕ, zero, suc, ◌+◌, ◌*◌, ◌/◌, ◌%◌, List, [], ◌∷◌, ◌++◌, take, drop}

-- The bytes of a number, the lowest first.
abbrev pub to_le : (size : ℕ) → ℕ → List ℕ
to_le zero n = []
to_le (suc size) n = n % 256 ∷ to_le size (n / 256)

abbrev pub from_le : List ℕ → ℕ
from_le [] = 0
from_le (b ∷ bs) = b + 256 * from_le bs

-- An array of `u64`.
abbrev pub words_to_bytes : List ℕ → List ℕ
words_to_bytes [] = []
words_to_bytes (w ∷ ws) = to_le 8 w ++ words_to_bytes ws

abbrev pub words_from_bytes : (count : ℕ) → List ℕ → List ℕ
words_from_bytes zero bs = []
words_from_bytes (suc count) bs = from_le (take 8 bs) ∷ words_from_bytes count (drop 8 bs)

-- `strings` has 32 elements.
pub record Strings : Type 0 where
  pub count : ℕ
  pub strings : List ℕ

abbrev pub strings_size : ℕ
strings_size = 264

unfoldable pub strings_to_bytes : Strings → List ℕ
strings_to_bytes s = to_le 8 s.count ++ words_to_bytes s.strings

unfoldable pub strings_from_bytes : List ℕ → Strings
strings_from_bytes bs = record {
  count = from_le (take 8 bs);
  strings = words_from_bytes 32 (drop 8 bs);
}

-- `buffer` has 256 elements.
pub record Buffers : Type 0 where
  pub count : ℕ
  pub buffer : List ℕ
  pub another_count : ℕ
  pub another_buffer_address : ℕ

abbrev pub buffers_size : ℕ
buffers_size = 280

unfoldable pub buffers_to_bytes : Buffers → List ℕ
buffers_to_bytes b =
    to_le 8 b.count ++ (b.buffer ++ (to_le 8 b.another_count ++ to_le 8 b.another_buffer_address))

unfoldable pub buffers_from_bytes : List ℕ → Buffers
buffers_from_bytes bs =
    let rest = drop 8 bs in
    let tail = drop 256 rest in
    record {
      count = from_le (take 8 bs);
      buffer = take 256 rest;
      another_count = from_le (take 8 tail);
      another_buffer_address = from_le (drop 8 tail);
    }
