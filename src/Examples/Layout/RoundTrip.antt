-- ===== src/Examples/Layout/RoundTrip.antt =====
-- examples/advanced_syscalls.rs: the shared structs to bytes and back.
use native.Mathlib.Nat.{pow-suc}
use libriscv_rust_binding.Common.{
  ℕ, zero, suc, ◌*◌, ◌/◌, ◌^◌, ◌<◌, ◌≡◌, refl, ap, ap₂, sym, List, [], ◌∷◌, ◌++◌, take, drop,
  length, length-append, take-append, drop-append, arith,
}
use libriscv_rust_binding.Examples.Layout.{
  to_le, from_le, words_to_bytes, words_from_bytes, Strings, strings_size, strings_to_bytes,
  strings_from_bytes, Buffers, buffers_size, buffers_to_bytes, buffers_from_bytes,
}

length-to_le : (size n : ℕ) → length (to_le size n) ≡ size
length-to_le zero n = refl
length-to_le (suc size) n = ap suc (length-to_le size (n / 256))

from_le-to_le : (size n : ℕ) → n < 256 ^ size → from_le (to_le size n) ≡ n
from_le-to_le zero n h = omega arith
from_le-to_le (suc size) n h =
    let small : n / 256 < 256 ^ size = omega (arith, pow-suc 256 size) in
    omega (arith, from_le-to_le size (n / 256) small)

-- A number at the start of the bytes.
to_le-append :
    (n : ℕ) (rest : List ℕ)
    → n < 2 ^ 64
    → (from_le (take 8 (to_le 8 n ++ rest)) ≡ n) × (drop 8 (to_le 8 n ++ rest) ≡ rest)
to_le-append n rest h = (from_le-to_le 8 n h, refl)

-- Each of the words is a `u64`.
abbrev pub AllWords : List ℕ → Type 0
AllWords [] = Unit
AllWords (w ∷ ws) = (w < 2 ^ 64) × AllWords ws

words_from_bytes-words_to_bytes :
    (ws : List ℕ) (count : ℕ)
    → count ≡ length ws
    → AllWords ws
    → words_from_bytes count (words_to_bytes ws) ≡ ws
words_from_bytes-words_to_bytes [] zero e h = refl
words_from_bytes-words_to_bytes [] (suc count) e h = absurd (omega arith)
words_from_bytes-words_to_bytes (w ∷ ws) zero e h = absurd (omega arith)
words_from_bytes-words_to_bytes (w ∷ ws) (suc count) e h =
    ap₂ (λ (v : ℕ) (vs : List ℕ). v ∷ vs) (to_le-append w (words_to_bytes ws) h.0).0
      (words_from_bytes-words_to_bytes ws count (omega arith) h.1)

-- The ranges and lengths that the types of the fields state.
pub record IsStrings (s : Strings) : Type 0 where
  pub count_small : s.count < 2 ^ 64
  pub strings_length : length s.strings ≡ 32
  pub strings_words : AllWords s.strings

pub record IsBuffers (b : Buffers) : Type 0 where
  pub count_small : b.count < 2 ^ 64
  pub buffer_length : length b.buffer ≡ 256
  pub another_count_small : b.another_count < 2 ^ 64
  pub another_buffer_address_small : b.another_buffer_address < 2 ^ 64

pub length-words_to_bytes : (ws : List ℕ) → length (words_to_bytes ws) ≡ 8 * length ws
length-words_to_bytes [] = refl
length-words_to_bytes (w ∷ ws) =
    omega (arith, length-append (to_le 8 w) (words_to_bytes ws), length-words_to_bytes ws)

pub length-strings : (s : Strings) → IsStrings s → length (strings_to_bytes s) ≡ strings_size
unfolding strings_to_bytes
length-strings s is = omega (
  arith,
  length-append (to_le 8 s.count) (words_to_bytes s.strings),
  length-words_to_bytes s.strings,
  is.strings_length,
)

pub length-buffers :
    (b : Buffers) → length b.buffer ≡ 256 → length (buffers_to_bytes b) ≡ buffers_size
unfolding buffers_to_bytes
length-buffers b full =
    let tail = to_le 8 b.another_count ++ to_le 8 b.another_buffer_address in
    omega (arith, length-append b.buffer tail)

pub strings-strings : (s : Strings) → IsStrings s → strings_from_bytes (strings_to_bytes s) ≡ s
unfolding strings_from_bytes strings_to_bytes
strings-strings s is = λ i. record {
  count = (to_le-append s.count (words_to_bytes s.strings) is.count_small).0 i;
  strings = words_from_bytes-words_to_bytes s.strings 32 (sym is.strings_length) is.strings_words i;
}

tail_lem :
    (b : Buffers)
    → IsBuffers b
    → (take 256 (drop 8 (buffers_to_bytes b)) ≡ b.buffer)
      × (drop 256 (drop 8 (buffers_to_bytes b))
          ≡ to_le 8 b.another_count ++ to_le 8 b.another_buffer_address)
unfolding buffers_to_bytes
tail_lem b is =
    let rest = to_le 8 b.another_count ++ to_le 8 b.another_buffer_address in
    (
      take-append b.buffer rest 256 (sym is.buffer_length),
      drop-append b.buffer rest 256 (sym is.buffer_length),
    )

pub buffers-buffers : (b : Buffers) → IsBuffers b → buffers_from_bytes (buffers_to_bytes b) ≡ b
unfolding buffers_from_bytes buffers_to_bytes
buffers-buffers b is =
    let (inner, tail) = tail_lem b is in
    let last = to_le 8 b.another_buffer_address in
    let body = b.buffer ++ (to_le 8 b.another_count ++ last) in
    rw (inner, tail)
      (λ i. record {
        count = (to_le-append b.count body is.count_small).0 i;
        buffer = b.buffer;
        another_count = (to_le-append b.another_count last is.another_count_small).0 i;
        another_buffer_address =
            from_le-to_le 8 b.another_buffer_address is.another_buffer_address_small i;
      })
