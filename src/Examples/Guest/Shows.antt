-- ===== src/Examples/Guest/Shows.antt =====
-- examples/advanced/rust_program/src/main.rs: what the guest shows of the host's answer.
use mathlib.Core.Option
use mathlib.Core.List.{append_assoc}
use libriscv_rust_binding.Common.{
  ℕ, zero, suc, ◌+◌, ◌≤◌, ◌≡◌, refl, ap, ◌∙◌, subst, some, List, [], ◌∷◌, ◌++◌, arith, length, take,
  replicate,
}
use libriscv_rust_binding.Common.Utf8.{from_utf8_lossy-ascii}
use libriscv_rust_binding.Memory.{
  read_bytes, write_bytes, read_cells, write_cells-Holds, read_cells-Holds,
}
use libriscv_rust_binding.Examples.Text.{until_nul}
use libriscv_rust_binding.Examples.Layout.{Buffers, buffers_size, buffers_to_bytes}
use libriscv_rust_binding.Examples.Layout.RoundTrip.{IsBuffers, buffers-buffers, length-buffers}
use libriscv_rust_binding.Examples.Handlers.{Printed, hello_501, second}
use libriscv_rust_binding.Examples.Guest.{
  World, Ecalls, Places, store, say, request, ask_buffers, show_answer, host_function_501,
  show_buffers,
}

-- What the guest relies on: when the struct in its memory is the request, the host answers with the
-- first text and its length in the struct, the second text in the other buffer, and the length of
-- that; it prints nothing for the guest.
pub record Answers (host : Ecalls) (at : Places) : Type 0 where
  pub answer :
      (w : World)
      → read_bytes w.memory at.buffer buffers_size ≡ buffers_to_bytes (request at)
      → let w' = host.ecall 501 at.buffer w in
        (b : Buffers) × IsBuffers b
        × (b.count ≡ 29)
        × (until_nul b.buffer ≡ some hello_501)
        × (b.another_count ≡ 38)
        × (read_bytes w'.memory at.buffer buffers_size ≡ buffers_to_bytes b)
        × (read_bytes w'.memory at.another_buf 38 ≡ second)
        × (w'.output ≡ w.output)

-- The C string at the start of a buffer is as many of its bytes.
pub take-until_nul :
    (bytes text : List ℕ) → until_nul bytes ≡ some text → take (length text) bytes ≡ text
take-until_nul bytes [] held = refl
take-until_nul [] (c ∷ text) held = absurd (ground (arith, held))
take-until_nul (b ∷ bytes) (c ∷ text) held = ground (arith, held, take-until_nul bytes text)

pub take-read_cells :
    (f : ℕ → ℕ) (p n k : ℕ) → n ≤ k → take n (read_cells 1 f p k) ≡ read_cells 1 f p n
take-read_cells f p zero k le = refl
take-read_cells f p (suc n) zero le = absurd (omega arith)
take-read_cells f p (suc n) (suc k) le =
    ap (λ l. f p ∷ l) (take-read_cells f (p + 1) n k (omega arith))

pub read-store :
    (p : ℕ) (bytes : List ℕ) (w : World)
    → read_bytes (store p bytes w).memory p (length bytes) ≡ bytes
read-store p bytes w =
    read_cells-Holds 1 (write_bytes w.memory p bytes).byte p bytes
      (write_cells-Holds 1 w.memory.byte p bytes (omega arith))

module _ (host : Ecalls) (at : Places) where
  ask_buffers-asked :
      (w : World)
      → (read_bytes (ask_buffers host at w).memory at.buffer buffers_size
          ≡ buffers_to_bytes (request at))
        × ((ask_buffers host at w).output ≡ w.output)
  unfolding ask_buffers
  ask_buffers-asked w =
      let before : World = store at.another_buf (replicate 256 0) w in
      (
        subst
            (λ n.
              read_bytes (store at.buffer (buffers_to_bytes (request at)) before).memory at.buffer n
              ≡ buffers_to_bytes (request at))
            (length-buffers (request at) refl)
            (read-store at.buffer (buffers_to_bytes (request at)) before),
        refl,
      )

  show_answer-shows :
      (b : Buffers) (w : World)
      → IsBuffers b
      → b.count ≡ 29
      → until_nul b.buffer ≡ some hello_501
      → b.another_count ≡ 38
      → read_bytes w.memory at.buffer buffers_size ≡ buffers_to_bytes b
      → read_bytes w.memory at.another_buf 38 ≡ second
      → show_answer host at w
        ≡ some (
            say
              (Printed.stdout_text "Another Buffer: " second)
              (say (Printed.stdout_text "Buffer: " hello_501) w))
  unfolding show_answer Option.bind
  show_answer-shows b w is count held another_count answer other =
      let inner : take 29 b.buffer ≡ hello_501 = take-until_nul b.buffer hello_501 held in
      let outer : take 38 (read_bytes w.memory at.another_buf 256) ≡ second =
        take-read_cells w.memory.byte at.another_buf 38 256 (omega arith) ∙ other in
      let plain = from_utf8_lossy-ascii hello_501 refl in
      let other_plain = from_utf8_lossy-ascii second refl in
      rw (answer, buffers-buffers b is, count, another_count, inner, outer, plain, other_plain) refl

  -- When the host answers, the guest shows the two texts of the answer, whole and without the NULs
  -- behind them, and does not panic.
  pub show_buffers-prints :
      (w : World)
      → Answers host at
      → (w' : World) × (show_buffers host at w ≡ some w')
        × (w'.output
            ≡ w.output
              ++ Printed.stdout_text "Buffer: " hello_501
                ∷ Printed.stdout_text "Another Buffer: " second
                ∷ [])
  unfolding show_buffers host_function_501
  show_buffers-prints w a =
      let (asked, quiet) = ask_buffers-asked w in
      let (b, is, count, held, another_count, answer, other, output) =
        a.answer (ask_buffers host at w) asked in
      let w' : World = host.ecall 501 at.buffer (ask_buffers host at w) in
      let texts = Printed.stdout_text "Another Buffer: " second ∷ [] in
      (
        _,
        show_answer-shows b w' is count held another_count answer other,
        ap (λ o. (o ++ Printed.stdout_text "Buffer: " hello_501 ∷ []) ++ texts) (output ∙ quiet)
            ∙ append_assoc w.output (Printed.stdout_text "Buffer: " hello_501 ∷ []) texts,
      )
