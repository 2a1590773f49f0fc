-- ===== src/Examples/Guest.antt =====
-- examples/advanced/rust_program/src/main.rs: the guest program that calls the handlers of
-- examples/advanced_syscalls.rs. It runs in the emulator, over its own memory; a system call is what
-- the host makes of the registers and of that memory, a parameter. A panic is `none`.
pub mod Shows
use mathlib.Core.Option
use libriscv_rust_binding.Common.{
  ℕ, String, Option, none, some, List, [], ◌∷◌, ◌++◌, ltb, ◌==◌, if◌then◌else◌, replicate, take,
}
use libriscv_rust_binding.Common.Utf8.{from_utf8_lossy}
use libriscv_rust_binding.Raw.{null}
use libriscv_rust_binding.Memory.{Memory, read_bytes, write_bytes}
use libriscv_rust_binding.Memory.Strings.{c_str}
use libriscv_rust_binding.Examples.Layout.{
  Strings, strings_to_bytes, Buffers, buffers_size, buffers_to_bytes, buffers_from_bytes,
}
use libriscv_rust_binding.Examples.Handlers.{Printed}

pub record World : Type 0 where
  pub memory : Memory
  pub output : List Printed

-- `ecall`: what it does for the number in `a7` and the argument in `a0`, or the three in `fa0` to `fa2`.
pub record Ecalls : Type 0 where
  pub ecall : (a7 a0 : ℕ) → World → World
  pub ecall_floats : (a7 : ℕ) → (x y z : ℕ) → World → (ℕ × ℕ × ℕ) × World

-- Where the compiler puts the statics, the locals and the function.
pub record Places : Type 0 where
  pub hello : ℕ
  pub world : ℕ
  pub strings : ℕ
  pub another_buf : ℕ
  pub buffer : ℕ
  pub my_function : ℕ

abbrev pub say : Printed → World → World
say event w = record w { output = w.output ++ event ∷ [] }

abbrev pub store : ℕ → List ℕ → World → World
store p bytes w = record w { memory = write_bytes w.memory p bytes }

-- The host calls this one; a string without an end is a panic here.
unfoldable pub my_function : (ptr : ℕ) → World → Option World
my_function ptr w = if ptr == null then some w else elim (c_str w.memory ptr) [
  | none ↦ none
  | some text ↦ some (say (Printed.stdout_text "Host says: " (from_utf8_lossy text)) w)
]

-- b"Hello\0" and b"World\0".
abbrev pub hello_text : List ℕ
hello_text = 72 ∷ 101 ∷ 108 ∷ 108 ∷ 111 ∷ 0 ∷ []

abbrev pub world_text : List ℕ
world_text = 87 ∷ 111 ∷ 114 ∷ 108 ∷ 100 ∷ 0 ∷ []

-- `Buffer` before the call: everything is zero but the other buffer and its length.
abbrev pub request : Places → Buffers
request at = record {
  count = 0;
  buffer = replicate 256 0;
  another_count = 256;
  another_buffer_address = at.another_buf;
}

-- `if len > 0 { println!(…, String::from_utf8_lossy(&bytes[..len])) }` for an array of 256 bytes: a larger `len` panics.
unfoldable pub show : (before : String) → (bytes : List ℕ) → (len : ℕ) → World → Option World
show before bytes len w =
    if ltb 0 len
    then (if ltb 256 len
        then none
        else some (say (Printed.stdout_text before (from_utf8_lossy (take len bytes))) w))
    else some w

module _ (at : Places) where
  -- The two strings, and the struct that names them.
  abbrev pub sent : Strings
  sent = record { count = 2; strings = at.hello ∷ at.world ∷ replicate 30 0 }

  unfoldable pub store_strings : World → World
  store_strings w =
      store at.strings (strings_to_bytes sent)
        (store at.world world_text (store at.hello hello_text w))

module _ (host : Ecalls) where
  unfoldable pub host_function_500 : (strings : ℕ) → World → World
  host_function_500 strings = host.ecall 500 strings

  unfoldable pub host_function_501 : (buffer : ℕ) → World → World
  host_function_501 buffer = host.ecall 501 buffer

  unfoldable pub host_function_502 : (func : ℕ) → World → World
  host_function_502 func = host.ecall 502 func

  unfoldable pub host_function_503 : (x y z : ℕ) → World → (ℕ × ℕ × ℕ) × World
  host_function_503 = host.ecall_floats 503

  module _ (at : Places) where
    unfoldable pub send_strings : World → World
    unfolding host_function_500 store_strings
    send_strings w = host_function_500 at.strings (store_strings at w)

    -- The two buffers, and the call that fills them.
    unfoldable pub ask_buffers : World → World
    ask_buffers w =
        store at.buffer (buffers_to_bytes (request at)) (store at.another_buf (replicate 256 0) w)

    -- What the host wrote into them.
    unfoldable pub show_answer : World → Option World
    unfolding show
    show_answer w =
        let buffer = buffers_from_bytes (read_bytes w.memory at.buffer buffers_size) in
        let another_buf = read_bytes w.memory at.another_buf 256 in
        Option.bind (show "Buffer: " buffer.buffer buffer.count w)
          (show "Another Buffer: " another_buf buffer.another_count)

    unfoldable pub show_buffers : World → Option World
    unfolding ask_buffers host_function_501 show_answer
    show_buffers w = show_answer (host_function_501 at.buffer (ask_buffers w))

    -- 0.0 and 3.0 are the bit patterns 0 and 0x40400000.
    unfoldable pub main : World → Option World
    unfolding send_strings show_buffers host_function_502 host_function_503
    main w =
        let w = send_strings (say (Printed.stdout "Hello, Micro RISC-V World!") w) in
        Option.map
          (λ w.
            let ((x, y, z), w) =
              host_function_503 0 0x4040_0000 0 (host_function_502 at.my_function w) in
            say (Printed.stdout_floats "Normalized vector: " x y z) w)
          (show_buffers w)
