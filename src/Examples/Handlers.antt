-- ===== src/Examples/Handlers.antt =====
-- examples/advanced_syscalls.rs: the callbacks and the system call handlers of the module
-- `host_syscalls`. What they print is a list of events, with a text as the bytes of its UTF-8.
-- `usize` has 64 bits.
pub mod Prints
pub mod Texts
pub mod Fills
pub mod Scales
pub mod Bounded
use libriscv_rust_binding.Common.{
  ℕ, ◌+◌, ◌*◌, ℤ, min, String, Bool, Option, none, some, List, [], ◌∷◌, ◌++◌, ok, err, ltb, leb,
  ◌==◌, if◌then◌else◌, u32_max, length, take,
}
use libriscv_rust_binding.Common.Utf8.{from_utf8_lossy}
use libriscv_rust_binding.Memory.{Memory}
use libriscv_rust_binding.Sys.{Host, Sys}
use libriscv_rust_binding.Slice.{Slice, contents}
use libriscv_rust_binding.Error.{Fallible}
use libriscv_rust_binding.Error.Action.{Action, pure, on_memory, ◌>>=◌, ◌>>◌}
use libriscv_rust_binding.Callbacks.{ErrorContext, StdoutContext}
use libriscv_rust_binding.Syscall.Context.{
  SyscallContext, SyscallRegisters, registers, memstring, writable_memview, read_pod, write_pod,
}
use libriscv_rust_binding.Syscall.Context.Registers.{x, f32, set_f32}
use libriscv_rust_binding.Examples.Text.{write_c_string, write_c_string_at}
use libriscv_rust_binding.Examples.Layout.{
  Strings, strings_size, strings_from_bytes, Buffers, buffers_size, buffers_to_bytes,
  buffers_from_bytes,
}

-- `println!`, `print!` and `eprintln!`: the words of the source, and what they are filled with.
pub data Printed : Type 0 where
  stdout : String → Printed
  stdout_text : String → List ℕ → Printed
  stderr : String → Printed
  stdout_status : String → ℤ → Printed
  stdout_floats : String → (x y z : ℕ) → Printed
  stderr_error : List ℕ → ℤ → Printed
  stderr_usage : (program : List ℕ) → String → Printed

-- "<null>"
abbrev pub null_text : List ℕ
null_text = 60 ∷ 110 ∷ 117 ∷ 108 ∷ 108 ∷ 62 ∷ []

unfoldable pub error_callback : ErrorContext → List Printed
error_callback ctx =
    let text : List ℕ = elim ctx.message [ none ↦ null_text | some s ↦ from_utf8_lossy s ] in
    Printed.stderr_error text ctx.value ∷ []

unfoldable pub stdout_callback : StdoutContext → List Printed
stdout_callback ctx =
    if length ctx.bytes == 0
    then []
    else (Printed.stdout_text "[libriscv] stdout: " (from_utf8_lossy ctx.bytes) ∷ [])

-- The host, what was printed, and `HOST_FN_ADDR`.
pub record App (F : Type 0) : Type 0 where
  pub host : Host F
  pub output : List Printed
  pub host_fn_addr : ℕ

abbrev pub on_host : {F A : Type 0} → Action (Host F) A → Action (App F) A
on_host f s = let (r, h) = f s.host in (r, record s { host = h })

abbrev pub print : {F : Type 0} → Printed → Action (App F) (Unit {0})
print event s = (ok tt, record s { output = s.output ++ event ∷ [] })

-- b"Hello from host function 501!"
abbrev pub hello_501 : List ℕ
hello_501 =
    72 ∷ 101 ∷ 108 ∷ 108 ∷ 111 ∷ 32 ∷ 102 ∷ 114 ∷ 111 ∷ 109 ∷ 32 ∷ 104 ∷ 111 ∷ 115 ∷ 116 ∷ 32 ∷ 102
    ∷ 117 ∷ 110 ∷ 99 ∷ 116 ∷ 105 ∷ 111 ∷ 110 ∷ 32 ∷ 53 ∷ 48 ∷ 49 ∷ 33 ∷ []

-- b"Another buffer from host function 501!"
abbrev pub second : List ℕ
second =
    65 ∷ 110 ∷ 111 ∷ 116 ∷ 104 ∷ 101 ∷ 114 ∷ 32 ∷ 98 ∷ 117 ∷ 102 ∷ 102 ∷ 101 ∷ 114 ∷ 32 ∷ 102 ∷ 114
    ∷ 111 ∷ 109 ∷ 32 ∷ 104 ∷ 111 ∷ 115 ∷ 116 ∷ 32 ∷ 102 ∷ 117 ∷ 110 ∷ 99 ∷ 116 ∷ 105 ∷ 111 ∷ 110
    ∷ 32 ∷ 53 ∷ 48 ∷ 49 ∷ 33 ∷ []

-- The arithmetic of `f32` on bit patterns.
pub record Float32 : Type 0 where
  pub one : ℕ
  pub add : ℕ → ℕ → ℕ
  pub mul : ℕ → ℕ → ℕ
  pub div : ℕ → ℕ → ℕ
  pub sqrt : ℕ → ℕ
  pub is_positive : ℕ → Bool

-- The `match` of `host_function_500`: a string that cannot be read is left out.
unfoldable pub print_slice : {F : Type 0} → Fallible Slice → Action (App F) (Unit {0})
print_slice (ok slice) s =
    print (Printed.stdout_text "  " (from_utf8_lossy (contents s.host.memory slice))) s
print_slice (err e) s = (ok tt, s)

module _ {F : Type 0} (sys : Sys F) (ctx : SyscallContext) where
  -- One turn of the loop of `host_function_500`.
  unfoldable pub print_string : ℕ → Action (App F) (Unit {0})
  unfolding print_slice
  print_string src s =
      let (answer, h) = memstring sys ctx src 256 s.host in
      print_slice answer (record s { host = h })

  unfoldable pub print_strings : List ℕ → Action (App F) (Unit {0})
  unfolding print_string
  print_strings [] = pure tt
  print_strings (src ∷ rest) = print_string src >> print_strings rest

  -- `ctx.registers()?.x(10)?`
  unfoldable pub first_argument : Action (App F) ℕ
  first_argument = do regs ← on_host (registers sys ctx); on_host (on_memory (x regs 10))

  unfoldable pub host_function_500 : Action (App F) (Unit {0})
  unfolding first_argument
  host_function_500 = do
    print (Printed.stdout "Hello from host function 0!")
    addr ← first_argument
    bytes ← on_host (read_pod sys ctx strings_size addr)
    let strings = strings_from_bytes bytes
    let count = min strings.count (length strings.strings)
    print_strings (take count strings.strings)

  -- The part of `host_function_501` behind the test for an empty buffer.
  unfoldable pub write_another : (addr : ℕ) → Buffers → Action (App F) (Unit {0})
  write_another addr buf =
      let another_len = buf.another_count in
      if ltb u32_max another_len
      then (do
        print (Printed.stderr "host_function_501: another buffer too large")
        on_host (write_pod sys ctx addr (buffers_to_bytes buf)))
      else (do
        another_slice ← on_host (writable_memview sys ctx buf.another_buffer_address another_len)
        if leb another_len (length second)
            then (do
              print (Printed.stderr "host_function_501: another buffer too small")
              on_host (write_pod sys ctx addr (buffers_to_bytes buf)))
            else (do
              len ← on_host (on_memory (write_c_string_at another_slice second))
              on_host
                  (write_pod sys ctx addr (buffers_to_bytes (record buf { another_count = len })))))

  unfoldable pub host_function_501 : Action (App F) (Unit {0})
  unfolding first_argument write_another
  host_function_501 = do
    print (Printed.stdout "Hello from host function 501!")
    addr ← first_argument
    bytes ← on_host (read_pod sys ctx buffers_size addr)
    let given = buffers_from_bytes bytes
    let (len, buffer) = write_c_string given.buffer hello_501
    let buf = record given { count = len; buffer = buffer }
    if buf.another_count == 0
        then on_host (write_pod sys ctx addr (buffers_to_bytes buf))
        else write_another addr buf

  unfoldable pub host_function_502 : Action (App F) (Unit {0})
  unfolding first_argument
  host_function_502 = do addr ← first_argument; λ s. (ok tt, record s { host_fn_addr = addr })

  unfoldable pub host_function_503 : Float32 → Action (App F) (Unit {0})
  host_function_503 float = do
    regs ← on_host (registers sys ctx)
    a ← on_host (on_memory (f32 regs 10))
    b ← on_host (on_memory (f32 regs 11))
    c ← on_host (on_memory (f32 regs 12))
    let len = float.sqrt (float.add (float.add (float.mul a a) (float.mul b b)) (float.mul c c))
    let inv = float.div float.one len
    let scale = λ (v : ℕ). if float.is_positive len then float.mul v inv else v
    on_host (on_memory (set_f32 regs 10 (scale a)))
    on_host (on_memory (set_f32 regs 11 (scale b)))
    on_host (on_memory (set_f32 regs 12 (scale c)))
