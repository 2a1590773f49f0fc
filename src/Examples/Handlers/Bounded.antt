-- ===== src/Examples/Handlers/Bounded.antt =====
-- examples/advanced_syscalls.rs: how often the handlers call the C library, at most.
use libriscv_rust_binding.Common.{
  ℕ, zero, suc, ◌+◌, ◌≤◌, min, List, [], ◌∷◌, ok, err, arith, length, take, ltb, leb, ◌==◌, u32_max,
}
use libriscv_rust_binding.Memory.{Memory}
use libriscv_rust_binding.Slice.{Slice}
use libriscv_rust_binding.Sys.{Host, Sys}
use libriscv_rust_binding.Error.{Fallible}
use libriscv_rust_binding.Error.Action.{Action, on_memory}
use libriscv_rust_binding.Syscall.Context.{SyscallContext, memstring, write_pod}
use libriscv_rust_binding.Syscall.Context.Registers.{x, f32, set_f32}
use libriscv_rust_binding.Examples.Text.{write_c_string, write_c_string_at}
use libriscv_rust_binding.Examples.Layout.{
  strings_size, strings_from_bytes, Buffers, buffers_size, buffers_to_bytes, buffers_from_bytes,
}
use libriscv_rust_binding.Examples.Handlers.{
  Printed, App, second, hello_501, Float32, on_host, print, print_slice, print_string,
  print_strings, first_argument, write_another, host_function_500, host_function_501,
  host_function_502, host_function_503,
}
use libriscv_rust_binding.Error.Costs.{Costs, after, either, relax}
use libriscv_rust_binding.Syscall.Context.Calls.{
  Meter, on, registers-Costs, memstring-Costs, writable_memview-Costs, read_pod-Costs,
  write_pod-Costs,
}

length-take-le {ℓ} : {A : Type ℓ} (n : ℕ) (xs : List A) → length (take n xs) ≤ length xs
length-take-le zero xs = omega arith
length-take-le (suc n) [] = omega arith
length-take-le (suc n) (x ∷ xs) = omega (arith, length-take-le n xs)

module _ {F : Type 0} (sys : Sys F) (ctx : SyscallContext) (meter : Meter sys ctx.machine) where
  -- The calls up to a state of the program.
  abbrev pub calls : App F → ℕ
  calls s = meter.count s.host.foreign

  on_host-Costs :
      {A : Type 0} {f : Action (Host F) A} {n : ℕ}
      → Costs (on sys ctx meter) n f
      → Costs calls n (on_host f)
  on_host-Costs once = record { bound = λ s. once.bound s.host }

  on_memory-Costs : {A : Type 0} (f : Action Memory A) → Costs calls 0 (on_host (on_memory f))
  on_memory-Costs f = record { bound = λ s. omega arith }

  print-Costs : {event : Printed} → Costs calls 0 (print event)
  print-Costs = record { bound = λ s. omega arith }

  print_slice-Costs : (r : Fallible Slice) → Costs calls 0 (print_slice r)
  unfolding print_slice
  print_slice-Costs (ok slice) = record { bound = λ s. omega arith }
  print_slice-Costs (err e) = record { bound = λ s. omega arith }

  print_string-Costs : (src : ℕ) → Costs calls 1 (print_string sys ctx src)
  unfolding print_string
  print_string-Costs src = record {
    bound = λ s.
        let (r, h) = memstring sys ctx src 256 s.host in
        omega (
          arith,
          (memstring-Costs sys ctx meter src 256).bound s.host,
          (print_slice-Costs r).bound (record s { host = h }),
        );
  }

  print_strings-Costs : (srcs : List ℕ) → Costs calls (length srcs) (print_strings sys ctx srcs)
  unfolding print_strings
  print_strings-Costs [] = record { bound = λ s. omega arith }
  print_strings-Costs (src ∷ rest) =
      after 1 (length rest) (omega arith) (print_string-Costs src) (λ _. print_strings-Costs rest)

  first_argument-Costs : Costs calls 1 (first_argument sys ctx)
  unfolding first_argument
  first_argument-Costs =
      after 1 0 (omega arith) (on_host-Costs (registers-Costs sys ctx meter))
        (λ regs. on_memory-Costs (x regs 10))

  write_value-Costs :
      (addr : ℕ) (bytes : List ℕ) → Costs calls 1 (on_host (write_pod sys ctx addr bytes))
  write_value-Costs addr bytes = on_host-Costs (write_pod-Costs sys ctx meter addr bytes)

  write_another-Costs : (addr : ℕ) (buf : Buffers) → Costs calls 2 (write_another sys ctx addr buf)
  unfolding write_another
  write_another-Costs addr buf =
      either (ltb u32_max buf.another_count)
        (after 0 1 (omega arith) print-Costs (λ _. write_value-Costs addr (buffers_to_bytes buf)))
        (after 1 1 (omega arith)
          (on_host-Costs
            (writable_memview-Costs sys ctx meter buf.another_buffer_address buf.another_count))
          (λ slice.
            either (leb buf.another_count (length second))
              (after 0 1 (omega arith) print-Costs
                (λ _. write_value-Costs addr (buffers_to_bytes buf)))
              (after 0 1 (omega arith) (on_memory-Costs (write_c_string_at slice second))
                (λ len. write_value-Costs addr _))))

  -- However many strings the guest says there are.
  some_strings-Costs :
      (bytes : List ℕ) (n : ℕ)
      → Costs calls 32 (print_strings sys ctx (take n (strings_from_bytes bytes).strings))
  unfolding strings_from_bytes
  some_strings-Costs bytes n =
      let strings : List ℕ = (strings_from_bytes bytes).strings in
      relax (length (take n strings)) (length-take-le n strings)
        (print_strings-Costs (take n strings))

  host_function_500-Costs : Costs calls 34 (host_function_500 sys ctx)
  unfolding host_function_500 strings_from_bytes
  host_function_500-Costs = after 0 34 (omega arith) print-Costs (λ _.
      after 1 33 (omega arith) first_argument-Costs (λ addr.
        after 1 32 (omega arith) (on_host-Costs (read_pod-Costs sys ctx meter strings_size addr))
          (λ bytes. some_strings-Costs bytes (min (strings_from_bytes bytes).count 32))))

  host_function_501-Costs : Costs calls 4 (host_function_501 sys ctx)
  unfolding host_function_501
  host_function_501-Costs = after 0 4 (omega arith) print-Costs (λ _.
      after 1 3 (omega arith) first_argument-Costs (λ addr.
        after 1 2 (omega arith) (on_host-Costs (read_pod-Costs sys ctx meter buffers_size addr))
          (λ bytes.
            let given : Buffers = buffers_from_bytes bytes in
            let (len, buffer) = write_c_string given.buffer hello_501 in
            let buf : Buffers = record given { count = len; buffer = buffer } in
            either (buf.another_count == 0)
              (relax 1 (omega arith) (write_value-Costs addr (buffers_to_bytes buf)))
              (write_another-Costs addr buf))))

  host_function_502-Costs : Costs calls 1 (host_function_502 sys ctx)
  unfolding host_function_502
  host_function_502-Costs =
      after 1 0 (omega arith) first_argument-Costs (λ addr. record { bound = λ s. omega arith })

  host_function_503-Costs : (float : Float32) → Costs calls 1 (host_function_503 sys ctx float)
  unfolding host_function_503
  host_function_503-Costs float =
      after 1 0 (omega arith) (on_host-Costs (registers-Costs sys ctx meter)) (λ regs.
        after 0 0 (omega arith) (on_memory-Costs (f32 regs 10)) (λ a.
          after 0 0 (omega arith) (on_memory-Costs (f32 regs 11)) (λ b.
            after 0 0 (omega arith) (on_memory-Costs (f32 regs 12)) (λ c.
              after 0 0 (omega arith) (on_memory-Costs (set_f32 regs 10 _)) (λ _.
                after 0 0 (omega arith) (on_memory-Costs (set_f32 regs 11 _))
                  (λ _. on_memory-Costs (set_f32 regs 12 _)))))))

  -- Whatever the guest's memory and registers say, and whatever the C library answers: a handler ends
  -- after a bounded number of calls to the C library, 34 for `host_function_500`, 4 for
  -- `host_function_501`, and one for each of the others, and no count that the guest gives makes it more.
  pub handlers-Costs :
      (float : Float32) (s : App F)
      → (calls (host_function_500 sys ctx s).1 ≤ calls s + 34)
        × (calls (host_function_501 sys ctx s).1 ≤ calls s + 4)
        × (calls (host_function_502 sys ctx s).1 ≤ calls s + 1)
        × (calls (host_function_503 sys ctx float s).1 ≤ calls s + 1)
  handlers-Costs float s = (
    host_function_500-Costs.bound s,
    host_function_501-Costs.bound s,
    host_function_502-Costs.bound s,
    (host_function_503-Costs float).bound s,
  )
