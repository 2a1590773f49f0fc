-- ===== src/Examples/Emulator/Serves.antt =====
-- examples/advanced_syscalls.rs with examples/advanced/rust_program/src/main.rs: the handler answers the
-- guest.
use libriscv_rust_binding.Common.{
  ℕ, ◌+◌, ◌-◌, ◌^◌, ◌<◌, ◌≤◌, ◌≡◌, refl, sym, ap, ◌∙◌, subst, ◌⊎◌, some, [], ◌∷◌, ◌++◌, arith, leb,
  ◌==◌, true, false, get_or-set_self, replicate, take,
}
use libriscv_rust_binding.Raw.{IsWhole, null}
use libriscv_rust_binding.Memory.{Memory, read_bytes}
use libriscv_rust_binding.Sys.{Host, Sys}
use libriscv_rust_binding.Error.Action.{Action}
use libriscv_rust_binding.Syscall.Context.{SyscallContext, from_raw}
use libriscv_rust_binding.Trampoline.{syscall_trampoline, wrapped_body}
use libriscv_rust_binding.Examples.Text.{write_c_string, until_nul, write_c_string-until_nul}
use libriscv_rust_binding.Examples.Layout.{Buffers, buffers_size, buffers_from_bytes}
use libriscv_rust_binding.Examples.Layout.RoundTrip.{IsBuffers, buffers-buffers}
use libriscv_rust_binding.Examples.Handlers.{Printed, App, hello_501, second, host_function_501}
use libriscv_rust_binding.Examples.Handlers.Prints.{Argument}
use libriscv_rust_binding.Examples.Guest.{World, Ecalls, Places, request, show_buffers}
use libriscv_rust_binding.Examples.Guest.Shows.{Answers, show_buffers-prints}
use libriscv_rust_binding.Examples.Emulator.{FlatArena, entered, resumed, called, ecall}
use libriscv_rust_binding.Examples.Emulator.Cells.{read_cells-shift}
use libriscv_rust_binding.Examples.Emulator.Fills.{
  filled, memory_after, host_function_501-fills, memory_after-struct, memory_after-second,
}

-- The guest's buffers are in the arena, apart from each other.
pub record IsPlaced (size : ℕ) (at : Places) : Type 0 where
  pub buffer_inside : at.buffer + buffers_size ≤ size
  pub another_inside : at.another_buf + 256 ≤ size
  pub apart : (at.another_buf + 256 ≤ at.buffer) ⊎ (at.buffer + buffers_size ≤ at.another_buf)
  pub another_small : at.another_buf < 2 ^ 64

request-IsBuffers : (at : Places) → at.another_buf < 2 ^ 64 → IsBuffers (request at)
request-IsBuffers at small = record {
  count_small = omega arith;
  buffer_length = refl;
  another_count_small = omega arith;
  another_buffer_address_small = small;
}

-- The struct that the handler makes of the request.
filled-IsBuffers :
    (at : Places)
    → at.another_buf < 2 ^ 64
    → IsBuffers (filled (request at))
      × ((filled (request at)).count ≡ 29)
      × (until_nul (filled (request at)).buffer ≡ some hello_501)
filled-IsBuffers at small =
    let (count, held, same, _) =
      write_c_string-until_nul (replicate 256 0) hello_501 (omega arith) refl in
    let n : (write_c_string (replicate 256 0) hello_501).0 ≡ 29 = count in
    (
      record {
        count_small = omega (arith, n);
        buffer_length = same;
        another_count_small = omega arith;
        another_buffer_address_small = small;
      },
      n,
      subst
          (λ l. until_nul (write_c_string (replicate 256 0) hello_501).1 ≡ some (take l hello_501))
          n held,
    )

module _ {F : Type 0} (sys : Sys F) (machine : ℕ) (arena : FlatArena sys machine) (h : Host F) where
  abbrev pub ctx : SyscallContext
  ctx = record { machine = machine }

  pub called-runs :
      (handler : SyscallContext → Action (App F) (Unit {0})) (s : App F)
      → called sys machine arena h handler s ≡ (handler ctx s).1
  unfolding syscall_trampoline wrapped_body from_raw
  called-runs handler s =
      let test : (machine == null) ≡ false = ground (arith, arena.machine_present) in rw test refl

  pub entered-read :
      (a0 p n : ℕ) (w : World)
      → read_bytes (entered sys machine arena h a0 w).host.memory (arena.base + p) n
        ≡ read_bytes w.memory p n
  entered-read a0 p n w =
      read_cells-shift w.memory.byte (entered sys machine arena h a0 w).host.memory.byte arena.base
        p n
        (λ q.
          let test : leb arena.base (arena.base + q) ≡ true = ground arith in
          let back : arena.base + q - arena.base ≡ q = omega arith in rw (test, back) refl)

  resumed-read :
      (s : App F) (w : World) (p n : ℕ)
      → read_bytes (resumed sys machine arena h w s).memory p n
        ≡ read_bytes s.host.memory (arena.base + p) n
  resumed-read s w p n = sym (
      read_cells-shift (resumed sys machine arena h w s).memory.byte s.host.memory.byte arena.base p
        n (λ q. refl))

  pub entered-Argument :
      (a0 : ℕ) (w : World)
      → IsWhole (h.memory.registers arena.ptr)
      → Argument sys machine (entered sys machine arena h a0 w).host a0
  entered-Argument a0 w whole = record {
    ptr = arena.ptr;
    present = arena.ptr_present;
    found = arena.registers_at (entered sys machine arena h a0 w).host;
    holds =
        get_or-set_self (h.memory.registers arena.ptr).r 10 a0 0 (omega (arith, whole.r_length));
  }

  module _ (floats : (a7 : ℕ) → (x y z : ℕ) → World → (ℕ × ℕ × ℕ) × World) (at : Places) where
    -- The host behind the guest's system calls; those on floats are not looked at.
    abbrev pub emulated : Ecalls
    emulated = record { ecall = ecall sys machine arena h; ecall_floats = floats }

    serves-Answers :
        IsWhole (h.memory.registers arena.ptr) → IsPlaced arena.size at → Answers emulated at
    serves-Answers whole placed = record {
      answer = λ w asked.
          let s : App F = entered sys machine arena h at.buffer w in
          let given : Buffers = request at in
          let (is, count, held) = filled-IsBuffers at placed.another_small in
          let holds : buffers_from_bytes
                (read_bytes s.host.memory (arena.base + at.buffer) buffers_size)
              ≡ given =
            ap buffers_from_bytes (entered-read at.buffer at.buffer buffers_size w ∙ asked)
            ∙ buffers-buffers given (request-IsBuffers at placed.another_small) in
          let (_, memory) =
            host_function_501-fills sys ctx arena at.buffer given s
              (entered-Argument at.buffer w whole) placed.buffer_inside holds is.buffer_length
              (omega arith) (omega arith) placed.another_inside in
          let t : App F = called sys machine arena h (host_function_501 sys) s in
          let after : t.host.memory ≡ memory_after sys ctx arena at.buffer given s.host.memory =
            ap (λ (u : App F). u.host.memory) (called-runs (host_function_501 sys) s) ∙ memory in
          (
            filled given,
            is,
            count,
            held,
            refl,
            resumed-read t w at.buffer buffers_size
                ∙ ap (λ (m : Memory). read_bytes m (arena.base + at.buffer) buffers_size) after
                ∙ memory_after-struct sys ctx arena at.buffer given s.host.memory is.buffer_length,
            resumed-read t w at.another_buf 38
                ∙ ap (λ (m : Memory). read_bytes m (arena.base + at.another_buf) 38) after
                ∙ memory_after-second sys ctx arena at.buffer given s.host.memory is.buffer_length
                    (omega arith) placed.apart,
            refl,
          );
    }

    -- With the host's handlers behind its system calls, the guest shows the two texts of the host, whole
    -- and without the NULs behind them, and does not panic. The C library has the guest's memory in an
    -- arena with the guest's two buffers in it, apart from each other, and a whole register file.
    pub show_buffers-served :
        (w : World)
        → IsWhole (h.memory.registers arena.ptr)
        → IsPlaced arena.size at
        → (w' : World) × (show_buffers emulated at w ≡ some w')
          × (w'.output
              ≡ w.output
                ++ Printed.stdout_text "Buffer: " hello_501
                  ∷ Printed.stdout_text "Another Buffer: " second
                  ∷ [])
    show_buffers-served w whole placed =
        show_buffers-prints emulated at w (serves-Answers whole placed)
