-- ===== src/Examples/Emulator/Fills.antt =====
-- examples/advanced_syscalls.rs: the memory after `host_function_501`, in an arena.
use libriscv_rust_binding.Common.{
  ℕ, ◌+◌, ◌<◌, ◌≤◌, ◌≡◌, refl, sym, ap, ◌∙◌, subst, take, ◌⊎◌, inl, inr, some, List, [], ◌∷◌, ◌++◌,
  ok, arith, length, u32_max, leb, ltb, ◌==◌, false,
}
use libriscv_rust_binding.Memory.{
  Memory, read_bytes, write_bytes, length-read_cells, read_cells-Holds, write_cells-Holds,
}
use libriscv_rust_binding.Sys.{Host, Sys}
use libriscv_rust_binding.Error.{Fallible}
use libriscv_rust_binding.Slice.{Slice}
use libriscv_rust_binding.Syscall.Context.{SyscallContext, writable_memview, write_pod}
use libriscv_rust_binding.Syscall.Context.Views.{writable_memview-at}
use libriscv_rust_binding.Examples.Text.{
  write_c_string, write_c_string_at, until_nul, write_c_string-until_nul,
}
use libriscv_rust_binding.Examples.Layout.{
  Buffers, buffers_size, buffers_to_bytes, buffers_from_bytes,
}
use libriscv_rust_binding.Examples.Layout.RoundTrip.{length-buffers}
use libriscv_rust_binding.Examples.Handlers.{
  Printed, App, hello_501, second, write_another, host_function_501,
}
use libriscv_rust_binding.Examples.Handlers.Prints.{Argument, first_argument-found, read_pod-at}
use libriscv_rust_binding.Examples.Handlers.Fills.{length-second}
use libriscv_rust_binding.Examples.Guest.Shows.{take-until_nul, take-read_cells}
use libriscv_rust_binding.Examples.Emulator.{FlatArena}
use libriscv_rust_binding.Examples.Emulator.Cells.{read_cells-apart}

-- The struct that the handler writes, and below the memory with it.
abbrev pub filled : Buffers → Buffers
filled given =
    let (len, buffer) = write_c_string given.buffer hello_501 in
    record given { count = len; buffer = buffer; another_count = 38 }

module _ {F : Type 0} (sys : Sys F) (ctx : SyscallContext) (arena : FlatArena sys ctx.machine) where
  writable-inside :
      (src len : ℕ) (h : Host F)
      → src + len ≤ arena.size
      → len ≤ u32_max
      → writable_memview sys ctx src len h
        ≡ (ok (record { address = arena.base + src; len = len }), h)
  writable-inside src len h inside small =
      let found = arena.writable_memview_at src len h inside in
      let present : 0 < arena.base + src = omega (arith, arena.base_present) in
      let at = writable_memview-at sys ctx src len h small in
      at (subst (λ (r : ℕ × Host F). 0 < r.0) (sym found) present)
      ∙ ap
          (λ (r : ℕ × Host F).
            let view : Fallible Slice = ok (record { address = r.0; len = len }) in (view, r.1))
          found

  write_pod-inside :
      (dst : ℕ) (value : List ℕ) (h : Host F)
      → dst + length value ≤ arena.size
      → length value ≤ u32_max
      → write_pod sys ctx dst value h
        ≡ (ok tt, record h { memory = write_bytes h.memory (arena.base + dst) value })
  unfolding write_pod
  write_pod-inside dst value h inside small =
      rw (writable-inside dst (length value) h inside small) refl

  abbrev pub memory_after : (addr : ℕ) → Buffers → Memory → Memory
  memory_after addr given m =
      let other = arena.base + given.another_buffer_address in
      let texts =
        write_bytes m other (write_c_string (read_bytes m other given.another_count) second).1 in
      write_bytes texts (arena.base + addr) (buffers_to_bytes (filled given))

  pub host_function_501-fills :
      (addr : ℕ) (given : Buffers) (s : App F)
      → Argument sys ctx.machine s.host addr
      → addr + buffers_size ≤ arena.size
      → buffers_from_bytes (read_bytes s.host.memory (arena.base + addr) buffers_size) ≡ given
      → length (filled given).buffer ≡ 256
      → 38 < given.another_count
      → given.another_count ≤ u32_max
      → given.another_buffer_address + given.another_count ≤ arena.size
      → let (result, t) = host_function_501 sys ctx s in
        (result ≡ ok tt) × (t.host.memory ≡ memory_after addr given s.host.memory)
  unfolding host_function_501 write_another write_c_string_at
  host_function_501-fills addr given s a inside holds full long short other_inside =
      let t : App F = record s {
        output = s.output ++ Printed.stdout "Hello from host function 501!" ∷ [];
      } in
      let n : ℕ = given.another_count in
      let other : ℕ = arena.base + given.another_buffer_address in
      let positive : (n == 0) ≡ false = ground arith in
      let fits : ltb u32_max n ≡ false = ground arith in
      let room : leb n 38 ≡ false = ground arith in
      let bytes : List ℕ = read_bytes s.host.memory other n in
      let k : length bytes ≡ n = length-read_cells 1 s.host.memory.byte other n in
      let written = length-second bytes (omega (arith, k)) in
      let size = length-buffers (filled given) full in
      rw
        (
          first_argument-found sys ctx addr t a,
          read_pod-at sys ctx buffers_size addr (arena.base + addr) s.host (omega arith)
              (omega (arith, arena.base_present))
              (arena.memview_at addr buffers_size s.host inside),
          holds,
          positive,
          fits,
          writable-inside given.another_buffer_address n s.host other_inside short,
          room,
          written,
          write_pod-inside addr (buffers_to_bytes (filled given))
              (record s.host {
                memory = write_bytes s.host.memory other (write_c_string bytes second).1;
              })
              (omega (arith, size)) (omega (arith, size)),
        )
        (refl, refl)

  pub memory_after-struct :
      (addr : ℕ) (given : Buffers) (m : Memory)
      → length (filled given).buffer ≡ 256
      → read_bytes (memory_after addr given m) (arena.base + addr) buffers_size
        ≡ buffers_to_bytes (filled given)
  memory_after-struct addr given m full =
      let p = arena.base + addr in
      let bytes : List ℕ = buffers_to_bytes (filled given) in
      let n : length bytes ≡ buffers_size = length-buffers (filled given) full in
      ap (read_bytes (memory_after addr given m) p) (sym n)
      ∙ read_cells-Holds 1 (memory_after addr given m).byte p bytes
          (write_cells-Holds 1 _ p bytes (omega arith))

  pub memory_after-second :
      (addr : ℕ) (given : Buffers) (m : Memory)
      → length (filled given).buffer ≡ 256
      → 38 < given.another_count
      → (given.another_buffer_address + given.another_count ≤ addr)
        ⊎ (addr + buffers_size ≤ given.another_buffer_address)
      → read_bytes (memory_after addr given m) (arena.base + given.another_buffer_address) 38
        ≡ second
  memory_after-second addr given m full long apart =
      let other = arena.base + given.another_buffer_address in
      let n : ℕ = given.another_count in
      let bytes : List ℕ = read_bytes m other n in
      let k : length bytes ≡ n = length-read_cells 1 m.byte other n in
      let (len, written) = write_c_string bytes second in
      let (count, held, same, _) = write_c_string-until_nul bytes second (omega (arith, k)) refl in
      let whole : len ≡ 38 = length-second bytes (omega (arith, k)) in
      let text : until_nul written ≡ some second =
        subst (λ l. until_nul written ≡ some (take l second)) whole held in
      let texts : Memory = write_bytes m other written in
      let struct : List ℕ = buffers_to_bytes (filled given) in
      let size : length struct ≡ buffers_size = length-buffers (filled given) full in
      let back : read_bytes texts other n ≡ written =
        ap (read_bytes texts other) (sym (same ∙ k))
        ∙ read_cells-Holds 1 texts.byte other written
            (write_cells-Holds 1 m.byte other written (omega arith)) in
      read_cells-apart texts.byte (arena.base + addr) struct other 38
        (elim apart [ inl before ↦ inl (omega arith) | inr behind ↦ inr (omega (arith, size)) ])
      ∙ sym (take-read_cells texts.byte other 38 n (omega arith))
      ∙ ap (take 38) back
      ∙ take-until_nul written second text
