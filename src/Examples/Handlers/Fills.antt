-- ===== src/Examples/Handlers/Fills.antt =====
-- examples/advanced_syscalls.rs: what `host_function_501` leaves in the guest's struct.
use libriscv_rust_binding.Common.{
  ℕ, ◌<◌, ◌≤◌, ◌≡◌, refl, List, [], ◌∷◌, ok, arith, length, u32_max, ltb, leb, ◌==◌, if◌then◌else◌,
  ◌||◌,
}
use libriscv_rust_binding.Memory.{read_bytes}
use libriscv_rust_binding.Sys.{Host, Sys}
use libriscv_rust_binding.Error.{Fallible}
use libriscv_rust_binding.Syscall.Context.{SyscallContext, read_pod}
use libriscv_rust_binding.Syscall.Context.Views.{WritableViews}
use libriscv_rust_binding.Examples.Text.{write_c_string, write_c_string-until_nul}
use libriscv_rust_binding.Examples.Layout.{
  Buffers, buffers_size, buffers_to_bytes, buffers_from_bytes,
}
use libriscv_rust_binding.Examples.Handlers.{Printed, App, second}

-- What the guest finds as the length of the other buffer, and what the handler complains of.
abbrev pub another_count_after : ℕ → ℕ
another_count_after n = if leb n 38 || ltb u32_max n then n else 38

abbrev pub complaints : ℕ → List Printed
complaints n =
    if n == 0
    then []
    else if ltb u32_max n
    then Printed.stderr "host_function_501: another buffer too large" ∷ []
    else if leb n 38
    then Printed.stderr "host_function_501: another buffer too small" ∷ []
    else []

pub length-second : (bytes : List ℕ) → 38 < length bytes → (write_c_string bytes second).0 ≡ 38
length-second bytes room =
    let (written, _, _, _) = write_c_string-until_nul bytes second (omega arith) refl in
    omega (arith, written)

-- The struct that the handler reads.
unfoldable pub buffers_at : {F : Type 0} → Host F → (ptr : ℕ) → Buffers
unfolding buffers_from_bytes
buffers_at h ptr = buffers_from_bytes (read_bytes h.memory ptr buffers_size)

module _ {F : Type 0} (sys : Sys F) (ctx : SyscallContext) (v : WritableViews sys ctx.machine) where
  -- The struct can be read at `ptr` and written; so can the other buffer, of `n` bytes at `other`, and
  -- a view of that leaves the struct writable.
  pub record Given (h : Host F) (addr ptr other n : ℕ) : Type 0 where
    pub present : 0 < ptr
    pub found : sys.libriscv_memview ctx.machine addr buffers_size h ≡ (ptr, h)
    pub writable : v.IsWritable h.foreign addr buffers_size
    pub another : n ≤ u32_max → v.IsWritable h.foreign other n
    pub still :
        v.IsWritable
          (sys.libriscv_writable_memview ctx.machine other n h).1.foreign
          addr
          buffers_size

  -- The handler has succeeded: the struct is `b`, and `events` were printed.
  abbrev pub Leaves : (addr : ℕ) → Buffers → List Printed → Fallible (Unit {0}) × App F → Type 0
  Leaves addr b events (result, t) =
      (result ≡ ok tt)
      × ((read_pod sys ctx buffers_size addr t.host).0 ≡ ok (buffers_to_bytes b))
      × (t.output ≡ events)
