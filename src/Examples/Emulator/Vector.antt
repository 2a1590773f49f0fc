-- ===== src/Examples/Emulator/Vector.antt =====
-- examples/advanced_syscalls.rs with examples/advanced/rust_program/src/main.rs: the guest's vector.
use libriscv_rust_binding.Common.{
  ℕ, ◌^◌, ◌<◌, ◌≡◌, refl, ◌∙◌, ok, arith, get_or, length-set, ◌==◌, if◌then◌else◌,
}
use libriscv_rust_binding.Raw.{IsWhole}
use libriscv_rust_binding.Memory.{Memory}
use libriscv_rust_binding.Sys.{Host, Sys}
use libriscv_rust_binding.Registers.{Registers, f32, f32_low}
use libriscv_rust_binding.Examples.Handlers.{App, Float32, host_function_503}
use libriscv_rust_binding.Examples.Handlers.Scales.{
  Closed, scaled, written-reads, written-IsWhole, host_function_503-scales,
}
use libriscv_rust_binding.Examples.Guest.{World}
use libriscv_rust_binding.Examples.Emulator.{
  FlatArena, entered, entered_floats, called, ecall_floats,
}
use libriscv_rust_binding.Examples.Emulator.Serves.{ctx, called-runs}

-- What a float register holds, from what is read.
f32-reads :
    (self : Registers) (j v : ℕ) (m : Memory)
    → j < 32
    → (f32 self j m).0 ≡ ok v
    → f32_low (get_or (m.registers self.ptr).fr j 0) ≡ v
unfolding f32
f32-reads self j v m small read = ground (arith, read)

module _ {F : Type 0} (sys : Sys F) (machine : ℕ) (arena : FlatArena sys machine) (h : Host F)
    (float : Float32) (closed : Closed float) (whole : IsWhole (h.memory.registers arena.ptr)) where
  abbrev pub regs : Registers
  regs = record { ptr = arena.ptr }

  entered-IsWhole :
      (a0 : ℕ) (w : World)
      → IsWhole ((entered sys machine arena h a0 w).host.memory.registers arena.ptr)
  entered-IsWhole a0 w = record {
    r_length = length-set (h.memory.registers arena.ptr).r 10 a0 ∙ whole.r_length;
    fr_length = whole.fr_length;
  }

  -- The handler's result at the guest's three components.
  module _ (x y z : ℕ) (w : World) (hx : x < 2 ^ 32) (hy : y < 2 ^ 32) (hz : z < 2 ^ 32) where
    vector_lem :
        let scale = scaled float x y z in
        let t =
          called sys machine arena h
            (λ ctx. host_function_503 sys ctx float)
            (entered_floats sys machine arena h x y z w) in
        ((j : ℕ)
          → (f32 regs j t.host.memory).0 ≡ (
              if j == 12
              then ok (scale z)
              else if j == 11
              then ok (scale y)
              else if j == 10
              then ok (scale x)
              else (f32 regs j (entered_floats sys machine arena h x y z w).host.memory).0))
    vector_lem j =
        let s : App F = entered_floats sys machine arena h x y z w in
        let m : Memory = (entered sys machine arena h 0 w).host.memory in
        let before = entered-IsWhole 0 w in
        let reads = λ (i : ℕ). (written-reads regs m before x y z i hx hy hz).0 in
        let (_, _, _, _, _, _, after) =
          host_function_503-scales sys (ctx sys machine arena h) float closed arena.ptr s s.host
            arena.ptr_present (arena.registers_at s.host) (written-IsWhole regs m before x y z) x y
            z (reads 10) (reads 11) (reads 12) in
        rw (called-runs sys machine arena h (λ ctx. host_function_503 sys ctx float) s) (after j)

    pub vector_served :
        let scale = scaled float x y z in
        let (answer, w') = ecall_floats sys machine arena h float 503 x y z w in
        (answer ≡ (scale x, scale y, scale z)) × (w'.output ≡ w.output)
    vector_served =
        let m : Memory =
          (called sys machine arena h (λ ctx. host_function_503 sys ctx float)
            (entered_floats sys machine arena h x y z w)).host.memory in
        let scale = scaled float x y z in
        (
          λ i. (
            f32-reads regs 10 (scale x) m (omega arith) (vector_lem 10) i,
            f32-reads regs 11 (scale y) m (omega arith) (vector_lem 11) i,
            f32-reads regs 12 (scale z) m (omega arith) (vector_lem 12) i,
          ),
          refl,
        )
