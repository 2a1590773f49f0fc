-- ===== src/Syscall/Context/Registers/Agree.antt =====
-- src/syscall.rs and src/lib.rs: `SyscallRegisters` beside `Registers`.
use libriscv_rust_binding.Common.{ℕ, ◌≡◌, refl, ok, ltb, ◌==◌, ◌&&◌, if◌then◌else◌}
use libriscv_rust_binding.Raw.{IsWhole}
use libriscv_rust_binding.Memory.{Memory}
use libriscv_rust_binding.Registers as Owner
use libriscv_rust_binding.Registers.Laws.{x-set_x, f64-set_f64, set_pc-frame}
use libriscv_rust_binding.Syscall.Context.Registers as Handler

-- At one address, every read through `SyscallRegisters` gives what the same read through `Registers`
-- gives, and every write leaves the same memory and the same result, the errors on an index out of
-- range included.
pub operations-Agree :
    (p index value : ℕ) (m : Memory)
    → (Handler.x (record { ptr = p }) index m ≡ Owner.x (record { ptr = p }) index m)
      × (Handler.set_x (record { ptr = p }) index value m
          ≡ Owner.set_x (record { ptr = p }) index value m)
      × (Handler.pc (record { ptr = p }) m ≡ Owner.pc (record { ptr = p }) m)
      × (Handler.set_pc (record { ptr = p }) value m ≡ Owner.set_pc (record { ptr = p }) value m)
      × (Handler.fcsr (record { ptr = p }) m ≡ Owner.fcsr (record { ptr = p }) m)
      × (Handler.set_fcsr (record { ptr = p }) value m
          ≡ Owner.set_fcsr (record { ptr = p }) value m)
      × (Handler.f32 (record { ptr = p }) index m ≡ Owner.f32 (record { ptr = p }) index m)
      × (Handler.set_f32 (record { ptr = p }) index value m
          ≡ Owner.set_f32 (record { ptr = p }) index value m)
      × (Handler.f64 (record { ptr = p }) index m ≡ Owner.f64 (record { ptr = p }) index m)
      × (Handler.set_f64 (record { ptr = p }) index value m
          ≡ Owner.set_f64 (record { ptr = p }) index value m)
unfolding Handler.x Handler.set_x Handler.pc Handler.set_pc Handler.fcsr Handler.set_fcsr
    Handler.f32 Handler.set_f32 Handler.f64 Handler.set_f64 Owner.x Owner.set_x Owner.pc
    Owner.set_pc Owner.fcsr Owner.set_fcsr Owner.f32 Owner.set_f32 Owner.f64 Owner.set_f64
operations-Agree p index value m = (refl, refl, refl, refl, refl, refl, refl, refl, refl, refl)

-- What a handler writes to a whole register file through `SyscallRegisters`, the machine's owner
-- reads back through `Registers` at the same address: the register written, if its index is in
-- range, reads the new value, and every other index as before. This holds for the integer and for
-- the double-precision registers, and the program counter that the handler sets is the owner's.
pub handler_writes :
    (p i j value : ℕ) (m : Memory)
    → IsWhole (m.registers p)
    → ((Owner.x (record { ptr = p }) j (Handler.set_x (record { ptr = p }) i value m).1).0
        ≡ (if ltb i 32 && j == i then ok value else (Owner.x (record { ptr = p }) j m).0))
      × ((Owner.f64 (record { ptr = p }) j (Handler.set_f64 (record { ptr = p }) i value m).1).0
          ≡ (if ltb i 32 && j == i then ok value else (Owner.f64 (record { ptr = p }) j m).0))
      × (Owner.pc (record { ptr = p }) (Handler.set_pc (record { ptr = p }) value m) ≡ value)
handler_writes p i j value m whole =
    let (_, x, _, pc, _, _, _, _, _, f64) = operations-Agree p i value m in
    rw (x, f64, pc)
      (
        x-set_x (record { ptr = p }) m whole i j value,
        f64-set_f64 (record { ptr = p }) m whole i j value,
        (set_pc-frame (record { ptr = p }) m j value).0,
      )
