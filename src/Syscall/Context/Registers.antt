-- ===== src/Syscall/Context/Registers.antt =====
-- src/syscall.rs: `SyscallRegisters`, the borrowed register file of a machine during a system call.
pub mod Agree
use libriscv_rust_binding.Common.{
  ℕ, ◌+◌, ◌*◌, ◌/◌, ◌%◌, ◌^◌, List, leb, ◌==◌, if◌then◌else◌, get_or, set,
}
use libriscv_rust_binding.Raw.{RiscvRegisters, RiscvFloat}
use libriscv_rust_binding.Memory.{Memory}
use libriscv_rust_binding.Error.{Error}
use libriscv_rust_binding.Error.Action.{Action, pure, fail}
use libriscv_rust_binding.Registers.{store_registers, f32_low, set_f32_low}
use libriscv_rust_binding.Syscall.Context.{SyscallRegisters}

unfoldable pub x : SyscallRegisters → ℕ → Action Memory ℕ
x self index m =
    if leb 32 index
    then fail (Error.invalid_register_index index 31) m
    else pure (get_or (m.registers self.ptr).r index 0) m

unfoldable pub set_x : SyscallRegisters → ℕ → ℕ → Action Memory (Unit {0})
set_x self index value m =
    if leb 32 index
    then fail (Error.invalid_register_index index 31) m
    else (let regs = m.registers self.ptr in
        pure tt (store_registers self.ptr (record regs { r = set regs.r index value }) m))

unfoldable pub pc : SyscallRegisters → Memory → ℕ
pc self m = (m.registers self.ptr).pc

unfoldable pub set_pc : SyscallRegisters → ℕ → Memory → Memory
set_pc self value m = store_registers self.ptr (record (m.registers self.ptr) { pc = value }) m

unfoldable pub fcsr : SyscallRegisters → Memory → ℕ
fcsr self m = (m.registers self.ptr).fcsr

unfoldable pub set_fcsr : SyscallRegisters → ℕ → Memory → Memory
set_fcsr self value m = store_registers self.ptr (record (m.registers self.ptr) { fcsr = value }) m

unfoldable pub f32 : SyscallRegisters → ℕ → Action Memory ℕ
f32 self index m =
    if leb 32 index
    then fail (Error.invalid_register_index index 31) m
    else pure (f32_low (get_or (m.registers self.ptr).fr index 0)) m

unfoldable pub set_f32 : SyscallRegisters → ℕ → ℕ → Action Memory (Unit {0})
set_f32 self index value m =
    if leb 32 index
    then fail (Error.invalid_register_index index 31) m
    else (let regs = m.registers self.ptr in
        let float = set_f32_low (get_or regs.fr index 0) value in
        pure tt (store_registers self.ptr (record regs { fr = set regs.fr index float }) m))

unfoldable pub f64 : SyscallRegisters → ℕ → Action Memory ℕ
f64 self index m =
    if leb 32 index
    then fail (Error.invalid_register_index index 31) m
    else pure (get_or (m.registers self.ptr).fr index 0) m

unfoldable pub set_f64 : SyscallRegisters → ℕ → ℕ → Action Memory (Unit {0})
set_f64 self index value m =
    if leb 32 index
    then fail (Error.invalid_register_index index 31) m
    else (let regs = m.registers self.ptr in
        pure tt (store_registers self.ptr (record regs { fr = set regs.fr index value }) m))
