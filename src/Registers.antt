-- ===== src/Registers.antt =====
-- src/lib.rs: `Registers`, the borrowed register file of a machine. An `f32` and an `f64` are their
-- bit patterns.
pub mod Laws
use libriscv_rust_binding.Common.{
  ℕ, ◌+◌, ◌*◌, ◌/◌, ◌%◌, ◌^◌, List, leb, ◌==◌, if◌then◌else◌, get_or, set,
}
use libriscv_rust_binding.Raw.{RiscvRegisters, RiscvFloat}
use libriscv_rust_binding.Memory.{Memory}
use libriscv_rust_binding.Error.{Error}
use libriscv_rust_binding.Error.Action.{Action, pure, fail}

pub record Registers : Type 0 where
  pub ptr : ℕ

-- `*self.ptr = regs`, for the struct as a whole.
abbrev pub store_registers : ℕ → RiscvRegisters → Memory → Memory
store_registers ptr regs m = record m { registers = λ q. if q == ptr then regs else m.registers q }

-- `float.f32_[0]` and its assignment, which keeps the other half of the union.
abbrev pub f32_low : RiscvFloat → ℕ
f32_low float = float % 2 ^ 32

abbrev pub set_f32_low : RiscvFloat → ℕ → RiscvFloat
set_f32_low float value = float / 2 ^ 32 * 2 ^ 32 + value % 2 ^ 32

unfoldable pub x : Registers → ℕ → Action Memory ℕ
x self index m =
    if leb 32 index
    then fail (Error.invalid_register_index index 31) m
    else pure (get_or (m.registers self.ptr).r index 0) m

unfoldable pub set_x : Registers → ℕ → ℕ → Action Memory (Unit {0})
set_x self index value m =
    if leb 32 index
    then fail (Error.invalid_register_index index 31) m
    else (let regs = m.registers self.ptr in
        pure tt (store_registers self.ptr (record regs { r = set regs.r index value }) m))

unfoldable pub pc : Registers → Memory → ℕ
pc self m = (m.registers self.ptr).pc

unfoldable pub set_pc : Registers → ℕ → Memory → Memory
set_pc self value m = store_registers self.ptr (record (m.registers self.ptr) { pc = value }) m

unfoldable pub fcsr : Registers → Memory → ℕ
fcsr self m = (m.registers self.ptr).fcsr

unfoldable pub set_fcsr : Registers → ℕ → Memory → Memory
set_fcsr self value m = store_registers self.ptr (record (m.registers self.ptr) { fcsr = value }) m

unfoldable pub f32 : Registers → ℕ → Action Memory ℕ
f32 self index m =
    if leb 32 index
    then fail (Error.invalid_register_index index 31) m
    else pure (f32_low (get_or (m.registers self.ptr).fr index 0)) m

unfoldable pub set_f32 : Registers → ℕ → ℕ → Action Memory (Unit {0})
set_f32 self index value m =
    if leb 32 index
    then fail (Error.invalid_register_index index 31) m
    else (let regs = m.registers self.ptr in
        let float = set_f32_low (get_or regs.fr index 0) value in
        pure tt (store_registers self.ptr (record regs { fr = set regs.fr index float }) m))

unfoldable pub f64 : Registers → ℕ → Action Memory ℕ
f64 self index m =
    if leb 32 index
    then fail (Error.invalid_register_index index 31) m
    else pure (get_or (m.registers self.ptr).fr index 0) m

unfoldable pub set_f64 : Registers → ℕ → ℕ → Action Memory (Unit {0})
set_f64 self index value m =
    if leb 32 index
    then fail (Error.invalid_register_index index 31) m
    else (let regs = m.registers self.ptr in
        pure tt (store_registers self.ptr (record regs { fr = set regs.fr index value }) m))
