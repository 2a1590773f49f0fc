-- ===== src/Examples/Stack.antt =====
-- examples/vmcall.rs and examples/advanced_syscalls.rs: `reserve_stack`.
use libriscv_rust_binding.Common.{
  ℕ, ◌+◌, ◌-◌, ◌%◌, ◌^◌, ◌≤◌, ◌<◌, ◌≡◌, refl, ok, bit_and, arith, get_or,
}
use libriscv_rust_binding.Common.Bits.{bit_and-aligned}
use libriscv_rust_binding.Memory.{Memory}
use libriscv_rust_binding.Error.Action.{Action, pure, ◌>>=◌, ◌>>◌}
use libriscv_rust_binding.Registers.{Registers, x, set_x}

-- `a.wrapping_sub(b)` on `u64`.
abbrev pub wrapping_sub : ℕ → ℕ → ℕ
wrapping_sub a b = (a + 2 ^ 64 - b % 2 ^ 64) % 2 ^ 64

-- `!0xF` on `u64`.
abbrev pub not_15 : ℕ
not_15 = 0xffff_ffff_ffff_fff0

unfoldable pub reserve_stack : Registers → (size : ℕ) → Action Memory ℕ
reserve_stack regs size = do
  sp ← x regs 2
  let new_sp = bit_and (wrapping_sub sp (size % 2 ^ 64)) not_15
  set_x regs 2 new_sp
  pure new_sp

pub aligned_lem :
    (sp size : ℕ)
    → sp < 2 ^ 64
    → size ≤ sp
    → let new_sp = bit_and (wrapping_sub sp (size % 2 ^ 64)) not_15 in
      (new_sp % 16 ≡ 0) × (new_sp + size ≤ sp) × (sp < new_sp + size + 16)
aligned_lem sp size small fits =
    let e = bit_and-aligned (wrapping_sub sp (size % 2 ^ 64)) (omega arith) in omega (arith, e)

-- What `reserve_stack` does once the stack pointer is known.
pub reserve_stack-sets :
    (regs : Registers) (m : Memory) (sp size : ℕ)
    → (x regs 2 m).0 ≡ ok sp
    → let new_sp = bit_and (wrapping_sub sp (size % 2 ^ 64)) not_15 in
      reserve_stack regs size m ≡ (ok new_sp, (set_x regs 2 new_sp m).1)
unfolding reserve_stack x set_x
reserve_stack-sets regs m sp size holds =
    let same : get_or (m.registers regs.ptr).r 2 0 ≡ sp = cc holds in rw same refl
