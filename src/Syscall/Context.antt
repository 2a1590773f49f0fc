-- ===== src/Syscall/Context.antt =====
-- src/syscall.rs: `SyscallContext`, the machine as a handler sees it during a system call.
pub mod Calls
pub mod Registers
pub mod Views
use libriscv_rust_binding.Common.{
  ℕ, ◌%◌, ◌^◌, Option, none, some, List, [], ◌∷◌, ltb, ◌==◌, if◌then◌else◌, u32_max, length,
}
use libriscv_rust_binding.Raw.{null}
use libriscv_rust_binding.Memory.{read_bytes, write_bytes}
use libriscv_rust_binding.Slice.{Slice, contents, copy_from_slice, nonzero, nonnull}
use libriscv_rust_binding.Sys.{Host, Ffi, Sys}
use libriscv_rust_binding.Error.{Error}
use libriscv_rust_binding.Error.Action.{Action, pure, fail, attempt, call, ◌>>=◌, ◌>>◌}

pub record SyscallContext : Type 0 where
  pub machine : ℕ

unfoldable pub from_raw : ℕ → Option SyscallContext
from_raw machine = if machine == null then none else some (record { machine = machine })

-- `SyscallRegisters`, at the address of the register file.
pub record SyscallRegisters : Type 0 where
  pub ptr : ℕ

-- A change of the host's memory that cannot fail.
abbrev pub change : {F : Type 0} → (Host F → Host F) → Ffi F (Unit {0})
change f h = (tt, f h)

module _ {F : Type 0} (sys : Sys F) (self : SyscallContext) where
  unfoldable pub registers : Action (Host F) SyscallRegisters
  registers = do
    ptr ← call (sys.libriscv_get_registers self.machine)
    ptr ← attempt (nonnull "libriscv_get_registers" ptr)
    pure (record { ptr = ptr })

  unfoldable pub memview : (src len : ℕ) → Action (Host F) Slice
  memview src len =
      if ltb u32_max len then fail (Error.length_too_large "libriscv_memview" len) else (do
        ptr ← call (sys.libriscv_memview self.machine src (len % 2 ^ 32))
        ptr ← attempt (nonnull "libriscv_memview" ptr)
        pure (record { address = ptr; len = len }))

  unfoldable pub writable_memview : (src len : ℕ) → Action (Host F) Slice
  writable_memview src len =
      if ltb u32_max len then fail (Error.length_too_large "libriscv_writable_memview" len) else (do
        ptr ← call (sys.libriscv_writable_memview self.machine src (len % 2 ^ 32))
        ptr ← attempt (nonnull "libriscv_writable_memview" ptr)
        pure (record { address = ptr; len = len }))

  unfoldable pub memstring : (src maxlen : ℕ) → Action (Host F) Slice
  memstring src maxlen =
      if ltb u32_max maxlen then fail (Error.length_too_large "libriscv_memstring" maxlen) else (do
        (ptr, len) ← call (sys.libriscv_memstring self.machine src (maxlen % 2 ^ 32) 0)
        ptr ← attempt (nonnull "libriscv_memstring" ptr)
        pure (record { address = ptr; len = len }))

  unfoldable pub read : ℕ → Slice → Action (Host F) (Unit {0})
  read src dst = if dst.len == 0 then pure tt else (do
    view ← memview src dst.len
    call (change λ h. record h { memory = copy_from_slice dst view h.memory }))

  unfoldable pub write : ℕ → Slice → Action (Host F) (Unit {0})
  write dst given = if given.len == 0 then pure tt else (do
    view ← writable_memview dst given.len
    call (change λ h. record h { memory = copy_from_slice view given h.memory }))

  -- A POD value is its bytes, `size` of them.
  unfoldable pub read_pod : (size src : ℕ) → Action (Host F) (List ℕ)
  read_pod size src = do view ← memview src size; call (λ h. (contents h.memory view, h))

  unfoldable pub write_pod : (dst : ℕ) → (value : List ℕ) → Action (Host F) (Unit {0})
  write_pod dst value = do
    view ← writable_memview dst (length value)
    call (change λ h. record h { memory = write_bytes h.memory view.address value })

  unfoldable pub stop : Ffi F (Unit {0})
  stop = sys.libriscv_stop self.machine

  unfoldable pub instruction_counter : Ffi F ℕ
  instruction_counter = sys.libriscv_instruction_counter self.machine

  -- The address of the counter, through which it can be read and set.
  unfoldable pub max_instruction_counter : Ffi F (Option ℕ)
  max_instruction_counter h =
      let (ptr, h') = sys.libriscv_max_counter_pointer self.machine h in (nonzero ptr, h')

  unfoldable pub trigger_exception : (exception value : ℕ) → Ffi F (Unit {0})
  trigger_exception exception value = sys.libriscv_trigger_exception self.machine exception value

  unfoldable pub opaque : Ffi F ℕ
  opaque = sys.libriscv_opaque self.machine
