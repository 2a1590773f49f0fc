-- ===== src/Syscall.antt =====
-- src/syscall.rs: syscall ids and handlers, and their registration in the C library's global table.
pub mod Context
pub mod Id
use libriscv_rust_binding.Common.{
  ℕ, ◌-◌, ◌%◌, ◌^◌, Option, none, some, ok, err, ltb, if◌then◌else◌, u32_max,
}
use libriscv_rust_binding.Sys.{Host, Sys}
use libriscv_rust_binding.Error.{Error, Fallible}
use libriscv_rust_binding.Error.Action.{Action, call, ◌>>=◌}
use libriscv_rust_binding.Error.Check.{check_code}

-- `SYSCALLS_MAX`.
abbrev pub syscalls_max : ℕ
syscalls_max = 512

pub record SyscallId : Type 0 where
  pub index : ℕ

-- `SyscallId::new`, which is also `TryFrom<u32>`; `index` is a `u32`.
unfoldable pub new : ℕ → Fallible SyscallId
new index =
    if ltb index syscalls_max
    then ok (record { index = index })
    else err (Error.invalid_syscall_index index (syscalls_max - 1))

-- `SyscallId::get`, which is also `From<SyscallId> for u32`.
unfoldable pub get : SyscallId → ℕ
get self = self.index

-- `TryFrom<usize>`: `value` is a `usize`, and `value as u32` keeps its low 32 bits.
unfoldable pub try_from : ℕ → Fallible SyscallId
unfolding new
try_from value =
    if ltb u32_max value
    then err (Error.invalid_syscall_index value (syscalls_max - 1))
    else new (value % 2 ^ 32)

-- `SyscallHandler`: none, or a function pointer.
pub record SyscallHandler : Type 0 where
  pub pointer : Option ℕ

abbrev pub clear : SyscallHandler
clear = record { pointer = none }

-- `SyscallHandler::new`.
abbrev pub handler_new : (handler : ℕ) → SyscallHandler
handler_new handler = record { pointer = some handler }

-- `SyscallRegistryBuilder` and `SyscallRegistry` hold no data.
pub data SyscallRegistryBuilder : Type 0 where
  registry_builder : SyscallRegistryBuilder

pub data SyscallRegistry : Type 0 where
  registry_token : SyscallRegistry

-- `SyscallRegistryBuilder::build` and `SyscallRegistry::empty`: neither calls the C library.
unfoldable pub build : SyscallRegistryBuilder → SyscallRegistry
build self = SyscallRegistry.registry_token

unfoldable pub empty : SyscallRegistry
empty = SyscallRegistry.registry_token

module _ {F : Type 0} (sys : Sys F) where
  unfoldable pub register_syscall_handler : SyscallId → SyscallHandler → Action (Host F) (Unit {0})
  unfolding get check_code
  register_syscall_handler num handler = do
    code ← call (sys.libriscv_set_syscall_handler (get num) handler.pointer)
    check_code sys "libriscv_set_syscall_handler" code

  -- `SyscallRegistryBuilder::register`.
  unfoldable pub register :
      SyscallRegistryBuilder → SyscallId → SyscallHandler → Action (Host F) (Unit {0})
  unfolding register_syscall_handler
  register self num handler = register_syscall_handler num handler
