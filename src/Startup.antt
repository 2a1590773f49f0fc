-- ===== src/Startup.antt =====
-- libriscv-macros/src/lib.rs: the functions `register` and `registry` that `syscall_registry` adds to
-- a module, run against the C library's table of handlers.
pub mod Installs
use libriscv_rust_binding.Common.{ℕ, String, some, List, [], ◌∷◌}
use libriscv_rust_binding.Sys.{Host, Sys}
use libriscv_rust_binding.Error.Action.{Action, pure, attempt, ◌>>=◌, ◌>>◌}
use libriscv_rust_binding.Syscall
use libriscv_rust_binding.Syscall.{SyscallRegistryBuilder, SyscallRegistry, registry_builder}
use libriscv_rust_binding.Macros.Registry.{Registration}

-- `resolve` gives the trampoline that a `…_handler` function of the module returns.
module _ {F : Type 0} (sys : Sys F) (resolve : String → ℕ) where
  unfoldable pub register : List Registration → SyscallRegistryBuilder → Action (Host F) (Unit {0})
  register [] builder = pure tt
  register (r ∷ rs) builder = do
    id ← attempt (Syscall.new r.id)
    Syscall.register sys builder id (record { pointer = some (resolve r.handler_name) })
    register rs builder

  unfoldable pub registry : List Registration → Action (Host F) SyscallRegistry
  unfolding register
  registry rs = do register rs registry_builder; pure (Syscall.build registry_builder)
