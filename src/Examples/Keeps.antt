-- ===== src/Examples/Keeps.antt =====
-- The calls that the examples make between the creation of a machine and its drop, and which machines
-- exist.
use libriscv_rust_binding.Common.{ℕ, String, refl, some, List, [], ◌∷◌}
use libriscv_rust_binding.Sys.{Sys}
use libriscv_rust_binding.Error.Action.{attempt, call, on_memory}
use libriscv_rust_binding.Registers.{set_x}
use libriscv_rust_binding.Syscall
use libriscv_rust_binding.Syscall.{
  SyscallRegistryBuilder, get, register_syscall_handler, registry_builder,
}
use libriscv_rust_binding.Machine.{Machine, setup_vmcall, registers}
use libriscv_rust_binding.Machine.Guest.{copy_to_guest}
use libriscv_rust_binding.Machine.Lifecycle.{MachineTable}
use libriscv_rust_binding.Machine.Lifecycle.Keeps.{
  Keeps, OtherCalls, bind-Keeps, pure-Keeps, on_memory-Keeps, memory-Keeps, checked-Keeps,
}
use libriscv_rust_binding.Machine.Lifecycle.Performs.{
  setup_vmcall-Keeps, registers-Keeps, copy_to_guest-Keeps,
}
use libriscv_rust_binding.Macros.Registry.{Registration}
use libriscv_rust_binding.Startup
use libriscv_rust_binding.Examples.Stack.{reserve_stack}
use libriscv_rust_binding.Examples.Call.{literal, pass_text, prepare_call}

module _ {F : Type 0} (sys : Sys F) (t : MachineTable sys) (c : OtherCalls sys t) where
  pub prepare_call-Keeps :
      (machine : Machine) (addr : ℕ) (text : List ℕ)
      → Keeps sys t (prepare_call sys machine addr text)
  unfolding prepare_call pass_text
  prepare_call-Keeps machine addr text =
      bind-Keeps sys t (setup_vmcall sys machine addr) _ (setup_vmcall-Keeps sys t c machine addr)
        (λ _.
          bind-Keeps sys t (on_memory (call (literal text))) _
            (on_memory-Keeps sys t (call (literal text)))
            (λ msg.
              bind-Keeps sys t (registers sys machine) _ (registers-Keeps sys t c machine) (λ regs.
                bind-Keeps sys t (on_memory (reserve_stack regs msg.len)) _
                  (on_memory-Keeps sys t (reserve_stack regs msg.len))
                  (λ dst.
                    bind-Keeps sys t (copy_to_guest sys machine dst msg) _
                      (copy_to_guest-Keeps sys t c machine dst msg)
                      (λ _.
                        memory-Keeps sys t (registers sys machine) (λ regs. set_x regs 10 dst)
                          (registers-Keeps sys t c machine))))))

  register-Keeps :
      (resolve : String → ℕ) (rs : List Registration) (builder : SyscallRegistryBuilder)
      → Keeps sys t (Startup.register sys resolve rs builder)
  unfolding Startup.register Syscall.register register_syscall_handler
  register-Keeps resolve [] builder = record { keeps = λ h q. refl }
  register-Keeps resolve (r ∷ rs) builder =
      bind-Keeps sys t (attempt (Syscall.new r.id)) _ (record { keeps = λ h q. refl })
        (λ id.
          bind-Keeps sys t
            (register_syscall_handler sys id (record { pointer = some (resolve r.handler_name) })) _
            (checked-Keeps sys t "libriscv_set_syscall_handler"
              (sys.libriscv_set_syscall_handler (get id) (some (resolve r.handler_name)))
              (c.set_syscall_handler_keeps (get id) (some (resolve r.handler_name))))
            (λ _. register-Keeps resolve rs builder))

  pub registry-Keeps :
      (resolve : String → ℕ) (rs : List Registration)
      → Keeps sys t (Startup.registry sys resolve rs)
  unfolding Startup.registry
  registry-Keeps resolve rs =
      pure-Keeps sys t (Startup.register sys resolve rs registry_builder)
        (λ _. Syscall.build registry_builder) (register-Keeps resolve rs registry_builder)
