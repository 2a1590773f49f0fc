-- ===== src/Examples/Mains/Clean.antt =====
-- examples/basic.rs, examples/vmcall.rs and examples/advanced_syscalls.rs: the machines that exist after
-- `main`.
use libriscv_rust_binding.Common.{
  ℕ, ◌*◌, String, ◌≡◌, refl, ◌==◌, if◌then◌else◌, Option, none, some, List, [], ◌∷◌, Bool-cases,
  inl, inr,
}
use libriscv_rust_binding.Sys.{Sys}
use libriscv_rust_binding.Error.Action.{call, on_memory}
use libriscv_rust_binding.Options
use libriscv_rust_binding.Options.{Options, OptionsBuilder, zeroed, builder, default_raw_options}
use libriscv_rust_binding.Options.Setters.{args, max_memory}
use libriscv_rust_binding.Machine.{Machine, run, return_value, address_of}
use libriscv_rust_binding.Machine.Lifecycle.{MachineTable}
use libriscv_rust_binding.Machine.Lifecycle.Keeps.{OtherCalls}
use libriscv_rust_binding.Machine.Lifecycle.Performs.{
  run-Keeps, return_value-Keeps, address_of-Keeps,
}
use libriscv_rust_binding.Startup
use libriscv_rust_binding.Examples.Handlers.{Printed, App}
use libriscv_rust_binding.Examples.Call.{literal, prepare_call}
use libriscv_rust_binding.Examples.Keeps.{prepare_call-Keeps, registry-Keeps}
use libriscv_rust_binding.Examples.Mains.Advanced.{advanced_settings}
use libriscv_rust_binding.Examples.Mains.Leaves.{
  Leaves, lib-Leaves, memory-Leaves, say-Leaves, done-Leaves, stop_with-Leaves, bind-Leaves,
  open_machine-Leaves,
}
use libriscv_rust_binding.Examples.Mains.{
  Failure, Main, ◌>>=◌, ◌>>◌, lib, say, Process, u64_max, loaded, program_file, are_unicode,
  env_args, status, basic_main, vmcall_main, call_if_found, call_back, advanced_main, host_syscalls,
  hello_sandboxed, hello_callback, my_function,
}

module _ {F : Type 0} (sys : Sys F) (t : MachineTable sys) where
  module _ (process : Process) where
    loaded-Leaves :
        (bytes : Option (List ℕ)) (given : List (List ℕ)) → Leaves sys t (loaded sys bytes given)
    unfolding loaded
    loaded-Leaves none given = stop_with-Leaves sys t Failure.io
    loaded-Leaves (some bytes) given =
        bind-Leaves sys t (lib (on_memory (call (literal bytes)))) _
          (memory-Leaves sys t (call (literal bytes))) (λ elf. done-Leaves sys t (elf, given))

    program_file-Leaves :
        (usage : String) (args : List (List ℕ)) → Leaves sys t (program_file sys process usage args)
    unfolding program_file
    program_file-Leaves usage [] = stop_with-Leaves sys t Failure.panicked
    program_file-Leaves usage (name ∷ []) =
        bind-Leaves sys t (say (Printed.stderr_usage name usage)) _
          (say-Leaves sys t (Printed.stderr_usage name usage))
          (λ _. stop_with-Leaves sys t (Failure.exited 1))
    program_file-Leaves usage (name ∷ file ∷ others) =
        loaded-Leaves (process.read file) (file ∷ others)

    env_args-Leaves : Leaves sys t (env_args process)
    unfolding env_args
    env_args-Leaves = elim (Bool-cases (are_unicode process.args)) [
      | inl unicode ↦ rw unicode (done-Leaves sys t process.args)
      | inr other ↦ rw other (stop_with-Leaves sys t Failure.panicked)
    ]

    module _ (c : OtherCalls sys t) where
      builder-Leaves : Leaves sys t (lib (call (builder sys)))
      unfolding builder default_raw_options
      builder-Leaves =
          lib-Leaves sys t (call (builder sys))
            (record { keeps = (c.set_defaults_keeps zeroed).keeps })

      built-Leaves :
          {A : Type 0} (settings : OptionsBuilder → OptionsBuilder) (rest : Options → Main F A)
          → ((options : Options) → Leaves sys t (rest options))
          → Leaves sys t (
              lib (call (builder sys)) >>= λ start.
              lib (on_memory (Options.build (settings start))) >>= rest)
      built-Leaves settings rest after =
          bind-Leaves sys t (lib (call (builder sys))) _ builder-Leaves (λ start.
            bind-Leaves sys t (lib (on_memory (Options.build (settings start)))) rest
              (memory-Leaves sys t (Options.build (settings start))) after)

      run-Leaves : (machine : Machine) (n : ℕ) → Leaves sys t (lib (run sys machine n))
      run-Leaves machine n = lib-Leaves sys t (run sys machine n) (run-Keeps sys t c machine n)

      status-Leaves : (machine : Machine) → Leaves sys t (status sys machine)
      status-Leaves machine =
          bind-Leaves sys t (lib (call (return_value sys machine))) _
            (lib-Leaves sys t (call (return_value sys machine))
              (return_value-Keeps sys t c machine))
            (λ z. say-Leaves sys t (Printed.stdout_status "Program exited with status: " z))

      basic_main-Leaves : Leaves sys t (basic_main sys process)
      unfolding basic_main
      basic_main-Leaves = bind-Leaves sys t (env_args process) _ env_args-Leaves (λ all.
          bind-Leaves sys t (program_file sys process "[program file] [arguments ...]" all) _
            (program_file-Leaves "[program file] [arguments ...]" all)
            (λ (elf, given).
              built-Leaves (λ start. args given (max_memory (256 * 1024 * 1024) start)) _
                (λ options. open_machine-Leaves sys t elf options _ _ (λ machine.
                  bind-Leaves sys t (lib (run sys machine u64_max)) _ (run-Leaves machine u64_max)
                    (λ _. status-Leaves machine)))))

      call-Leaves :
          (machine : Machine) (addr : ℕ) (text : List ℕ)
          → Leaves sys t (lib (prepare_call sys machine addr text) >> lib (run sys machine u64_max))
      call-Leaves machine addr text =
          bind-Leaves sys t (lib (prepare_call sys machine addr text)) _
            (lib-Leaves sys t (prepare_call sys machine addr text)
              (prepare_call-Keeps sys t c machine addr text))
            (λ _. run-Leaves machine u64_max)

      call_if_found-Leaves :
          (machine : Machine) (found : Option ℕ) → Leaves sys t (call_if_found sys machine found)
      unfolding call_if_found
      call_if_found-Leaves machine (some addr) = call-Leaves machine addr hello_sandboxed
      call_if_found-Leaves machine none =
          say-Leaves sys t (Printed.stderr "Symbol my_function not found")

      vmcall_main-Leaves : Leaves sys t (vmcall_main sys process)
      unfolding vmcall_main
      vmcall_main-Leaves = bind-Leaves sys t (env_args process) _ env_args-Leaves (λ all.
          bind-Leaves sys t (program_file sys process "[program file] [arguments ...]" all) _
            (program_file-Leaves "[program file] [arguments ...]" all)
            (λ (elf, given).
              built-Leaves (λ start. args given (max_memory (64 * 1024 * 1024) start)) _
                (λ options. open_machine-Leaves sys t elf options _ _ (λ machine.
                  bind-Leaves sys t (lib (run sys machine 32_000_000)) _
                    (run-Leaves machine 32_000_000)
                    (λ _.
                      bind-Leaves sys t (lib (address_of sys machine my_function)) _
                        (lib-Leaves sys t (address_of sys machine my_function)
                          (address_of-Keeps sys t c machine my_function))
                        (λ found.
                          bind-Leaves sys t (call_if_found sys machine found) _
                            (call_if_found-Leaves machine found) (λ _. status-Leaves machine)))))))

      module _ (resolve : String → ℕ) (host_fn_addr : F → ℕ) where
        call_back-Leaves :
            (machine : Machine) (addr : ℕ)
            → Leaves sys t (
                if addr == 0
                then say (Printed.stderr "Host function 502 was not called")
                else (lib (prepare_call sys machine addr hello_callback)
                    >> lib (run sys machine u64_max)))
        call_back-Leaves machine addr = elim (Bool-cases (addr == 0)) [
          | inl nothing ↦
              rw nothing (say-Leaves sys t (Printed.stderr "Host function 502 was not called"))
          | inr called ↦ rw called (call-Leaves machine addr hello_callback)
        ]

        advanced_main-Leaves : Leaves sys t (advanced_main sys process resolve host_fn_addr)
        unfolding advanced_main call_back
        advanced_main-Leaves = bind-Leaves sys t (env_args process) _ env_args-Leaves (λ all.
            bind-Leaves sys t (program_file sys process "[program file]" all) _
              (program_file-Leaves "[program file]" all)
              (λ (elf, given).
                bind-Leaves sys t (lib (Startup.registry sys resolve host_syscalls)) _
                  (lib-Leaves sys t (Startup.registry sys resolve host_syscalls)
                    (registry-Keeps sys t c resolve host_syscalls))
                  (λ registry. built-Leaves (advanced_settings resolve) _ (λ options.
                    open_machine-Leaves sys t elf options registry _ (λ machine.
                      bind-Leaves sys t (lib (run sys machine u64_max)) _
                        (run-Leaves machine u64_max)
                        (λ _.
                          bind-Leaves sys t (lib (call (λ h. (host_fn_addr h.foreign, h)))) _
                            (lib-Leaves sys t (call (λ h. (host_fn_addr h.foreign, h)))
                              (record { keeps = λ h q. refl }))
                            (λ addr.
                              bind-Leaves sys t _ _ (call_back-Leaves machine addr)
                                (λ _. say-Leaves sys t (Printed.stdout "Done")))))))))

        -- However each of the three programs ends, with an error, by `exit`, a panic, or the return of
        -- `main`, the machines that exist in the C library afterwards are those that existed before:
        -- the program's own machine has been deleted, and no other.
        pub mains-clean :
            (s : App F) (q : ℕ)
            → (t.exists (basic_main sys process s).1.host.foreign q ≡ t.exists s.host.foreign q)
              × (t.exists (vmcall_main sys process s).1.host.foreign q ≡ t.exists s.host.foreign q)
              × (t.exists (advanced_main sys process resolve host_fn_addr s).1.host.foreign q
                  ≡ t.exists s.host.foreign q)
        mains-clean s q = (
          basic_main-Leaves.leaves s q,
          vmcall_main-Leaves.leaves s q,
          advanced_main-Leaves.leaves s q,
        )
