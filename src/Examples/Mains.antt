-- ===== src/Examples/Mains.antt =====
-- examples/*.rs: the `main` functions, up to the drop of the machine at their end.
pub mod Advanced
pub mod Basic
pub mod Early
pub mod Leaves
pub mod Opens
pub mod Clean
use libriscv_rust_binding.Common.{
  ℕ, ◌+◌, ◌*◌, ◌-◌, ◌^◌, String, Option, none, some, List, [], ◌∷◌, ◌++◌, Result, ok, err, length,
  ◌==◌, if◌then◌else◌, Bool, true, ◌&&◌,
}
use libriscv_rust_binding.Common.Utf8.{is_utf8}
use libriscv_rust_binding.Sys.{Host, Sys}
use libriscv_rust_binding.Slice.{Slice}
use libriscv_rust_binding.Error.{Error}
use libriscv_rust_binding.Error.Action.{Action, attempt, call, on_memory}
use libriscv_rust_binding.Options
use libriscv_rust_binding.Options.{Options, builder}
use libriscv_rust_binding.Options.Setters.{max_memory, args, error_handler, stdout_handler}
use libriscv_rust_binding.Syscall
use libriscv_rust_binding.Syscall.{SyscallRegistry, registry_builder, handler_new}
use libriscv_rust_binding.Machine
use libriscv_rust_binding.Machine.{Machine, run, address_of, return_value}
use libriscv_rust_binding.Macros.Registry.{Registration}
use libriscv_rust_binding.Startup.{registry}
use libriscv_rust_binding.Examples.Handlers.{Printed, App, on_host}
use libriscv_rust_binding.Examples.Call.{literal, prepare_call}

-- How a `main` ends early: `std::process::exit`, a panic, or the error that it returns.
pub data Failure : Type 0 where
  exited : ℕ → Failure
  panicked : Failure
  io : Failure
  library : Error → Failure

abbrev pub Main : Type 0 → Type 0 → Type 0
Main F A = App F → Result Failure A × App F

module _ {F : Type 0} where
  abbrev pub done : {A : Type 0} → A → Main F A
  done a s = (ok a, s)

  abbrev pub stop_with : {A : Type 0} → Failure → Main F A
  stop_with e s = (err e, s)

  abbrev pub and_then :
      {A B : Type 0} → Result Failure A × App F → (A → Main F B) → Result Failure B × App F
  and_then (ok a, s) k = k a s
  and_then (err e, s) k = (err e, s)

  infixl 5 ◌>>=◌ ◌>>◌
  abbrev pub ◌>>=◌ : {A B : Type 0} → Main F A → (A → Main F B) → Main F B
  m >>= k = λ s. and_then (m s) k

  abbrev pub ◌>>◌ : {B : Type 0} → Main F (Unit {0}) → Main F B → Main F B
  m >> k = m >>= λ _. k

  -- `?` on a result of the wrapper.
  abbrev pub boxed : {A : Type 0} → Result Error A × App F → Result Failure A × App F
  boxed (ok a, s) = (ok a, s)
  boxed (err e, s) = (err (Failure.library e), s)

  abbrev pub lib : {A : Type 0} → Action (Host F) A → Main F A
  lib f s = boxed (on_host f s)

  abbrev pub say : Printed → Main F (Unit {0})
  say event s = (ok tt, record s { output = s.output ++ event ∷ [] })

-- The arguments of the process, and `std::fs::read`, which can fail.
pub record Process : Type 0 where
  pub args : List (List ℕ)
  pub read : List ℕ → Option (List ℕ)

-- The number that `u64::MAX` is.
abbrev pub u64_max : ℕ
u64_max = 2 ^ 64 - 1

-- b"Hello Sandboxed World!\0", and the name b"my_function".
abbrev pub hello_sandboxed : List ℕ
hello_sandboxed =
    72 ∷ 101 ∷ 108 ∷ 108 ∷ 111 ∷ 32 ∷ 83 ∷ 97 ∷ 110 ∷ 100 ∷ 98 ∷ 111 ∷ 120 ∷ 101 ∷ 100 ∷ 32 ∷ 87
    ∷ 111 ∷ 114 ∷ 108 ∷ 100 ∷ 33 ∷ 0 ∷ []

abbrev pub my_function : List ℕ
my_function = 109 ∷ 121 ∷ 95 ∷ 102 ∷ 117 ∷ 110 ∷ 99 ∷ 116 ∷ 105 ∷ 111 ∷ 110 ∷ []

-- b"Hello from a callback function!\0", and b"program".
abbrev pub hello_callback : List ℕ
hello_callback =
    72 ∷ 101 ∷ 108 ∷ 108 ∷ 111 ∷ 32 ∷ 102 ∷ 114 ∷ 111 ∷ 109 ∷ 32 ∷ 97 ∷ 32 ∷ 99 ∷ 97 ∷ 108 ∷ 108
    ∷ 98 ∷ 97 ∷ 99 ∷ 107 ∷ 32 ∷ 102 ∷ 117 ∷ 110 ∷ 99 ∷ 116 ∷ 105 ∷ 111 ∷ 110 ∷ 33 ∷ 0 ∷ []

abbrev pub program : List ℕ
program = 112 ∷ 114 ∷ 111 ∷ 103 ∷ 114 ∷ 97 ∷ 109 ∷ []

-- The handlers of `host_syscalls`, as `syscall_registry` collects them.
abbrev pub host_syscalls : List Registration
host_syscalls =
    record { id = 500; handler_name = "host_function_500_handler" }
    ∷ record { id = 501; handler_name = "host_function_501_handler" }
    ∷ record { id = 502; handler_name = "host_function_502_handler" }
    ∷ record { id = 503; handler_name = "host_function_503_handler" }
    ∷ []

module _ {F : Type 0} (sys : Sys F) where
  -- The bytes of the program file, if it could be read, with the arguments.
  unfoldable pub loaded : Option (List ℕ) → List (List ℕ) → Main F (Slice × List (List ℕ))
  unfolding literal
  loaded none given = stop_with Failure.io
  loaded (some bytes) given = do elf ← lib (on_memory (call (literal bytes))); done (elf, given)

  -- The machine is dropped when `main` returns, with an error or without.
  unfoldable pub with_machine : {A : Type 0} → Machine → Main F A → Main F A
  with_machine machine body s =
      let (r, t) = body s in (r, record t { host = Machine.drop sys machine t.host })

  abbrev pub status : Machine → Main F (Unit {0})
  status machine = do
    z ← lib (call (return_value sys machine))
    say (Printed.stdout_status "Program exited with status: " z)

  -- What `main` of advanced_syscalls.rs does with its machine. `HOST_FN_ADDR` is set by a handler while
  -- the C library runs the guest, so it is read from what the library and the handlers keep.
  unfoldable pub call_back : (host_fn_addr : F → ℕ) → Machine → Main F (Unit {0})
  call_back host_fn_addr machine = do
    lib (run sys machine u64_max)
    addr ← lib (call (λ h. (host_fn_addr h.foreign, h)))
    if addr == 0
        then say (Printed.stderr "Host function 502 was not called")
        else (do lib (prepare_call sys machine addr hello_callback); lib (run sys machine u64_max))
    say (Printed.stdout "Done")

  unfoldable pub call_if_found : Machine → Option ℕ → Main F (Unit {0})
  call_if_found machine (some addr) = do
    lib (prepare_call sys machine addr hello_sandboxed)
    lib (run sys machine u64_max)
  call_if_found machine none = say (Printed.stderr "Symbol my_function not found")

abbrev pub are_unicode : List (List ℕ) → Bool
are_unicode [] = true
are_unicode (a ∷ rest) = is_utf8 a && are_unicode rest

module _ {F : Type 0} (process : Process) where
  -- `std::env::args().collect()`, which panics on an argument that is not Unicode.
  unfoldable pub env_args : Main F (List (List ℕ))
  env_args = if are_unicode process.args then done process.args else stop_with Failure.panicked

module _ {F : Type 0} (sys : Sys F) (process : Process) where
  -- The program file, with the arguments behind the first. `args[0]` of no argument at all panics.
  unfoldable pub program_file : (usage : String) → List (List ℕ) → Main F (Slice × List (List ℕ))
  unfolding loaded
  program_file usage [] = stop_with Failure.panicked
  program_file usage (name ∷ []) = do
    say (Printed.stderr_usage name usage)
    stop_with (Failure.exited 1)
  program_file usage (name ∷ file ∷ others) = loaded sys (process.read file) (file ∷ others)

  unfoldable pub basic_main : Main F (Unit {0})
  unfolding env_args program_file with_machine
  basic_main = do
    all ← env_args process
    (elf, given) ← program_file "[program file] [arguments ...]" all
    start ← lib (call (builder sys))
    options ← lib (on_memory (Options.build (args given (max_memory (256 * 1024 * 1024) start))))
    machine ← lib (Machine.new sys elf options Syscall.empty)
    with_machine sys machine (do lib (run sys machine u64_max); status sys machine)

  unfoldable pub vmcall_main : Main F (Unit {0})
  unfolding env_args program_file with_machine call_if_found
  vmcall_main = do
    all ← env_args process
    (elf, given) ← program_file "[program file] [arguments ...]" all
    start ← lib (call (builder sys))
    options ← lib (on_memory (Options.build (args given (max_memory (64 * 1024 * 1024) start))))
    machine ← lib (Machine.new sys elf options Syscall.empty)
    with_machine sys machine (do
      lib (run sys machine 32_000_000)
      found ← lib (address_of sys machine my_function)
      call_if_found sys machine found
      status sys machine)

  -- `resolve` gives the trampoline of a `…_handler` function.
  unfoldable pub advanced_main : (resolve : String → ℕ) → (host_fn_addr : F → ℕ) → Main F (Unit {0})
  unfolding env_args program_file with_machine call_back
  advanced_main resolve host_fn_addr = do
    all ← env_args process
    (elf, given) ← program_file "[program file]" all
    registry ← lib (registry sys resolve host_syscalls)
    start ← lib (call (builder sys))
    options ← lib (
        on_memory (
          Options.build (
            args (program ∷ []) (
              error_handler (some (resolve "error_callback_handler"))
                (stdout_handler (some (resolve "stdout_callback_handler")) start)))))
    machine ← lib (Machine.new sys elf options registry)
    with_machine sys machine (call_back sys host_fn_addr machine)

module _ {F : Type 0} (sys : Sys F) where
  -- `unwrap`: an error is a panic.
  abbrev pub unwrapped : {A : Type 0} → Result Error A × App F → Result Failure A × App F
  unwrapped (ok a, s) = (ok a, s)
  unwrapped (err e, s) = (err Failure.panicked, s)

  -- examples/registry_thread.rs up to the thread, which shares nothing with the registry.
  unfoldable pub registry_thread_main : (resolve : String → ℕ) → Main F SyscallRegistry
  registry_thread_main resolve = do
    id ← λ s. unwrapped (on_host (attempt (Syscall.new 500)) s)
    λ s.
        unwrapped (
          on_host (Syscall.register sys registry_builder id (handler_new (resolve "nop_handler")))
            s)
    done (Syscall.build registry_builder)
