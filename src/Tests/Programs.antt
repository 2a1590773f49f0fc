-- ===== src/Tests/Programs.antt =====
-- examples/*.rs: the handlers and the programs, with the small C library.
use libriscv_rust_binding.Common.{
  ℕ, ◌+◌, ◌%◌, ◌≤◌, ◌<◌, ◌≡◌, refl, arith, ok, some, List, [], ◌∷◌, ◌++◌, take, min, replicate, set,
}
use libriscv_rust_binding.Common.Utf8.{is_utf8}
use libriscv_rust_binding.Raw.{RiscvOptions}
use libriscv_rust_binding.Memory.{read_bytes, read_cells, write_cells}
use libriscv_rust_binding.Error.{Error}
use libriscv_rust_binding.Options.{Options}
use libriscv_rust_binding.Options.Setters.{args}
use libriscv_rust_binding.Slice.{Slice, contents}
use libriscv_rust_binding.Sys.{Host}
use libriscv_rust_binding.Syscall.Context.{SyscallContext}
use libriscv_rust_binding.Registers.{x}
use libriscv_rust_binding.Examples.Layout.{strings_from_bytes, strings_size}
use libriscv_rust_binding.Examples.Handlers.{Printed, App, host_function_500}
use libriscv_rust_binding.Examples.Handlers.Prints.{Argument, lines, host_function_500-prints}
use libriscv_rust_binding.Examples.Handlers.Fills.{Given}
use libriscv_rust_binding.Examples.Call.{literal, pass_text}
use libriscv_rust_binding.Examples.Call.Passes.{pass_text-passes}
use libriscv_rust_binding.Examples.Mains.{
  Failure, Process, basic_main, vmcall_main, advanced_main, with_machine, call_back,
}
use libriscv_rust_binding.Examples.Mains.Advanced.{Installed, advanced_main-opens}
use libriscv_rust_binding.Examples.Mains.Opens.{defaults_taken, opened}
use libriscv_rust_binding.Examples.Mains.Basic
use libriscv_rust_binding.Examples.Mains.Basic.{after_new, basic_main-runs}
use libriscv_rust_binding.Examples.Mains.Early.{Stops, last_state, basic_main-Stops}
use libriscv_rust_binding.Examples.Mains.Clean.{mains-clean}
use libriscv_rust_binding.Tests.Sample.{
  sample_host, sample_memory, sample_machine, sample_slice, sample_resolve,
}
use libriscv_rust_binding.Tests.Toy.{
  Toy, toy, toy_machines, toy_guest, toy_strings, toy_register_file, toy_others, toy-SetKeeps,
  toy-DefaultsExtend, toy-DefaultsKeepTable, toy_table,
}

abbrev context : SyscallContext
context = record { machine = 400 }

-- A host whose memory has the given bytes where the guest's address 0 is seen.
abbrev holding : List ℕ → App Toy
holding bytes = record {
  host = record sample_host {
    memory = record sample_memory { byte = write_cells 1 sample_memory.byte 10000 bytes };
  };
  output = [];
  host_fn_addr = 0;
}

argument : (bytes : List ℕ) → Argument toy 400 (holding bytes).host 0
argument bytes = record { ptr = 500; present = omega arith; found = refl; holds = refl }

abbrev some_strings : App Toy
some_strings = holding (2 ∷ 0 ∷ 0 ∷ 0 ∷ 0 ∷ 0 ∷ 0 ∷ 0 ∷ 5 ∷ [])

host_function_500-prints_example :
    let given = strings_from_bytes (read_bytes some_strings.host.memory 10000 strings_size) in
    host_function_500 toy context some_strings ≡ (
      ok tt,
      record some_strings {
        output =
            Printed.stdout "Hello from host function 0!"
            ∷ lines
                (λ src. toy_strings.text some_strings.host src 256)
                (take (min given.count 32) given.strings);
      },
    )
host_function_500-prints_example =
    host_function_500-prints toy context toy_strings 0 10000 some_strings
      (argument (2 ∷ 0 ∷ 0 ∷ 0 ∷ 0 ∷ 0 ∷ 0 ∷ 0 ∷ 5 ∷ [])) (omega arith) refl

abbrev some_buffers : App Toy
some_buffers = holding (replicate 264 0 ++ 44 ∷ 1 ∷ 0 ∷ 0 ∷ 0 ∷ 0 ∷ 0 ∷ 0 ∷ 88 ∷ 2 ∷ [])

-- A guest whose stack pointer is 1000.
abbrev stacked : Host Toy
stacked = record sample_host {
  memory = record sample_memory {
    registers =
        λ _. record { r = set (replicate 32 0) 2 1000; pc = 0; fcsr = 0; fr = replicate 32 0 };
  };
}

pass_text-passes_example :
    let (result, h') = pass_text toy sample_machine sample_slice stacked in
    (str_addr : ℕ) × (result ≡ ok tt)
    × (str_addr % 16 ≡ 0)
    × (str_addr + 3 ≤ 1000)
    × (1000 < str_addr + 3 + 16)
    × ((x (record { ptr = 500 }) 2 h'.memory).0 ≡ ok str_addr)
    × ((x (record { ptr = 500 }) 10 h'.memory).0 ≡ ok str_addr)
    × (read_cells 1 h'.foreign.byte str_addr 3 ≡ contents stacked.memory sample_slice)
unfolding x
pass_text-passes_example =
    pass_text-passes toy sample_machine (toy_guest 400) toy_register_file 1000 sample_slice stacked
      (record { r_length = refl; fr_length = refl }) refl (omega arith) (omega arith) (omega arith)
      (λ dst below near. tt)

abbrev process : Process
process = record { args = (112 ∷ []) ∷ (102 ∷ []) ∷ []; read = λ _. some (1 ∷ 2 ∷ 3 ∷ []) }

abbrev app : App Toy
app = record { host = sample_host; output = []; host_fn_addr = 0 }

mains-clean_example :
    (toy_machines.exists (basic_main toy process app).1.host.foreign 400
      ≡ toy_machines.exists sample_host.foreign 400)
    × (toy_machines.exists (vmcall_main toy process app).1.host.foreign 400
        ≡ toy_machines.exists sample_host.foreign 400)
    × (toy_machines.exists
          (advanced_main toy process sample_resolve (λ f. f.next) app).1.host.foreign
          400
        ≡ toy_machines.exists sample_host.foreign 400)
mains-clean_example =
    mains-clean toy toy_machines process toy_others sample_resolve (λ f. f.next) app 400

basic_main-runs_example :
    (elf_prog : ℕ) × (raw : RiscvOptions) × (h : Host Toy) × Basic.Given
      (1 ∷ 2 ∷ 3 ∷ [])
      ((102 ∷ []) ∷ [])
      elf_prog
      raw
      sample_memory
      h.memory
    × (h.foreign
        ≡ (defaults_taken toy
            (record sample_host { memory = (literal (1 ∷ 2 ∷ 3 ∷ []) sample_memory).1 })).foreign)
    × (basic_main toy process app ≡ after_new toy app (toy.libriscv_new elf_prog 3 raw h))
unfolding is_utf8
basic_main-runs_example =
    basic_main-runs toy toy-DefaultsExtend process (112 ∷ []) (102 ∷ []) [] (1 ∷ 2 ∷ 3 ∷ []) app
      refl refl refl (omega arith) (omega arith) refl (omega arith)

-- An argument that is a NUL byte.
abbrev bad_process : Process
bad_process = record { args = (112 ∷ []) ∷ (0 ∷ []) ∷ []; read = λ _. some (1 ∷ 2 ∷ 3 ∷ []) }

basic_main-Stops_example :
    Stops toy app
      (Failure.library (Error.nul_error (record { position = 0; bytes = 0 ∷ [] })))
      (last_state toy app bad_process.args bad_process.read)
      []
      (basic_main toy bad_process app)
unfolding args is_utf8
basic_main-Stops_example =
    basic_main-Stops toy app toy-DefaultsExtend bad_process
      (Failure.library (Error.nul_error (record { position = 0; bytes = 0 ∷ [] }))) (omega arith)
      refl

advanced_main-opens_example :
    (elf : Slice) × (options : Options) × (h : Host Toy) × Installed toy toy-SetKeeps sample_resolve
      toy_table
      (1 ∷ 2 ∷ 3 ∷ [])
      sample_host
      elf.address
      options.raw
      h
    × (advanced_main toy process sample_resolve (λ f. f.next) app
        ≡ opened app elf options
            (λ machine. with_machine toy machine (call_back toy (λ f. f.next) machine))
            (toy.libriscv_new elf.address 3 options.raw h))
unfolding is_utf8
advanced_main-opens_example =
    advanced_main-opens toy toy-SetKeeps sample_resolve toy_table toy-DefaultsExtend
      toy-DefaultsKeepTable process (λ f. f.next) (112 ∷ []) (102 ∷ []) [] (1 ∷ 2 ∷ 3 ∷ []) app refl
      refl refl (omega arith) (omega arith)
