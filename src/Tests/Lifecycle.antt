-- ===== src/Tests/Lifecycle.antt =====
-- src/lib.rs: a machine and a fork of it.
use libriscv_rust_binding.Common.{ℕ, ◌≡◌, refl, arith, false, ◌||◌, ◌==◌, none, some, [], ◌∷◌}
use libriscv_rust_binding.Memory.{alloc_bytes}
use libriscv_rust_binding.Sys.{Host}
use libriscv_rust_binding.Syscall.{SyscallRegistry}
use libriscv_rust_binding.Machine.{Machine, ForkedMachine, new, fast_fork, to_owned, empty_elf}
use libriscv_rust_binding.Machine.Calls.{Call, perform}
use libriscv_rust_binding.Machine.Lifecycle.{Program, Step, Steps, owns}
use libriscv_rust_binding.Machine.Lifecycle.Safe.{Distinct, machines-Distinct}
use libriscv_rust_binding.Machine.Lifecycle.Ending.{after_drops, can_end}
use libriscv_rust_binding.Tests.Sample.{sample_host, sample_memory, sample_slice, sample_options}
use libriscv_rust_binding.Tests.Toy.{Toy, toy, toy_machines, toy_others}

abbrev first_host : Host Toy
first_host = record {
  memory = (alloc_bytes (98 ∷ 97 ∷ 100 ∷ []) sample_memory).1;
  foreign = record sample_host.foreign { machines = λ q. 400 == q || false; next = 401 };
}

abbrev first : Machine
first = record { ptr = 400; elf = record { address = 5; len = 3 }; options = sample_options }

abbrev second_host : Host Toy
second_host = record first_host {
  foreign = record first_host.foreign {
    machines = λ q. 401 == q || (400 == q || false);
    next = 402;
  };
}

abbrev fork : ForkedMachine
fork = record { machine = record { ptr = 401; elf = empty_elf; options = sample_options } }

abbrev forked : Program Toy
forked = record {
  owned =
      record { machine = fork.machine; parent = some 400 }
      ∷ record { machine = first; parent = none }
      ∷ [];
  host = second_host;
}

creation :
    Step toy
      (record { owned = []; host = sample_host })
      (record { owned = record { machine = first; parent = none } ∷ []; host = first_host })
unfolding new to_owned alloc_bytes
creation = Step.creates sample_slice sample_options SyscallRegistry.registry_token refl

forking :
    Step toy
      (record { owned = record { machine = first; parent = none } ∷ []; host = first_host })
      forked
unfolding fast_fork
forking = Step.forks {fork = fork} first sample_options refl refl

-- The program then writes to the guest of the fork, and to its own memory.
abbrev written : Host Toy
written = perform toy fork.machine (Call.write_memory 8 sample_slice) second_host

abbrev busy : Program Toy
busy = record forked { host = record written { memory = sample_memory } }

writing : Step toy forked (record forked { host = written })
writing = Step.calls fork.machine (Call.write_memory 8 sample_slice) refl

history : Steps toy (record { owned = []; host = sample_host }) busy
history =
    Steps.then (Steps.then (Steps.then (Steps.then Steps.done creation) forking) writing)
      (Step.computes sample_memory)

machines-Distinct_example :
    Distinct busy.owned × ((q : ℕ) → toy_machines.exists busy.host.foreign q ≡ owns busy.owned q)
machines-Distinct_example =
    machines-Distinct toy toy_machines toy_others sample_host busy (λ q. ground arith) history

can_end_example :
    Steps toy busy (record { owned = []; host = after_drops toy busy.owned busy.host })
    × ((q : ℕ) → toy_machines.exists (after_drops toy busy.owned busy.host).foreign q ≡ false)
can_end_example = can_end toy toy_machines toy_others sample_host busy (λ q. ground arith) history
