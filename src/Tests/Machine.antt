-- ===== src/Tests/Machine.antt =====
-- src/lib.rs: `Machine`, at concrete inputs.
use libriscv_rust_binding.Common.{
  ◌==◌, ◌||◌, ◌≡◌, ◌⊎◌, ◌↔◌, refl, ok, none, [], ◌∷◌, pos, negsuc, true, false, ◌≤◌, ◌<◌, ◌%◌,
  u32_max, err, is_negative, low_u32, arith, ltb, if◌then◌else◌,
}
use libriscv_rust_binding.Raw.{page_size}
use libriscv_rust_binding.Memory.{Memory, Extends-refl, alloc_bytes}
use libriscv_rust_binding.Slice.{contents}
use libriscv_rust_binding.Sys.{Host}
use libriscv_rust_binding.Error.{Error}
use libriscv_rust_binding.Error.Action.{◌>>◌}
use libriscv_rust_binding.Error.Check.{check_code}
use libriscv_rust_binding.Error.Ends.{Ends}
use libriscv_rust_binding.Syscall.{SyscallRegistry}
use libriscv_rust_binding.Machine.{Machine, new, step, to_owned}
use libriscv_rust_binding.Machine.Create.{created, new-outcome, new-keeps}
use libriscv_rust_binding.Machine.Step.{meaning, step-outcome, step-none}
use libriscv_rust_binding.Machine.Guest.{read_memory, write_memory, insert_non_owned_memory}
use libriscv_rust_binding.Machine.Guest.Aligned.{insert_non_owned_memory-outcome}
use libriscv_rust_binding.Machine.Guest.RoundTrip.{read_memory-write_memory}
use libriscv_rust_binding.Tests.Sample.{
  sample_host, sample_memory, sample_slice, sample_options, sample_machine, sample_page,
}
use libriscv_rust_binding.Tests.Toy.{Toy, toy, toy_guest}

abbrev token : SyscallRegistry
token = SyscallRegistry.registry_token

new-outcome_example :
    Ends
      (λ machine h'.
        (sample_slice.len ≤ u32_max)
        × (0 < (created toy sample_slice sample_options token sample_host).0)
        × (h' ≡ (created toy sample_slice sample_options token sample_host).1)
        × (machine ≡ record {
          ptr = (created toy sample_slice sample_options token sample_host).0;
          elf = (to_owned sample_slice sample_memory).0;
          options = sample_options;
        }))
      (λ e h'.
        ((u32_max < sample_slice.len)
          × (e ≡ Error.elf_too_large sample_slice.len)
          × (h' ≡ sample_host))
        ⊎ ((sample_slice.len ≤ u32_max)
            × ((created toy sample_slice sample_options token sample_host).0 ≡ 0)
            × (e ≡ Error.null_pointer "libriscv_new")
            × (h' ≡ (created toy sample_slice sample_options token sample_host).1)))
      (new toy sample_slice sample_options token sample_host)
new-outcome_example = new-outcome toy sample_slice sample_options token sample_host

-- The host after `new`, and a memory in which all that was allocated before it is overwritten.
abbrev made_host : Host Toy
made_host = record {
  memory = (alloc_bytes (98 ∷ 97 ∷ 100 ∷ []) sample_memory).1;
  foreign = record sample_host.foreign { machines = λ q. 400 == q || false; next = 401 };
}

abbrev made_machine : Machine
made_machine = record { ptr = 400; elf = record { address = 5; len = 3 }; options = sample_options }

abbrev later_memory : Memory
later_memory = record made_host.memory {
  byte = λ q. if ltb q 5 then 9 else made_host.memory.byte q;
}

new-keeps_example :
    (sample_memory.limit ≤ made_machine.elf.address)
    × (made_machine.elf.len ≡ 3)
    × (contents later_memory made_machine.elf ≡ contents sample_memory sample_slice)
unfolding new to_owned alloc_bytes
new-keeps_example =
    new-keeps toy sample_slice sample_options token sample_host {machine = made_machine}
      {h' = made_host} later_memory refl (Extends-refl made_host.memory)
      (λ q lo hi. ground (arith, lo))

step-outcome_example :
    step toy sample_machine false sample_host
    ≡ (meaning toy sample_machine false sample_host (negsuc 4) sample_host, sample_host)
step-outcome_example =
    step-outcome toy sample_machine false sample_host (negsuc 4) sample_host (omega arith) refl

step-none_example : ((step toy sample_machine true sample_host).0 ≡ ok none) ↔ (
    (negsuc 0xffff_ffff ≡ pos 0)
    ⊎ ((is_negative (negsuc 0xffff_ffff) ≡ true) × (low_u32 (negsuc 0xffff_ffff) ≡ 0)))
step-none_example = step-none toy sample_machine true sample_host

insert_non_owned_memory-outcome_example :
    ((¬ ((8192 % page_size ≡ 0) × (100 % page_size ≡ 0)))
      × (insert_non_owned_memory toy sample_machine 8192 1 100 sample_page sample_host
          ≡ (err (Error.unaligned_page_range 8192 100), sample_host)))
    ⊎ ((8192 % page_size ≡ 0)
        × (100 % page_size ≡ 0)
        × (insert_non_owned_memory toy sample_machine 8192 1 100 sample_page sample_host
            ≡ check_code toy "libriscv_insert_non_owned_memory" (pos 0) sample_host))
insert_non_owned_memory-outcome_example =
    insert_non_owned_memory-outcome toy sample_machine 8192 1 100 sample_page sample_host

read_memory-write_memory_example :
    ((write_memory toy sample_machine 70 sample_slice >> read_memory toy sample_machine 70 3)
      sample_host).0
    ≡ ok (98 ∷ 97 ∷ 100 ∷ [])
read_memory-write_memory_example =
    read_memory-write_memory toy sample_machine (toy_guest 400) 70 sample_slice sample_host
      (omega arith) tt
