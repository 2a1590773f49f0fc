-- ===== src/Tests/Syscall.antt =====
-- src/syscall.rs: ids, contexts and registration, at concrete inputs.
use libriscv_rust_binding.Common.{
  ℕ, ◌≡◌, refl, ok, err, [], ◌∷◌, none, arith, negsuc, ◌==◌, if◌then◌else◌,
}
use libriscv_rust_binding.Sys.{Sys}
use libriscv_rust_binding.Error.Check.{error_message}
use libriscv_rust_binding.Slice.{Slice, contents}
use libriscv_rust_binding.Error.{Error}
use libriscv_rust_binding.Error.Action.{◌>>◌}
use libriscv_rust_binding.Syscall
use libriscv_rust_binding.Syscall.{SyscallId, get, try_from, registry_builder}
use libriscv_rust_binding.Syscall.Context.{SyscallContext, read, write}
use libriscv_rust_binding.Syscall.Context.Views.{read-write}
use libriscv_rust_binding.Startup.{register, registry}
use libriscv_rust_binding.Startup.Installs.{declared, after, registry-installs, register-stops}
use libriscv_rust_binding.Macros.Registry.{
  Registration, syscall_registry, scan_items, scan_attrs, scan_item, scan_mark,
}
use libriscv_rust_binding.Macros.{parse_syscall_attr, parse_syscall_id}
use libriscv_rust_binding.Tests.Sample.{
  sample_host, sample_memory, sample_slice, sample_items, sample_registrations, sample_resolve,
}
use libriscv_rust_binding.Tests.Toy.{Toy, toy, toy_table, toy_views}

abbrev context : SyscallContext
context = record { machine = 400 }

abbrev other_slice : Slice
other_slice = record { address = 200; len = 3 }

read-write_example :
    let (result, h') =
      (write toy context 70 sample_slice >> read toy context 70 other_slice) sample_host in
    (result ≡ ok tt) × (contents h'.memory other_slice ≡ contents sample_memory sample_slice)
read-write_example =
    read-write toy context (toy_views 400) 70 sample_slice other_slice sample_host (omega arith)
      refl (λ _. tt)

registry-installs_example :
    ((registry toy sample_resolve sample_registrations sample_host).0 ≡ ok Syscall.empty)
    × ((n : ℕ)
        → (registry toy sample_resolve sample_registrations sample_host).1.foreign.handlers n
          ≡ declared toy sample_resolve toy_table sample_registrations n none)
unfolding syscall_registry scan_items scan_item scan_attrs scan_mark parse_syscall_attr
    parse_syscall_id
registry-installs_example =
    registry-installs toy sample_resolve toy_table sample_items sample_registrations sample_host
      refl (omega arith, (omega arith, tt))

-- A C library that takes no handler for 501.
abbrev refusing : Sys Toy
refusing = record toy {
  libriscv_set_syscall_handler = λ num handler h.
      if num == 501 then (negsuc 6, h) else toy.libriscv_set_syscall_handler num handler h;
}

abbrev late_registration : Registration
late_registration = record { id = 502; handler_name = "gamma_handler" }

register-stops_example :
    register refusing sample_resolve
      (record { id = 500; handler_name = "alpha_handler" }
        ∷ record { id = 501; handler_name = "beta_handler" }
        ∷ late_registration
        ∷ [])
      registry_builder
      sample_host
    ≡ (
      err (
          Error.library "libriscv_set_syscall_handler" (negsuc 6) (
            error_message refusing (negsuc 6) (
              after refusing sample_resolve
                (record { id = 500; handler_name = "alpha_handler" } ∷ [])
                sample_host))),
      after refusing sample_resolve
          (record { id = 500; handler_name = "alpha_handler" } ∷ [])
          sample_host,
    )
register-stops_example =
    register-stops refusing sample_resolve
      (record { id = 500; handler_name = "alpha_handler" } ∷ [])
      (record { id = 501; handler_name = "beta_handler" }) (late_registration ∷ []) registry_builder
      sample_host (omega arith, tt) (omega arith) (refl, tt) refl
