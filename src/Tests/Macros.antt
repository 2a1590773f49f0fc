-- ===== src/Tests/Macros.antt =====
-- libriscv-macros/src/lib.rs: the attribute macros, at concrete inputs.
use libriscv_rust_binding.Common.{List, err, ◌≡◌, ◌↔◌, ok, [], ◌∷◌, map, true, some}
use libriscv_rust_binding.Macros.Registry.Rejects.{IsRefused, syscall_registry-IsRefused}
use libriscv_rust_binding.Macros.Syntax.{Item, MacroError}
use libriscv_rust_binding.Macros.Handler.{Compiler, Meaning}
use libriscv_rust_binding.Macros.Registry.{syscall_registry}
use libriscv_rust_binding.Macros.Registry.Marks.{marks}
use libriscv_rust_binding.Macros.Registry.Accepts.{mark, Distinct, syscall_registry_iff}
use libriscv_rust_binding.Tests.Sample.{sample_function, sample_items, sample_registrations}

-- Every path means `libriscv::SyscallContext`, and every function is well typed.
abbrev compiler : Compiler
compiler = record { meaning = λ ty. Meaning.syscall_context; is_well_typed = λ f. true }

syscall_registry_iff_example :
    (syscall_registry true (ok (some sample_items))
      ≡ ok (record { items = sample_items; registrations = sample_registrations }))
    ↔ ((marks sample_items ≡ map mark sample_registrations) × Distinct [] sample_registrations)
syscall_registry_iff_example = syscall_registry_iff sample_items sample_registrations

-- Two functions with one id.
abbrev twice : List Item
twice =
    Item.function (sample_function "alpha" 500) ∷ Item.function (sample_function "beta" 500) ∷ []

syscall_registry-IsRefused_example :
    (syscall_registry true (ok (some twice)) ≡ err (MacroError.duplicate_syscall_id 500))
    ↔ IsRefused [] (marks twice) (MacroError.duplicate_syscall_id 500)
syscall_registry-IsRefused_example =
    syscall_registry-IsRefused twice (MacroError.duplicate_syscall_id 500)
