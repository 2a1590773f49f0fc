-- ===== src/Tests/Error.antt =====
-- src/lib.rs: `check_code`, at a concrete input.
use libriscv_rust_binding.Common.{◌≡◌, refl, negsuc, [], ◌∷◌}
use libriscv_rust_binding.Common.Utf8.{is_utf8}
use libriscv_rust_binding.Error.Check.{check_code}
use libriscv_rust_binding.Error.Message.{outcome, check_code-outcome}
use libriscv_rust_binding.Tests.Sample.{sample_host, bad-HoldsString}
use libriscv_rust_binding.Tests.Toy.{toy}

check_code-outcome_example :
    check_code toy "libriscv_run" (negsuc 4) sample_host
    ≡ (outcome "libriscv_run" (negsuc 4) (98 ∷ 97 ∷ 100 ∷ []), sample_host)
unfolding is_utf8
check_code-outcome_example =
    check_code-outcome toy "libriscv_run" (negsuc 4) (98 ∷ 97 ∷ 100 ∷ []) sample_host
      bad-HoldsString refl
