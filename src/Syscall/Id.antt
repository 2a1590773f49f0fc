-- ===== src/Syscall/Id.antt =====
-- Which numbers are syscall ids.
use libriscv_rust_binding.Common.{ℕ, ◌≡◌, ok, err, arith, ltb, if◌then◌else◌}
use libriscv_rust_binding.Error.{Error}
use libriscv_rust_binding.Syscall.{try_from}

-- A number of any size becomes the id of that number if it is below 512, and otherwise an error that
-- names the number itself: the check against `u32::MAX` keeps the cast from wrapping.
pub try_from-outcome :
    (value : ℕ)
    → try_from value ≡ (
        if ltb value 512
        then ok (record { index = value })
        else err (Error.invalid_syscall_index value 511))
unfolding try_from
try_from-outcome value = ground arith
