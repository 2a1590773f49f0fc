-- ===== src/Error/Check.antt =====
-- src/lib.rs: `error_message` and `check_code`.
use libriscv_rust_binding.Common.{
  ℤ, String, Option, none, some, List, ℕ, ok, err, ◌==◌, if◌then◌else◌, is_negative, is_zero,
}
use libriscv_rust_binding.Common.Utf8.{is_utf8}
use libriscv_rust_binding.Raw.{null}
use libriscv_rust_binding.Memory.Strings.{c_str}
use libriscv_rust_binding.Sys.{Host, Sys}
use libriscv_rust_binding.Error.{Error}
use libriscv_rust_binding.Error.Action.{Action}

-- `str::from_utf8(bytes).ok()`.
abbrev pub to_str : List ℕ → Option (List ℕ)
to_str bs = if is_utf8 bs then some bs else none

module _ {F : Type 0} (sys : Sys F) where
  unfoldable pub error_message : ℤ → Host F → Option (List ℕ)
  error_message code h =
      if is_negative code
      then (let ptr = sys.libriscv_strerror code h in
          if ptr == null
          then none
          else elim (c_str h.memory ptr) [ none ↦ none | some s ↦ to_str s ])
      else none

  unfoldable pub check_code : String → ℤ → Action (Host F) (Unit {0})
  unfolding error_message
  check_code op code h =
      ((if is_zero code then ok tt else err (Error.library op code (error_message code h))), h)
