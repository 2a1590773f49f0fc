-- ===== src/Error/Message.antt =====
-- src/lib.rs: what a return code of the C library becomes.
use libriscv_rust_binding.Common.{
  ℕ, zero, suc, ℤ, pos, negsuc, String, ◌≡◌, refl, true, false, none, some, List, ok, err, arith,
  ◌==◌,
}
use libriscv_rust_binding.Common.Utf8.{is_utf8}
use libriscv_rust_binding.Raw.{null}
use libriscv_rust_binding.Memory.Strings.{HoldsString, c_str-HoldsString}
use libriscv_rust_binding.Sys.{Host, Sys}
use libriscv_rust_binding.Error.{Error, Fallible}
use libriscv_rust_binding.Error.Check.{error_message, check_code}

-- What a code means, where the library's message for it is `message`: 0 is success, and only a
-- negative code has a message.
abbrev pub outcome : String → ℤ → (message : List ℕ) → Fallible (Unit {0})
outcome op (pos zero) message = ok tt
outcome op (pos (suc n)) message = err (Error.library op (pos (suc n)) none)
outcome op (negsuc n) message = err (Error.library op (negsuc n) (some message))

-- When `libriscv_strerror` points to a C string that is UTF-8, a code of 0 is success, a positive one
-- an error without a message, and a negative one an error with exactly that string; the error names
-- the function that was called, and nothing is changed.
pub check_code-outcome :
    {F : Type 0} (sys : Sys F) (op : String) (code : ℤ) (message : List ℕ) (h : Host F)
    → HoldsString h.memory (sys.libriscv_strerror code h) message
    → is_utf8 message ≡ true
    → check_code sys op code h ≡ (outcome op code message, h)
unfolding check_code error_message
check_code-outcome sys op (pos zero) message h held valid = refl
check_code-outcome sys op (pos (suc n)) message h held valid = ground arith
check_code-outcome sys op (negsuc n) message h held valid =
    let ne : (sys.libriscv_strerror (negsuc n) h == null) ≡ false = ground (arith, held.nonnull) in
    rw (ne, c_str-HoldsString held, valid) refl
