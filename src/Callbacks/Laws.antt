-- ===== src/Callbacks/Laws.antt =====
-- Error codes and error types, and what a callback sees of the memory.
use libriscv_rust_binding.Common.{
  ℕ, ℤ, ◌≡◌, ◌≢◌, ◌↔◌, refl, none, some, List, [], ◌∷◌, arith, length, ◌==◌, false, if◌then◌else◌,
  ap, ◌∙◌,
}
use libriscv_rust_binding.Raw.{
  null, error_type_general_exception, error_type_machine_exception, error_type_machine_timeout,
}
use libriscv_rust_binding.Memory.{Memory, Holds, read_bytes, read_cells-Holds}
use libriscv_rust_binding.Memory.Strings.{HoldsString, c_str-HoldsString}
use libriscv_rust_binding.Callbacks.{ErrorType, from_raw, as_raw, error_context, stdout_context}

-- No code is lost: the raw code of a classified error is the code that was reported.
pub as_raw-from_raw : (code : ℤ) → as_raw (from_raw code) ≡ code
unfolding from_raw as_raw
as_raw-from_raw code = ground arith

-- An error type is the classification of its own raw code exactly when it does not hide a known
-- code under `unknown`.
pub from_raw-as_raw :
    (t : ErrorType)
    → (from_raw (as_raw t) ≡ t) ↔ (
        (t ≢ ErrorType.unknown error_type_general_exception)
        × (t ≢ ErrorType.unknown error_type_machine_exception)
        × (t ≢ ErrorType.unknown error_type_machine_timeout))
unfolding from_raw as_raw
from_raw-as_raw t = ground arith

-- When the buffer holds the bytes that the guest printed and `len` is their number, a callback gets
-- exactly these bytes, and none for a null buffer.
pub stdout_context-Holds :
    (opaque msg len : ℕ) (bs : List ℕ) (m : Memory)
    → Holds 1 m.byte msg bs
    → len ≡ length bs
    → (stdout_context opaque msg len m).bytes ≡ (if msg == null then [] else bs)
unfolding stdout_context
stdout_context-Holds opaque msg len [] m held e = ground (arith)
stdout_context-Holds opaque msg len (b ∷ bs) m held e =
    let readback : read_bytes m msg len ≡ b ∷ bs =
      ap (read_bytes m msg) e ∙ read_cells-Holds 1 m.byte msg (b ∷ bs) held in
    ground (arith, readback)

-- When the message pointer points to a C string, an error callback gets that string; it gets none
-- for a null pointer; and the code can be recovered from the classification.
pub error_context-HoldsString :
    (opaque msg : ℕ) (code value : ℤ) (bs : List ℕ) (m : Memory)
    → HoldsString m msg bs
    → ((error_context opaque code msg value m).message ≡ some bs)
      × ((error_context opaque code null value m).message ≡ none)
      × (as_raw (error_context opaque code msg value m).error_type ≡ code)
unfolding error_context
error_context-HoldsString opaque msg code value bs m held =
    let ne : (msg == null) ≡ false = ground (arith, held.nonnull) in
    (rw ne (c_str-HoldsString held), refl, as_raw-from_raw code)
