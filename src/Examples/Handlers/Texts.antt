-- ===== src/Examples/Handlers/Texts.antt =====
-- examples/advanced_syscalls.rs with libriscv-macros/src/lib.rs: from the C library's call of a
-- trampoline to what the program's callbacks print.
use libriscv_rust_binding.Common.{
  ℕ, ℤ, ◌<◌, false, ◌≡◌, refl, ◌∙◌, List, [], ◌∷◌, ◌++◌, arith, length, ◌==◌, if◌then◌else◌,
}
use libriscv_rust_binding.Common.Utf8.{from_utf8_lossy}
use libriscv_rust_binding.Raw.{null}
use libriscv_rust_binding.Memory.{Memory, Holds}
use libriscv_rust_binding.Memory.Strings.{HoldsString}
use libriscv_rust_binding.Callbacks.{stdout_context}
use libriscv_rust_binding.Callbacks.Laws.{error_context-HoldsString, stdout_context-Holds}
use libriscv_rust_binding.Trampoline.{Outcome, handle_unit, error_trampoline, stdout_trampoline}
use libriscv_rust_binding.Examples.Handlers.{
  Printed, App, error_callback, stdout_callback, null_text,
}

module _ {F : Type 0} where
  -- A callback that only prints, as the function of the program that the macro wraps.
  abbrev pub printing : {C : Type 0} → (C → List Printed) → C → App F → Outcome (Unit {0}) × App F
  printing callback ctx s = (Outcome.returned tt, record s { output = s.output ++ callback ctx })

  abbrev pub app_memory : App F → Memory
  app_memory s = s.host.memory

  -- The C library's call of the error callback.
  abbrev pub on_error : (opaque : ℕ) → ℤ → (msg : ℕ) → ℤ → App F → App F
  on_error = error_trampoline app_memory handle_unit (printing error_callback)

  abbrev pub on_stdout : (opaque msg len : ℕ) → App F → App F
  on_stdout = stdout_trampoline app_memory handle_unit (printing stdout_callback)

  -- When the C library reports an error with a message that is a C string, the program prints that
  -- message with the data of the error, and "<null>" for a null message. When the guest prints
  -- bytes from a buffer that is not null, the program prints these, and nothing if there are none.
  -- In both texts a U+FFFD is printed in the place of each part that is not UTF-8. Nothing else of
  -- the program's state changes.
  pub callbacks-print :
      (opaque msg buffer : ℕ) (code given : ℤ) (text bs : List ℕ) (s : App F)
      → HoldsString s.host.memory msg text
      → Holds 1 s.host.memory.byte buffer bs
      → 0 < buffer
      → (on_error opaque code msg given s ≡ record s {
        output = s.output ++ Printed.stderr_error (from_utf8_lossy text) given ∷ [];
      })
        × (on_error opaque code null given s
            ≡ record s { output = s.output ++ Printed.stderr_error null_text given ∷ [] })
        × (on_stdout opaque buffer (length bs) s ≡ record s {
          output =
              s.output
              ++ (if length bs == 0
                  then []
                  else Printed.stdout_text "[libriscv] stdout: " (from_utf8_lossy bs) ∷ []);
        })
  unfolding error_trampoline stdout_trampoline error_callback stdout_callback
  callbacks-print opaque msg buffer code given text bs s string held present =
      let (message, _, _) =
        error_context-HoldsString opaque msg code given text s.host.memory string in
      let bytes = stdout_context-Holds opaque buffer (length bs) bs s.host.memory held refl in
      let test : (buffer == null) ≡ false = ground arith in
      let given_bytes : (stdout_context opaque buffer (length bs) s.host.memory).bytes ≡ bs =
        bytes ∙ rw test refl in
      (rw message refl, refl, rw given_bytes refl)
