-- ===== src/Tests/Examples.antt =====
-- examples/advanced_syscalls.rs: the texts and the callbacks, at concrete inputs.
use libriscv_rust_binding.Common.{◌≡◌, refl, arith, some, pos, [], ◌∷◌, length, drop}
use libriscv_rust_binding.Common.Utf8.{from_utf8_lossy}
use libriscv_rust_binding.Raw.{null}
use libriscv_rust_binding.Examples.Text.{write_c_string, until_nul, write_c_string-until_nul}
use libriscv_rust_binding.Examples.Handlers.{Printed, App, null_text}
use libriscv_rust_binding.Examples.Handlers.Texts.{on_error, on_stdout, callbacks-print}
use libriscv_rust_binding.Tests.Sample.{sample_host, bad-HoldsString}
use libriscv_rust_binding.Tests.Toy.{Toy}

write_c_string-until_nul_example :
    let (len, written) = write_c_string (7 ∷ 7 ∷ 7 ∷ 7 ∷ []) (98 ∷ 97 ∷ []) in
    (len ≡ 2)
    × (until_nul written ≡ some (98 ∷ 97 ∷ []))
    × (length written ≡ 4)
    × (drop 3 written ≡ 7 ∷ [])
unfolding write_c_string
write_c_string-until_nul_example =
    write_c_string-until_nul (7 ∷ 7 ∷ 7 ∷ 7 ∷ []) (98 ∷ 97 ∷ []) (omega arith) refl

abbrev app : App Toy
app = record { host = sample_host; output = []; host_fn_addr = 0 }

callbacks-print_example :
    (on_error 7 (pos 5) 1 (pos 3) app
      ≡ record app { output = Printed.stderr_error (98 ∷ 97 ∷ 100 ∷ []) (pos 3) ∷ [] })
    × (on_error 7 (pos 5) null (pos 3) app
        ≡ record app { output = Printed.stderr_error null_text (pos 3) ∷ [] })
    × (on_stdout 7 1 3 app ≡ record app {
      output = Printed.stdout_text "[libriscv] stdout: " (98 ∷ 97 ∷ 100 ∷ []) ∷ [];
    })
unfolding from_utf8_lossy
callbacks-print_example =
    callbacks-print 7 1 1 (pos 5) (pos 3) (98 ∷ 97 ∷ 100 ∷ []) (98 ∷ 97 ∷ 100 ∷ []) app
      bad-HoldsString (refl, (refl, (refl, tt))) (omega arith)

-- A character that breaks off becomes one U+FFFD, and so does a byte that begins none.
lossy :
    from_utf8_lossy (0xf0 ∷ 0x9f ∷ 65 ∷ 0xff ∷ [])
    ≡ 0xef ∷ 0xbf ∷ 0xbd ∷ 65 ∷ 0xef ∷ 0xbf ∷ 0xbd ∷ []
unfolding from_utf8_lossy
lossy = refl
