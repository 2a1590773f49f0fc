-- ===== src/Tests/Names.antt =====
-- src/lib.rs: names and paths that go to the C library.
use libriscv_rust_binding.Common.{ℕ, ◌≡◌, ◌⊎◌, arith, true, false, some, ok, err, [], ◌∷◌}
use libriscv_rust_binding.Common.Utf8.{is_utf8}
use libriscv_rust_binding.Memory.Strings.{first_nul}
use libriscv_rust_binding.Slice.{nonzero}
use libriscv_rust_binding.Error.{Error}
use libriscv_rust_binding.Machine.{address_of, allow_file}
use libriscv_rust_binding.Machine.Names.{Passed, address_of-outcome, allow_file-outcome}
use libriscv_rust_binding.Tests.Sample.{sample_host, sample_memory, sample_machine}
use libriscv_rust_binding.Tests.Toy.{toy}

address_of-outcome_example :
    ((c : Passed sample_memory (109 ∷ [])) × (let (a, h') =
          toy.libriscv_address_of 400 c.p (record sample_host { memory = c.memory }) in
        address_of toy sample_machine (109 ∷ []) sample_host ≡ (ok (nonzero a), h')))
    ⊎ ((i : ℕ) × (first_nul (109 ∷ []) ≡ some i)
        × (address_of toy sample_machine (109 ∷ []) sample_host
            ≡ (err (Error.nul_error (record { position = i; bytes = 109 ∷ [] })), sample_host)))
address_of-outcome_example =
    address_of-outcome toy sample_machine (109 ∷ []) sample_host (omega arith)

allow_file-outcome_example :
    ((is_utf8 (255 ∷ []) ≡ false)
      × (allow_file toy sample_machine (255 ∷ []) sample_host
          ≡ (err Error.non_utf8_path, sample_host)))
    ⊎ ((is_utf8 (255 ∷ []) ≡ true)
        × (((c : Passed sample_memory (255 ∷ [])) × (let (_, h') =
                  toy.libriscv_allow_file 400 c.p (record sample_host { memory = c.memory }) in
                allow_file toy sample_machine (255 ∷ []) sample_host ≡ (ok tt, h')))
            ⊎ ((i : ℕ) × (first_nul (255 ∷ []) ≡ some i)
                × (allow_file toy sample_machine (255 ∷ []) sample_host ≡ (
                  err (Error.nul_error (record { position = i; bytes = 255 ∷ [] })),
                  sample_host,
                )))))
allow_file-outcome_example =
    allow_file-outcome toy sample_machine (255 ∷ []) sample_host (omega arith)
