-- ===== src/Tests/Options.antt =====
-- src/lib.rs: `Options` and its builder, at concrete inputs.
use libriscv_rust_binding.Common.{
  List, ℕ, ◌≤◌, ◌≡◌, ltb, if◌then◌else◌, false, refl, some, [], ◌∷◌, true, arith,
}
use libriscv_rust_binding.Memory.{Memory, Extends, alloc_bytes, alloc_words}
use libriscv_rust_binding.Memory.Strings.{cstring_new}
use libriscv_rust_binding.Options.{
  Options, OptionsBuilder, build, cstring, cstrings, pointers, optional_cstring, finish,
}
use libriscv_rust_binding.Options.Setters.{Setting, Slot}
use libriscv_rust_binding.Options.Chains.{Slot-discrete, chain, last_about, chain-last}
use libriscv_rust_binding.Options.Build.{build_error}
use libriscv_rust_binding.Options.Argv.{argv_view, symbol_view, to_error, build-outcome}
use libriscv_rust_binding.Options.Owned.{blocks, Tile}
use libriscv_rust_binding.Options.Owned.Reads.{Intact, build-owns}
use libriscv_rust_binding.Tests.Sample.{sample_memory, sample_builder}

abbrev built_memory : Memory
built_memory =
    let m = (alloc_bytes (104 ∷ 105 ∷ 0 ∷ []) sample_memory).1 in
    let m' = (alloc_words (5 ∷ 8 ∷ []) (alloc_bytes (106 ∷ 0 ∷ []) m).1).1 in
    (alloc_bytes (120 ∷ 0 ∷ []) m').1

abbrev built : Options
built = finish sample_builder.raw (record {
  args =
      record { bytes = 104 ∷ 105 ∷ []; address = 5 }
      ∷ record { bytes = 106 ∷ []; address = 8 }
      ∷ [];
  argv_ptrs = record { items = 5 ∷ 8 ∷ []; address = 10 };
  default_exit_function = some (record { bytes = 120 ∷ []; address = 26 });
})

-- What lies below the blocks of `build` has been written over.
abbrev later_memory : Memory
later_memory = record built_memory { byte = λ q. if ltb q 5 then 99 else built_memory.byte q }

later-spares : (q : ℕ) → 5 ≤ q → later_memory.byte q ≡ built_memory.byte q
later-spares q h = let test : ltb q 5 ≡ false = ground arith in rw test refl

later-Intact : Intact built_memory (blocks built.keepalive) later_memory
unfolding finish alloc_bytes alloc_words
later-Intact = (
  omega arith,
  λ q lo hi. (later-spares q (omega arith), refl),
  (
    omega arith,
    λ q lo hi. (later-spares q (omega arith), refl),
    (
      omega arith,
      λ q lo hi. (later-spares q (omega arith), refl),
      (omega arith, λ q lo hi. (later-spares q (omega arith), refl), tt),
    ),
  ),
)

build-owns_example :
    Tile 5 (blocks built.keepalive) built_memory.limit
    × ((later : Memory)
        → Intact built_memory (blocks built.keepalive) later
        → (argv_view later 2 10 ≡ some sample_builder.args)
          × (symbol_view later 26 ≡ some (120 ∷ [])))
unfolding build finish cstrings cstring cstring_new pointers optional_cstring alloc_bytes
    alloc_words
build-owns_example = build-owns sample_builder sample_memory (omega arith) refl

later_argv : argv_view later_memory 2 10 ≡ some sample_builder.args
unfolding build finish cstrings cstring cstring_new pointers optional_cstring alloc_bytes
    alloc_words
later_argv =
    let (_, reads) =
      build-owns sample_builder sample_memory {n = built_memory} {o = built} (omega arith) refl in
    (reads later_memory later-Intact).0

-- An argument with a NUL in it.
abbrev bad_builder : OptionsBuilder
bad_builder = record sample_builder { args = (104 ∷ []) ∷ (105 ∷ 0 ∷ []) ∷ [] }

build-outcome_example :
    (to_error (build bad_builder sample_memory).0 ≡ build_error bad_builder)
    × Extends sample_memory (build bad_builder sample_memory).1
build-outcome_example = build-outcome bad_builder sample_memory (omega arith)

abbrev long_chain : List Setting
long_chain =
    Setting.to_args ((97 ∷ []) ∷ [])
    ∷ Setting.to_strict_sandbox true
    ∷ Setting.to_clear_args
    ∷ Setting.to_args ((104 ∷ []) ∷ [])
    ∷ []

abbrev short_chain : List Setting
short_chain = Setting.to_args ((104 ∷ []) ∷ []) ∷ Setting.to_strict_sandbox true ∷ []

chains_agree : (k : Slot) → last_about k long_chain ≡ last_about k short_chain
unfolding Slot-discrete
chains_agree Slot.max_memory_slot = refl
chains_agree Slot.stack_size_slot = refl
chains_agree Slot.strict_sandbox_slot = refl
chains_agree Slot.use_memory_arena_slot = refl
chains_agree Slot.use_shared_execute_segments_slot = refl
chains_agree Slot.exit_function_slot = refl
chains_agree Slot.load_program_slot = refl
chains_agree Slot.protect_segments_slot = refl
chains_agree Slot.native_syscall_base_slot = refl
chains_agree Slot.arena_size_slot = refl
chains_agree Slot.args_slot = refl
chains_agree Slot.error_slot = refl
chains_agree Slot.stdout_slot = refl
chains_agree Slot.opaque_slot = refl

chain-last_example : chain long_chain sample_builder ≡ chain short_chain sample_builder
chain-last_example = chain-last long_chain short_chain sample_builder chains_agree
