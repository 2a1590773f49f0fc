-- ===== src/Examples/Mains/Early.antt =====
-- examples/basic.rs: the ends of `main` before it calls `libriscv_new`.
use libriscv_rust_binding.Common.{
  ℕ, ◌<◌, ◌≡◌, refl, sym, ap, ◌∙◌, true, false, arith, Option, none, some, List, [], ◌∷◌, ◌++◌,
  Result, err, length, ltb, u32_max, if◌then◌else◌, Bool-cases, Option-cases, inl, inr,
}
use libriscv_rust_binding.Memory.{Memory, Extends, alloc_bytes}
use libriscv_rust_binding.Sys.{Host, Sys}
use libriscv_rust_binding.Error.{Error, Fallible}
use libriscv_rust_binding.Error.Ends.{Ends, returns, raises}
use libriscv_rust_binding.Options.{
  Options, OptionsBuilder, zeroed, default_raw_options, builder, build,
}
use libriscv_rust_binding.Options.Setters.{args, max_memory}
use libriscv_rust_binding.Options.Build.{IsBuilt, build-Ends, build_error}
use libriscv_rust_binding.Slice.{Slice}
use libriscv_rust_binding.Syscall.{empty}
use libriscv_rust_binding.Machine.{Machine, new}
use libriscv_rust_binding.Examples.Handlers.{Printed, App}
use libriscv_rust_binding.Examples.Call.{literal}
use libriscv_rust_binding.Examples.Mains.{
  Failure, Main, lib, and_then, Process, loaded, program_file, are_unicode, env_args, basic_main,
}
use libriscv_rust_binding.Examples.Mains.Basic.{settings}
use libriscv_rust_binding.Examples.Mains.Opens.{
  DefaultsExtend, defaults_taken, builder-host, build-Built,
}

-- Settings with an error are refused with it.
build-fails :
    (b : OptionsBuilder) (m : Memory) (e : Error)
    → 0 < m.limit
    → build_error b ≡ some e
    → (n : Memory) × (build b m ≡ (err e, n))
build-fails b m e room found = from_ends (build-Ends b m room)
  where
    from_ends :
        {r : Fallible Options × Memory}
        → Ends
            (λ o n. IsBuilt b n o × Extends m n × (build_error b ≡ none))
            (λ e n. (build_error b ≡ some e) × Extends m n)
            r
        → (n : Memory) × (r ≡ (err e, n))
    from_ends (returns (_, _, clean)) = absurd (cc (found, clean))
    from_ends (raises {e = x} {s} (given, _)) =
        let same : x ≡ e = cc (sym given ∙ found) in (s, ap (λ x. (err x, s)) same)

-- A builder to which nothing was set, whatever the defaults of the C library are.
abbrev blank : OptionsBuilder
blank = record { raw = zeroed; args = []; default_exit_function = none }

abbrev pub too_large : List ℕ → Option Failure
too_large bytes =
    if ltb u32_max (length bytes)
    then some (Failure.library (Error.elf_too_large (length bytes)))
    else none

-- What is wrong with the contents of the program file, or else with the arguments, or else with the
-- size of the program.
abbrev pub refused : Option (List ℕ) → List (List ℕ) → Option Failure
refused none given = some Failure.io
refused (some bytes) given = elim (build_error (settings blank given)) [
  | some e ↦ some (Failure.library e)
  | none ↦ too_large bytes
]

abbrev early_unicode : List (List ℕ) → (List ℕ → Option (List ℕ)) → Option Failure
early_unicode [] read = some Failure.panicked
early_unicode (name ∷ []) read = some (Failure.exited 1)
early_unicode (name ∷ file ∷ others) read = refused (read file) (file ∷ others)

-- Why the program ends early, if it does: from its arguments and from reading a file.
abbrev pub early : List (List ℕ) → (List ℕ → Option (List ℕ)) → Option Failure
early args read = if are_unicode args then early_unicode args read else some Failure.panicked

-- What is printed for arguments that are Unicode: how to call the program, if its name is its only one.
abbrev usage : List (List ℕ) → List Printed → List Printed
usage (name ∷ []) output = output ++ Printed.stderr_usage name "[program file] [arguments ...]" ∷ []
usage _ output = output

abbrev pub complaint : List (List ℕ) → List Printed → List Printed
complaint args output = if are_unicode args then usage args output else output

build_error-settings :
    {F : Type 0} (sys : Sys F) (h : Host F) (given : List (List ℕ))
    → build_error (settings (builder sys h).0 given) ≡ build_error (settings blank given)
unfolding args max_memory builder default_raw_options
build_error-settings sys h given = refl

module _ {F : Type 0} (sys : Sys F) (s : App F) where
  -- The state that `Options::builder` leaves the C library in, once the program file could be read; up
  -- to then the C library has not been called.
  abbrev called : Option (List ℕ) → F
  called none = s.host.foreign
  called (some bytes) =
      (defaults_taken sys (record s.host { memory = (literal bytes s.host.memory).1 })).foreign

  abbrev called_unicode : List (List ℕ) → (List ℕ → Option (List ℕ)) → F
  called_unicode (name ∷ file ∷ others) read = called (read file)
  called_unicode _ read = s.host.foreign

  abbrev pub last_state : List (List ℕ) → (List ℕ → Option (List ℕ)) → F
  last_state args read = if are_unicode args then called_unicode args read else s.host.foreign

  -- The end with that failure, with the C library in that state.
  pub record Stops (e : Failure) (state : F) (output : List Printed)
      (r : Result Failure (Unit {0}) × App F) : Type 0 where
    pub failed : r.0 ≡ err e
    pub left : r.1.host.foreign ≡ state
    pub printed : r.1.output ≡ output

  -- A program that is too large.
  large-Stops :
      (bytes : List ℕ) (e : Failure) (elf : Slice) (options : Options) (h : Host F)
      (rest : Machine → Main F (Unit {0}))
      → elf.len ≡ length bytes
      → too_large bytes ≡ some e
      → Stops e h.foreign s.output
          (and_then (lib (new sys elf options empty) (record s { host = h })) rest)
  unfolding new
  large-Stops bytes e elf options h rest same found =
      elim (Bool-cases (ltb u32_max (length bytes))) [
        | inl large ↦
            let why : too_large bytes
                ≡ some (Failure.library (Error.elf_too_large (length bytes))) =
              rw large refl in
            let error : Failure.library (Error.elf_too_large (length bytes)) ≡ e =
              cc (sym why ∙ found) in
            rw (same, large) (record { failed = ap err error; left = refl; printed = refl })
        | inr small ↦
            let why : too_large bytes ≡ none = rw small refl in absurd (cc (sym why ∙ found))
      ]

  module _ (d : DefaultsExtend sys) (name file : List ℕ) (others : List (List ℕ))
      (room : 0 < s.host.memory.limit) (unicode : are_unicode (name ∷ file ∷ others) ≡ true)
      (read : List ℕ → Option (List ℕ)) where
    abbrev ending : Result Failure (Unit {0}) × App F
    ending = basic_main sys (record { args = name ∷ file ∷ others; read = read }) s

    refused-Stops :
        (content : Option (List ℕ)) (e : Failure)
        → read file ≡ content
        → refused content (file ∷ others) ≡ some e
        → Stops e (called content) s.output ending
    unfolding basic_main env_args program_file loaded literal alloc_bytes
    refused-Stops none e content found =
        let same : Failure.io ≡ e = cc found in
        rw (unicode, content) (record { failed = ap err same; left = refl; printed = refl })
    refused-Stops (some bytes) e content found =
        let (elf, m) = literal bytes s.host.memory in
        let h0 : Host F = record s.host { memory = m } in
        let (start, h1) = builder sys h0 in
        let host = builder-host sys h0 in
        let kept : Extends m h1.memory = rw host (d.defaults_extend zeroed h0) in
        let b = settings start (file ∷ others) in
        let same_error = build_error-settings sys h0 (file ∷ others) in
        let state = ap (λ (h : Host F). h.foreign) host in
        elim (Option-cases (build_error b)) [
          | inr (x, given) ↦
              let (n, refuses) = build-fails b h1.memory x (omega (arith, kept.limit_le)) given in
              let refusal : refused (some bytes) (file ∷ others) ≡ some (Failure.library x) =
                rw (sym same_error ∙ given, refused) refl in
              let same : Failure.library x ≡ e = cc (sym refusal ∙ found) in
              rw (unicode, content, refuses)
                (record { failed = ap err same; left = state; printed = refl })
          | inl clean ↦
              let unrefused : refused (some bytes) (file ∷ others) ≡ too_large bytes =
                rw (sym same_error ∙ clean, refused) refl in
              let built = build-Built b h1.memory (omega (arith, kept.limit_le)) clean in
              let stopped =
                large-Stops bytes e elf built.options (record h1 { memory = built.memory }) _ refl
                  (sym unrefused ∙ found) in
              rw (unicode, content, built.result) (rw (sym state) stopped)
        ]

  unicode-Stops :
      (d : DefaultsExtend sys) (args : List (List ℕ)) (read : List ℕ → Option (List ℕ))
      (e : Failure)
      → 0 < s.host.memory.limit
      → are_unicode args ≡ true
      → early_unicode args read ≡ some e
      → Stops e
          (called_unicode args read)
          (usage args s.output)
          (basic_main sys (record { args = args; read = read }) s)
  unfolding basic_main env_args program_file
  unicode-Stops d [] read e room unicode found =
      let same : Failure.panicked ≡ e = cc found in
      record { failed = ap err same; left = refl; printed = refl }
  unicode-Stops d (name ∷ []) read e room unicode found =
      let same : Failure.exited 1 ≡ e = cc found in
      rw unicode (record { failed = ap err same; left = refl; printed = refl })
  unicode-Stops d (name ∷ file ∷ others) read e room unicode found =
      refused-Stops d name file others room unicode read (read file) e refl found

  other-Stops :
      (process : Process)
      → are_unicode process.args ≡ false
      → Stops Failure.panicked s.host.foreign s.output (basic_main sys process s)
  unfolding basic_main env_args
  other-Stops process other = rw other (record { failed = refl; left = refl; printed = refl })

  -- In a memory whose first free address is not null, and with a C library that only adds to the
  -- memory when it fills in its defaults, `main` of basic.rs ends early if one of these applies,
  -- the first that does: with an argument that is not UTF-8, or without any argument, it panics;
  -- with its name alone it prints how to call it, which it prints in no other case, and exits with
  -- the code 1; a program file that cannot be read, settings that `build` refuses, and a program
  -- of more than `u32::MAX` bytes are the errors that say so. The C library is then in the state
  -- that `libriscv_set_defaults` has left it in, once the file has been read, and before that as
  -- it was.
  pub basic_main-Stops :
      (d : DefaultsExtend sys) (process : Process) (e : Failure)
      → 0 < s.host.memory.limit
      → early process.args process.read ≡ some e
      → Stops e
          (last_state process.args process.read)
          (complaint process.args s.output)
          (basic_main sys process s)
  basic_main-Stops d process e room found = elim (Bool-cases (are_unicode process.args)) [
    | inl unicode ↦
        let why : early process.args process.read ≡ early_unicode process.args process.read =
          rw unicode refl in
        rw unicode (unicode-Stops d process.args process.read e room unicode (sym why ∙ found))
    | inr other ↦
        let why : early process.args process.read ≡ some Failure.panicked = rw other refl in
        let same : Failure.panicked ≡ e = cc (sym why ∙ found) in
        rw (other, sym same) (other-Stops process other)
  ]
