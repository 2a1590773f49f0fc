-- ===== src/Examples/Mains/Basic.antt =====
-- examples/basic.rs: what `main` gives the C library, and how it ends.
use libriscv_rust_binding.Common.{
  ℕ, ℤ, ◌*◌, ◌≤◌, ◌<◌, ◌≡◌, refl, ap, ◌∙◌, true, false, arith, none, some, List, [], ◌∷◌, ◌++◌,
  Result, ok, err, length, ltb, u32_max, ◌==◌, if◌then◌else◌, is_zero, Bool-cases, inl, inr,
}
use libriscv_rust_binding.Raw.{RiscvOptions}
use libriscv_rust_binding.Memory.{
  Memory, Extends, Extends-trans, alloc_bytes, alloc_bytes-Extends, read_bytes,
}
use libriscv_rust_binding.Slice.{Slice}
use libriscv_rust_binding.Sys.{Host, Sys}
use libriscv_rust_binding.Error.{Error}
use libriscv_rust_binding.Error.Check.{check_code, error_message}
use libriscv_rust_binding.Options.{
  Options, OptionsBuilder, zeroed, default_raw_options, builder, finish,
}
use libriscv_rust_binding.Options.Setters.{max_memory, args}
use libriscv_rust_binding.Options.Build.{IsBuilt, build_error, strings_error}
use libriscv_rust_binding.Options.Argv.{argv_view, symbol_view, argv-IsBuilt, exit-IsBuilt}
use libriscv_rust_binding.Syscall.{empty}
use libriscv_rust_binding.Machine.{Machine, to_owned, run, return_value, drop}
use libriscv_rust_binding.Examples.Handlers.{Printed, App}
use libriscv_rust_binding.Examples.Call.{literal}
use libriscv_rust_binding.Examples.Mains.Opens.{
  DefaultsExtend, defaults_taken, builder-host, copied, build-Built, opened, new-opened,
}
use libriscv_rust_binding.Examples.Mains.{
  Failure, ◌>>◌, lib, Process, u64_max, loaded, program_file, with_machine, status, are_unicode,
  env_args, basic_main,
}

-- What the program gives `libriscv_new`, in the memory in which it calls it.
pub record Given (bytes : List ℕ) (given : List (List ℕ)) (elf_prog : ℕ) (raw : RiscvOptions)
    (before later : Memory) : Type 0 where
  pub grown : Extends before later
  pub program : read_bytes later elf_prog (length bytes) ≡ bytes
  pub arguments : argv_view later raw.argc raw.argv ≡ some given
  pub exit_function : symbol_view later raw.default_exit_function ≡ none
  pub memory_limit : raw.max_memory ≡ 256 * 1024 * 1024

module _ {F : Type 0} (sys : Sys F) (s : App F) where
  -- How the program ends when `libriscv_run` has answered, and the machine is deleted.
  abbrev after_run : (p : ℕ) → ℤ × Host F → Result Failure (Unit {0}) × App F
  after_run p (code, h) =
      if is_zero code
      then (let (z, h') = sys.libriscv_return_value p h in
          (
            ok tt,
            record s {
              host = (sys.libriscv_delete p h').1;
              output = s.output ++ Printed.stdout_status "Program exited with status: " z ∷ [];
            },
          ))
      else (
        err (Failure.library (Error.library "libriscv_run" code (error_message sys code h))),
        record s { host = (sys.libriscv_delete p h).1 },
      )

  -- How the program ends when `libriscv_new` has answered.
  abbrev pub after_new : ℕ × Host F → Result Failure (Unit {0}) × App F
  after_new (p, h) =
      if p == 0
      then (err (Failure.library (Error.null_pointer "libriscv_new")), record s { host = h })
      else after_run p (sys.libriscv_run p u64_max h)

  run-after :
      (machine : Machine) (h : Host F)
      → with_machine sys machine
          (lib (run sys machine u64_max) >> status sys machine)
          (record s { host = h })
        ≡ after_run machine.ptr (sys.libriscv_run machine.ptr u64_max h)
  unfolding with_machine run check_code return_value drop
  run-after machine h =
      let (code, h') = sys.libriscv_run machine.ptr u64_max h in
      elim (Bool-cases (is_zero code)) [ inl e ↦ rw e refl | inr e ↦ rw e refl ]

  opened-after :
      (elf : Slice) (options : Options) (answer : ℕ × Host F)
      → opened s elf options
          (λ machine.
            with_machine sys machine (lib (run sys machine u64_max) >> status sys machine))
          answer
        ≡ after_new answer
  opened-after elf options (p, h) = elim (Bool-cases (p == 0)) [
    | inl absent ↦ rw absent refl
    | inr present ↦ rw present (run-after (record { ptr = p; elf = elf; options = options }) h)
  ]

-- The settings of the example.
abbrev pub settings : OptionsBuilder → List (List ℕ) → OptionsBuilder
settings start given = args given (max_memory (256 * 1024 * 1024) start)

module _ {F : Type 0} (sys : Sys F) (h : Host F) (given : List (List ℕ)) where
  settings-clean :
      length given ≤ u32_max
      → strings_error given ≡ none
      → build_error (settings (builder sys h).0 given) ≡ none
  unfolding args max_memory builder default_raw_options
  settings-clean small clean =
      let short : ltb u32_max (length given) ≡ false = ground (arith, small) in
      rw (short, clean) refl

  settings-Given :
      {bytes : List ℕ} {elf_prog : ℕ} {o : Options} {before n later : Memory}
      → IsBuilt (settings (builder sys h).0 given) n o
      → Extends before n
      → Extends n later
      → read_bytes later elf_prog (length bytes) ≡ bytes
      → Given bytes given elf_prog o.raw before later
  unfolding args max_memory builder default_raw_options finish
  settings-Given {later} built earlier grown program = record {
    grown = Extends-trans earlier grown;
    program = program;
    arguments = argv-IsBuilt built later grown;
    exit_function = exit-IsBuilt built later grown;
    memory_limit = ap (λ (p : Options). p.raw.max_memory) built.raw;
  }

module _ {F : Type 0} (sys : Sys F) (d : DefaultsExtend sys) (process : Process) where
  -- Started with a program file that can be read and has at most `u32::MAX` bytes, with arguments
  -- that are UTF-8, at most `u32::MAX` of them behind the program's name and without a NUL byte,
  -- in a memory whose first free address is not null, and with a C library that only adds to the
  -- memory when it fills in its defaults: `main` of basic.rs calls `libriscv_new` in the state
  -- that `libriscv_set_defaults` has left the C library in and in a memory that only adds to the
  -- one before, with the bytes of the file and their number, a limit of 256 MiB, no exit function,
  -- and an `argv` at which the C library reads exactly those arguments. It then ends as the
  -- answers of the C library say: a null pointer is the error that names the function; otherwise
  -- the guest runs with a limit of `u64::MAX` instructions, a code other than 0 is the error with
  -- that code and its message, and after the code 0 the return value is printed; and the machine,
  -- if there is one, is deleted last.
  pub basic_main-runs :
      (name file : List ℕ) (others : List (List ℕ)) (bytes : List ℕ) (s : App F)
      → process.args ≡ name ∷ file ∷ others
      → are_unicode (name ∷ file ∷ others) ≡ true
      → process.read file ≡ some bytes
      → length bytes ≤ u32_max
      → length (file ∷ others) ≤ u32_max
      → strings_error (file ∷ others) ≡ none
      → 0 < s.host.memory.limit
      → (elf_prog : ℕ) × (raw : RiscvOptions) × (h : Host F) × Given bytes
          (file ∷ others)
          elf_prog
          raw
          s.host.memory
          h.memory
        × (h.foreign
            ≡ (defaults_taken sys
                (record s.host { memory = (literal bytes s.host.memory).1 })).foreign)
        × (basic_main sys process s
            ≡ after_new sys s (sys.libriscv_new elf_prog (length bytes) raw h))
  unfolding basic_main env_args program_file loaded literal alloc_bytes to_owned
  basic_main-runs name file others bytes s named unicode readable small few clean room =
      let (elf, m) = literal bytes s.host.memory in
      let h0 : Host F = record s.host { memory = m } in
      let (start, h1) = builder sys h0 in
      let host = builder-host sys h0 in
      let kept : Extends m h1.memory = rw host (d.defaults_extend zeroed h0) in
      let b =
        build-Built (settings start (file ∷ others)) h1.memory (omega (arith, kept.limit_le))
          (settings-clean sys h0 (file ∷ others) few clean) in
      let (copy, later) = to_owned elf b.memory in
      let (taken, program) = copied bytes s.host.memory b.memory (Extends-trans kept b.grown) in
      let earlier =
        Extends-trans (alloc_bytes-Extends bytes s.host.memory) (Extends-trans kept b.grown) in
      (
        copy.address,
        b.options.raw,
        record h1 { memory = later },
        settings-Given sys h0 (file ∷ others) b.built earlier taken program,
        ap (λ (h : Host F). h.foreign) host,
        rw (named, unicode, readable)
            (rw b.result (
              new-opened (record s { host = h1 }) sys elf b.options empty b.memory _ small
              ∙ opened-after sys (record s { host = h1 }) copy b.options _)),
      )
