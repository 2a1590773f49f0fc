-- ===== src/Examples/Mains/Advanced.antt =====
-- examples/advanced_syscalls.rs: what is installed when `main` makes its machine.
use libriscv_rust_binding.Common.{
  ℕ, String, ◌≤◌, ◌<◌, ◌≡◌, refl, ap, ◌∙◌, true, arith, Option, some, List, [], ◌∷◌, none, ok, err,
  length, u32_max,
}
use libriscv_rust_binding.Raw.{RiscvOptions}
use libriscv_rust_binding.Memory.{
  Memory, Extends, Extends-refl, Extends-trans, alloc_bytes, alloc_bytes-Extends, read_bytes,
}
use libriscv_rust_binding.Slice.{Slice}
use libriscv_rust_binding.Sys.{Host, Sys}
use libriscv_rust_binding.Error.{Fallible}
use libriscv_rust_binding.Error.Action
use libriscv_rust_binding.Error.Action.{Action, call, on_memory}
use libriscv_rust_binding.Error.Check.{check_code}
use libriscv_rust_binding.Options.{
  Options, OptionsBuilder, zeroed, default_raw_options, builder, build, finish,
}
use libriscv_rust_binding.Options.Setters.{args, error_handler, stdout_handler}
use libriscv_rust_binding.Options.Build.{IsBuilt, build_error}
use libriscv_rust_binding.Options.Argv.{argv_view, argv-IsBuilt}
use libriscv_rust_binding.Syscall
use libriscv_rust_binding.Syscall.{SyscallRegistry, SyscallRegistryBuilder}
use libriscv_rust_binding.Machine.{Machine, new, to_owned}
use libriscv_rust_binding.Macros.Registry.{
  Registration, syscall_registry, scan_items, scan_item, scan_attrs, scan_mark,
}
use libriscv_rust_binding.Macros.{parse_syscall_attr, parse_syscall_id}
use libriscv_rust_binding.Startup
use libriscv_rust_binding.Startup.Installs.{HandlerTable, declared, registry-installs}
use libriscv_rust_binding.Examples.Handlers.{App}
use libriscv_rust_binding.Examples.Call.{literal}
use libriscv_rust_binding.Examples.Module.{host_items}
use libriscv_rust_binding.Examples.Mains.{
  Main, ◌>>=◌, lib, and_then, Process, program, host_syscalls, loaded, program_file, with_machine,
  are_unicode, env_args, call_back, advanced_main,
}
use libriscv_rust_binding.Examples.Mains.Opens.{
  DefaultsExtend, builder-host, build-Built, copied, opened, new-opened,
}

-- The macro collects the four functions of the module.
collected :
    syscall_registry true (ok (some host_items))
    ≡ ok (record { items = host_items; registrations = host_syscalls })
unfolding syscall_registry scan_items scan_item scan_attrs scan_mark parse_syscall_attr
    parse_syscall_id
collected = refl

-- The settings of the example.
abbrev pub advanced_settings : (resolve : String → ℕ) → OptionsBuilder → OptionsBuilder
advanced_settings resolve start = args (program ∷ []) (
    error_handler (some (resolve "error_callback_handler"))
      (stdout_handler (some (resolve "stdout_callback_handler")) start))

-- What the wrapper relies on: the C library leaves the table of handlers as it is when it fills a struct
-- with its defaults.
pub record DefaultsKeepTable {F : Type 0} (sys : Sys F) (t : HandlerTable sys) : Type 0 where
  pub defaults_keep_table :
      (o : RiscvOptions) (h : Host F) (n : ℕ)
      → t.table (sys.libriscv_set_defaults o h).1.foreign n ≡ t.table h.foreign n

-- What the wrapper relies on: the C library leaves the memory of the process as it is, and may add to
-- it, when it is given a handler.
pub record SetKeeps {F : Type 0} (sys : Sys F) : Type 0 where
  pub set_keeps :
      (num : ℕ) (handler : Option ℕ) (h : Host F)
      → Extends h.memory (sys.libriscv_set_syscall_handler num handler h).1.memory

and_then-Extends :
    {F A B : Type 0} (m : Memory) (r : Fallible A × Host F) (next : A → Action (Host F) B)
    → Extends m r.1.memory
    → ((a : A) (h : Host F) → Extends h.memory (next a h).1.memory)
    → Extends m (Action.and_then r next).1.memory
and_then-Extends m (ok a, h) next grown later = Extends-trans grown (later a h)
and_then-Extends m (err e, h) next grown later = grown

module _ {F : Type 0} (sys : Sys F) (k : SetKeeps sys) (resolve : String → ℕ) where
  register-Extends :
      (rs : List Registration) (b : SyscallRegistryBuilder) (h : Host F)
      → Extends h.memory (Startup.register sys resolve rs b h).1.memory
  unfolding Startup.register Syscall.register Syscall.register_syscall_handler check_code
  register-Extends [] b h = Extends-refl h.memory
  register-Extends (r ∷ rs) b h =
      and_then-Extends h.memory (Syscall.new r.id, h) _ (Extends-refl h.memory)
        (λ id h'.
          and_then-Extends h'.memory _ (λ _. Startup.register sys resolve rs b)
            (k.set_keeps (Syscall.get id) (some (resolve r.handler_name)) h')
            (λ _ h''. register-Extends rs b h''))

  registry-Extends :
      (rs : List Registration) (h : Host F)
      → Extends h.memory (Startup.registry sys resolve rs h).1.memory
  unfolding Startup.registry
  registry-Extends rs h =
      and_then-Extends h.memory (Startup.register sys resolve rs Syscall.registry_builder h) _
        (register-Extends rs Syscall.registry_builder h) (λ _ h'. Extends-refl h'.memory)

  settings-clean : (h : Host F) → build_error (advanced_settings resolve (builder sys h).0) ≡ none
  unfolding args error_handler stdout_handler builder default_raw_options
  settings-clean h = refl

  -- What is installed when `main` calls `libriscv_new`.
  pub record Installed (t : HandlerTable sys) (bytes : List ℕ) (before : Host F) (elf_prog : ℕ)
      (raw : RiscvOptions) (h : Host F) : Type 0 where
    pub grown : Extends before.memory h.memory
    pub entries :
        (n : ℕ)
        → t.table h.foreign n ≡ declared sys resolve t host_syscalls n (t.table before.foreign n)
    pub on_error : raw.error ≡ some (resolve "error_callback_handler")
    pub on_stdout : raw.stdout ≡ some (resolve "stdout_callback_handler")
    pub arguments : argv_view h.memory raw.argc raw.argv ≡ some (program ∷ [])
    pub elf : read_bytes h.memory elf_prog (length bytes) ≡ bytes

  registry-runs :
      (t : HandlerTable sys) (h : Host F)
      → (Startup.registry sys resolve host_syscalls h
          ≡ (ok Syscall.empty, (Startup.registry sys resolve host_syscalls h).1))
        × ((n : ℕ)
            → t.table (Startup.registry sys resolve host_syscalls h).1.foreign n
              ≡ declared sys resolve t host_syscalls n (t.table h.foreign n))
  registry-runs t h =
      let (done, entries) =
        registry-installs sys resolve t host_items host_syscalls h collected
          (omega arith, (omega arith, (omega arith, (omega arith, tt)))) in
      (ap (λ r. (r, (Startup.registry sys resolve host_syscalls h).1)) done, entries)

  settings-Installed :
      (t : HandlerTable sys) {bytes : List ℕ} {before : Host F} {elf_prog : ℕ} {o : Options}
      {n : Memory} (start h : Host F)
      → ((n : ℕ)
          → t.table h.foreign n ≡ declared sys resolve t host_syscalls n (t.table before.foreign n))
      → IsBuilt (advanced_settings resolve (builder sys start).0) n o
      → Extends before.memory n
      → Extends n h.memory
      → read_bytes h.memory elf_prog (length bytes) ≡ bytes
      → Installed t bytes before elf_prog o.raw h
  unfolding args error_handler stdout_handler builder default_raw_options finish
  settings-Installed t start h entries built earlier grown elf = record {
    grown = Extends-trans earlier grown;
    entries = entries;
    on_error = ap (λ (p : Options). p.raw.error) built.raw;
    on_stdout = ap (λ (p : Options). p.raw.stdout) built.raw;
    arguments = argv-IsBuilt built h.memory grown;
    elf = elf;
  }

  -- The registration and the settings, when both succeed.
  after-loaded :
      (s : App F) (elf : Slice) (h h' h'' : Host F) (start : OptionsBuilder) (o : Options)
      (n : Memory) (rest : Machine → Main F (Unit {0}))
      → Startup.registry sys resolve host_syscalls h ≡ (ok Syscall.empty, h')
      → builder sys h' ≡ (start, h'')
      → build (advanced_settings resolve start) h''.memory ≡ (ok o, n)
      → (lib (Startup.registry sys resolve host_syscalls) >>= λ registry.
            lib (call (builder sys)) >>= λ start.
            lib (on_memory (build (advanced_settings resolve start))) >>= λ options.
            lib (new sys elf options registry) >>= rest)
          (record s { host = h })
        ≡ and_then
            (lib (new sys elf o Syscall.empty) (record s { host = record h'' { memory = n } }))
            rest
  after-loaded s elf h h' h'' start o n rest runs begun built = rw runs (rw begun (rw built refl))

  -- Started with arguments that are UTF-8 and a program file that can be read and has at most
  -- `u32::MAX` bytes, in a memory whose first free address is not null, and with a C library that
  -- only adds to the memory when it is given a handler and when it fills in its defaults, which
  -- leaves the table of handlers as it is: when `main` of advanced_syscalls.rs calls
  -- `libriscv_new`, the table of handlers has the trampoline of each function of its module under
  -- the id of its attribute, and every other entry as before; the options have its two callbacks,
  -- and an `argv` at which the C library reads the one argument "program"; and the bytes that are
  -- passed are those of the file. A null pointer then ends it with the error that names the
  -- function, and otherwise it goes on with that machine, which is dropped at the end.
  pub advanced_main-opens :
      (t : HandlerTable sys) (d : DefaultsExtend sys) (u : DefaultsKeepTable sys t)
      (process : Process) (host_fn_addr : F → ℕ) (name file : List ℕ) (others : List (List ℕ))
      (bytes : List ℕ) (s : App F)
      → process.args ≡ name ∷ file ∷ others
      → are_unicode (name ∷ file ∷ others) ≡ true
      → process.read file ≡ some bytes
      → length bytes ≤ u32_max
      → 0 < s.host.memory.limit
      → (elf : Slice) × (options : Options) × (h : Host F) × Installed t bytes s.host elf.address
          options.raw h
        × (advanced_main sys process resolve host_fn_addr s
            ≡ opened s elf options
                (λ machine. with_machine sys machine (call_back sys host_fn_addr machine))
                (sys.libriscv_new elf.address (length bytes) options.raw h))
  unfolding advanced_main env_args program_file loaded literal alloc_bytes to_owned
  advanced_main-opens t d u process host_fn_addr name file others bytes s named unicode readable
        small room =
      let (elf, m) = literal bytes s.host.memory in
      let h1 : Host F = record s.host { memory = m } in
      let (runs, entries) = registry-runs t h1 in
      let h2 = (Startup.registry sys resolve host_syscalls h1).1 in
      let (start, h3) = builder sys h2 in
      let host = builder-host sys h2 in
      let defaults : Extends h2.memory h3.memory = rw host (d.defaults_extend zeroed h2) in
      let kept : Extends m h3.memory = Extends-trans (registry-Extends host_syscalls h1) defaults in
      let table : (n : ℕ) → t.table h3.foreign n ≡ t.table h2.foreign n =
        rw host (u.defaults_keep_table zeroed h2) in
      let b =
        build-Built (advanced_settings resolve start) h3.memory (omega (arith, kept.limit_le))
          (settings-clean h2) in
      let (copy, later) = to_owned elf b.memory in
      let (taken, program) = copied bytes s.host.memory b.memory (Extends-trans kept b.grown) in
      let earlier =
        Extends-trans (alloc_bytes-Extends bytes s.host.memory) (Extends-trans kept b.grown) in
      (
        copy,
        b.options,
        record h3 { memory = later },
        settings-Installed t h2 (record h3 { memory = later }) (λ n. table n ∙ entries n) b.built
            earlier taken program,
        rw (named, unicode, readable)
            (after-loaded s elf h1 h2 h3 start b.options b.memory _ runs refl b.result
              ∙ new-opened (record s { host = h3 }) sys elf b.options Syscall.empty b.memory _
                  small),
      )
