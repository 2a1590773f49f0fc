-- ===== src/Tests/Toy.antt =====
-- A small C library with one guest, for which the hypotheses of the theorems hold.
use libriscv_rust_binding.Common.{
  ◌≤◌, ◌∙◌, sym, length, [], ◌∷◌, Bool, not, ◌&&◌, ◌||◌, ℕ, none, some, List, Bool-cases, inl, inr,
  ◌+◌, ◌<◌, ℤ, pos, negsuc, true, false, Option, refl, ◌≡◌, ◌==◌, if◌then◌else◌, arith, ltb,
  is_zero,
}
use libriscv_rust_binding.Raw.{RiscvOptions, RiscvPageAttributes, null}
use libriscv_rust_binding.Memory.{
  Memory, Extends, Extends-refl, length-read_cells, read_bytes, write_bytes, read_cells,
  write_cells,
}
use libriscv_rust_binding.Sys.{Host, Ffi, Sys}
use libriscv_rust_binding.Machine.Lifecycle.{MachineTable}
use libriscv_rust_binding.Machine.Guest.RoundTrip.{GuestMemory}
use libriscv_rust_binding.Syscall.Context.Views.{WritableViews}
use libriscv_rust_binding.Examples.Handlers.Prints.{Shows, StringViews}
use libriscv_rust_binding.Examples.Call.Passes.{RegisterFile}
use libriscv_rust_binding.Examples.Text.{until_nul}
use libriscv_rust_binding.Examples.Guest.Shows.{take-until_nul, take-read_cells}
use libriscv_rust_binding.Examples.Emulator.{FlatArena}
use libriscv_rust_binding.Examples.Emulator.Strings.{FlatStrings}
use libriscv_rust_binding.Machine.Lifecycle.Keeps.{Keeps, OtherCalls}
use libriscv_rust_binding.Examples.Mains.Advanced.{SetKeeps, DefaultsKeepTable}
use libriscv_rust_binding.Examples.Mains.Opens.{DefaultsExtend}
use libriscv_rust_binding.Startup.Installs.{HandlerTable}

-- The table of handlers, a guest's memory, the machines that exist, and where the next one goes.
pub record Toy : Type 0 where
  pub handlers : ℕ → Option ℕ
  pub byte : ℕ → ℕ
  pub machines : ℕ → Bool
  pub next : ℕ

abbrev returning : {A : Type 0} → A → Ffi Toy A
returning a h = (a, h)

abbrev pub sample_attributes : RiscvPageAttributes
sample_attributes = record {
  read = pos 1;
  write = pos 2;
  exec = pos 0;
  is_cow = pos 0;
  non_owning = pos 0;
  dont_fork = pos 0;
  user_defined = 7;
}

-- Views of guest memory lie in the host's memory from here on.
abbrev arena : ℕ
arena = 10000

abbrev toy_set_handler : ℕ → Option ℕ → Ffi Toy ℤ
toy_set_handler num handler h =
    if ltb num 512
    then (
      pos 0,
      record h {
        foreign = record h.foreign {
          handlers = λ n. if n == num then handler else h.foreign.handlers n;
        };
      },
    )
    else (negsuc 0, h)

abbrev toy_copy_to_guest : ℕ → ℕ → ℕ → Ffi Toy ℤ
toy_copy_to_guest dst src len h = (
  pos 0,
  record h {
    foreign = record h.foreign {
      byte = write_cells 1 h.foreign.byte dst (read_bytes h.memory src len);
    };
  },
)

abbrev toy_copy_from_guest : ℕ → ℕ → ℕ → Ffi Toy ℤ
toy_copy_from_guest dst src len h =
    (pos 0, record h { memory = write_bytes h.memory dst (read_cells 1 h.foreign.byte src len) })

-- A step fails with code -5, or, if it is to be verbose, with code -2 ^ 32.
abbrev toy_step_one : ℤ → Ffi Toy ℤ
toy_step_one verbose = returning (if is_zero verbose then negsuc 4 else negsuc 0xffff_ffff)

-- The guest's string at an address, if it ends within `maxlen` bytes.
abbrev toy_text : Host Toy → (src maxlen : ℕ) → Option (List ℕ)
toy_text h src maxlen = until_nul (read_bytes h.memory (arena + src) maxlen)

abbrev toy_found : Option (List ℕ) → (p old : ℕ) → ℕ × ℕ
toy_found none p old = (null, old)
toy_found (some text) p old = (p, length text)

abbrev toy_memstring : (src maxlen old : ℕ) → Ffi Toy (ℕ × ℕ)
toy_memstring src maxlen old h = (toy_found (toy_text h src maxlen) (arena + src) old, h)

abbrev toy_exists : Toy → ℕ → Bool
toy_exists f q = not (q == 0) && f.machines q

-- The pointer of the next machine: null if that place is taken.
abbrev toy_next : Toy → ℕ
toy_next f = if toy_exists f f.next then 0 else f.next

abbrev toy_make : Ffi Toy ℕ
toy_make h =
    let p = toy_next h.foreign in
    (
      p,
      record h {
        foreign = record h.foreign {
          machines = λ q. p == q || h.foreign.machines q;
          next = h.foreign.next + 1;
        };
      },
    )

abbrev toy_fork : RiscvOptions → Ffi Toy (ℕ × RiscvOptions)
toy_fork o h = let (p, h') = toy_make h in ((p, o), h')

abbrev toy_delete : ℕ → Ffi Toy ℤ
toy_delete p h = (
  pos 0,
  record h { foreign = record h.foreign { machines = λ q. not (p == q) && h.foreign.machines q } },
)

abbrev pub toy : Sys Toy
toy = record {
  libriscv_set_defaults =
      λ o. returning (record o { max_memory = 1000; default_exit_function = 77 });
  libriscv_strerror = λ code h. 1;
  libriscv_new = λ elf_prog elf_size o. toy_make;
  libriscv_delete = toy_delete;
  libriscv_run = λ p instruction_limit. returning (pos 0);
  libriscv_step_one = λ p verbose. toy_step_one verbose;
  libriscv_allow_file = λ p path. returning tt;
  libriscv_return_value = λ p. returning (pos 0);
  libriscv_address_of = λ p name. returning 0;
  libriscv_opaque = λ p. returning null;
  libriscv_get_registers = λ p. returning 500;
  libriscv_set_result_register = λ p value. returning tt;
  libriscv_jump = λ p address. returning (pos 0);
  libriscv_copy_to_guest = λ p dst src len. toy_copy_to_guest dst src len;
  libriscv_copy_from_guest = λ p dst src len. toy_copy_from_guest dst src len;
  libriscv_memstring = λ p src maxlen old. toy_memstring src maxlen old;
  libriscv_memview = λ p src length. returning (arena + src);
  libriscv_writable_memview = λ p src length. returning (arena + src);
  libriscv_stop = λ p. returning tt;
  libriscv_instruction_counter = λ p. returning 0;
  libriscv_max_counter_pointer = λ p. returning null;
  libriscv_instruction_limit_reached = λ p. returning (pos 0);
  libriscv_set_syscall_handler = toy_set_handler;
  libriscv_trigger_exception = λ p exception value. returning tt;
  libriscv_setup_vmcall = λ p address. returning (pos 0);
  libriscv_fast_fork = λ parent o. toy_fork o;
  libriscv_is_forked = λ p. returning (pos 0);
  libriscv_get_parent_page_data = λ p pageno. returning (null, sample_attributes);
  libriscv_setup_arena = λ p syscall_base addr size. returning (pos 0);
  libriscv_has_arena = λ p. returning (pos 0);
  libriscv_arena_malloc = λ p size. returning 0;
  libriscv_arena_free = λ p ptr. returning (pos 0);
  libriscv_arena_realloc = λ p ptr new_size. returning (record { ptr = 0; old_size = 0 });
  libriscv_arena_size = λ p ptr. returning 0;
  libriscv_arena_high_watermark = λ p. returning 0;
  libriscv_arena_set_unknown_free = λ p handler user. returning tt;
  libriscv_arena_set_unknown_realloc = λ p handler user. returning tt;
  libriscv_transfer_arena = λ dst src. returning (pos 0);
  libriscv_heap_address = λ p. returning 0;
  libriscv_mmap_allocate = λ p bytes. returning 0;
  libriscv_stack_initial = λ p. returning 0;
  libriscv_owned_pages_active = λ p. returning 0;
  libriscv_insert_non_owned_memory = λ p dst src size attributes. returning (pos 0);
  libriscv_setup_linux_syscalls = λ p filesystem sockets. returning (pos 0);
  libriscv_setup_posix_threads = λ p. returning (pos 0);
  libriscv_setup_native_memory = λ syscall_base. returning (pos 0);
}

pub toy_set_handler-succeeds :
    (num : ℕ) (handler : Option ℕ) (h : Host Toy)
    → num < 512
    → (toy_set_handler num handler h).0 ≡ pos 0
toy_set_handler-succeeds num handler h small = ground (arith, small)

pub toy_set_handler-changes :
    (num : ℕ) (handler : Option ℕ) (h : Host Toy) (n : ℕ)
    → num < 512
    → (toy_set_handler num handler h).1.foreign.handlers n
      ≡ (if n == num then handler else h.foreign.handlers n)
toy_set_handler-changes num handler h n small = ground (arith, small)

pub toy_make-new :
    (h : Host Toy)
    → let (p, h') = toy_make h in
      (toy_exists h.foreign p ≡ false)
      × ((q : ℕ) → toy_exists h'.foreign q ≡ (not (p == null) && p == q || toy_exists h.foreign q))
toy_make-new h = (ground arith, λ q. ground arith)

pub toy_delete-ends :
    (p : ℕ) (h : Host Toy)
    → toy_exists h.foreign p ≡ true
    → (q : ℕ) → toy_exists (toy_delete p h).1.foreign q ≡ (not (p == q) && toy_exists h.foreign q)
toy_delete-ends p h known q = ground arith

abbrev pub toy_machines : MachineTable toy
toy_machines = record {
  exists = toy_exists;
  new_makes = λ elf_prog elf_size o h. toy_make-new h;
  fork_makes = λ parent o h known. toy_make-new h;
  delete_ends = toy_delete-ends;
}

abbrev pub toy_table : HandlerTable toy
toy_table = record {
  table = λ f. f.handlers;
  set_succeeds = toy_set_handler-succeeds;
  set_changes = toy_set_handler-changes;
}

abbrev pub toy_guest : (ptr : ℕ) → GuestMemory toy ptr
toy_guest ptr = record {
  byte = λ f. f.byte;
  IsMapped = λ f src len. Unit;
  copy_to = λ dst src len h mapped. (refl, refl, tt, λ q. refl);
  copy_from = λ dst src len h mapped. refl;
}

abbrev pub toy_views : (machine : ℕ) → WritableViews toy machine
toy_views machine = record {
  IsWritable = λ f src len. Unit;
  view = λ src len h writable. (omega arith, refl, λ m. refl);
}

until_nul-fits : (xs text : List ℕ) → until_nul xs ≡ some text → length text ≤ length xs
until_nul-fits xs [] held = omega arith
until_nul-fits [] (c ∷ text) held = absurd (ground (arith, held))
until_nul-fits (b ∷ xs) (c ∷ text) held = ground (arith, held, until_nul-fits xs text)

toy_found-Shows :
    (t : Option (List ℕ)) (p n old : ℕ) (m : Memory)
    → until_nul (read_bytes m p n) ≡ t
    → 0 < p
    → Shows t (toy_found t p old) m
toy_found-Shows none p n old m held present = refl
toy_found-Shows (some text) p n old m held present =
    let fits : length text ≤ n =
      omega (arith, until_nul-fits (read_bytes m p n) text held, length-read_cells 1 m.byte p n) in
    (
      present,
      sym (take-read_cells m.byte p (length text) n fits)
          ∙ take-until_nul (read_bytes m p n) text held,
    )

pub toy_memstring-view :
    (src maxlen : ℕ) (h : Host Toy)
    → let (answer, h') = toy.libriscv_memstring 400 src maxlen 0 h in
      (h' ≡ h) × Shows (toy_text h src maxlen) answer h.memory
toy_memstring-view src maxlen h = (
  refl,
  toy_found-Shows (toy_text h src maxlen) (arena + src) maxlen 0 h.memory refl (omega arith),
)

abbrev pub toy_strings : StringViews toy 400
toy_strings = record { text = toy_text; view = toy_memstring-view }

abbrev pub toy_register_file : RegisterFile toy 400
toy_register_file = record { ptr = 500; present = omega arith; found = λ h. refl }

toy_set_handler-Keeps :
    (num : ℕ) (handler : Option ℕ)
    → Keeps toy toy_machines (toy.libriscv_set_syscall_handler num handler)
toy_set_handler-Keeps num handler = record {
  keeps = λ h q. elim (Bool-cases (ltb num 512)) [ inl e ↦ rw e refl | inr e ↦ rw e refl ];
}

toy_set_handler-Extends :
    (num : ℕ) (handler : Option ℕ) (h : Host Toy)
    → Extends h.memory (toy_set_handler num handler h).1.memory
toy_set_handler-Extends num handler h = elim (Bool-cases (ltb num 512)) [
  | inl e ↦ rw e (Extends-refl h.memory)
  | inr e ↦ rw e (Extends-refl h.memory)
]

pub toy-SetKeeps : SetKeeps toy
toy-SetKeeps = record { set_keeps = toy_set_handler-Extends }

pub toy-DefaultsExtend : DefaultsExtend toy
toy-DefaultsExtend = record { defaults_extend = λ o h. Extends-refl h.memory }

pub toy-DefaultsKeepTable : DefaultsKeepTable toy toy_table
toy-DefaultsKeepTable = record { defaults_keep_table = λ o h n. refl }

pub toy_others : OtherCalls toy toy_machines
toy_others = record {
  set_defaults_keeps = λ o. record { keeps = λ h q. refl };
  run_keeps = λ p instruction_limit. record { keeps = λ h q. refl };
  step_one_keeps = λ p verbose. record { keeps = λ h q. refl };
  allow_file_keeps = λ p path. record { keeps = λ h q. refl };
  return_value_keeps = λ p. record { keeps = λ h q. refl };
  address_of_keeps = λ p name. record { keeps = λ h q. refl };
  opaque_keeps = λ p. record { keeps = λ h q. refl };
  get_registers_keeps = λ p. record { keeps = λ h q. refl };
  set_result_register_keeps = λ p value. record { keeps = λ h q. refl };
  jump_keeps = λ p address. record { keeps = λ h q. refl };
  copy_to_guest_keeps = λ p dst src len. record { keeps = λ h q. refl };
  copy_from_guest_keeps = λ p dst src len. record { keeps = λ h q. refl };
  memstring_keeps = λ p src maxlen length. record { keeps = λ h q. refl };
  stop_keeps = λ p. record { keeps = λ h q. refl };
  instruction_counter_keeps = λ p. record { keeps = λ h q. refl };
  max_counter_pointer_keeps = λ p. record { keeps = λ h q. refl };
  instruction_limit_reached_keeps = λ p. record { keeps = λ h q. refl };
  set_syscall_handler_keeps = toy_set_handler-Keeps;
  trigger_exception_keeps = λ p exception value. record { keeps = λ h q. refl };
  setup_vmcall_keeps = λ p address. record { keeps = λ h q. refl };
  is_forked_keeps = λ p. record { keeps = λ h q. refl };
  get_parent_page_data_keeps = λ p pageno. record { keeps = λ h q. refl };
  setup_arena_keeps = λ p syscall_base addr size. record { keeps = λ h q. refl };
  has_arena_keeps = λ p. record { keeps = λ h q. refl };
  arena_malloc_keeps = λ p size. record { keeps = λ h q. refl };
  arena_free_keeps = λ p ptr. record { keeps = λ h q. refl };
  arena_realloc_keeps = λ p ptr new_size. record { keeps = λ h q. refl };
  arena_size_keeps = λ p ptr. record { keeps = λ h q. refl };
  arena_high_watermark_keeps = λ p. record { keeps = λ h q. refl };
  arena_set_unknown_free_keeps = λ p handler user. record { keeps = λ h q. refl };
  arena_set_unknown_realloc_keeps = λ p handler user. record { keeps = λ h q. refl };
  transfer_arena_keeps = λ dst src. record { keeps = λ h q. refl };
  heap_address_keeps = λ p. record { keeps = λ h q. refl };
  mmap_allocate_keeps = λ p bytes. record { keeps = λ h q. refl };
  stack_initial_keeps = λ p. record { keeps = λ h q. refl };
  owned_pages_active_keeps = λ p. record { keeps = λ h q. refl };
  insert_non_owned_memory_keeps = λ p dst src size attributes. record { keeps = λ h q. refl };
  setup_linux_syscalls_keeps = λ p filesystem sockets. record { keeps = λ h q. refl };
  setup_posix_threads_keeps = λ p. record { keeps = λ h q. refl };
  setup_native_memory_keeps = λ syscall_base. record { keeps = λ h q. refl };
}

abbrev pub toy_arena : FlatArena toy 400
toy_arena = record {
  base = 10000;
  size = 10000;
  ptr = 500;
  machine_present = omega arith;
  base_present = omega arith;
  ptr_present = omega arith;
  registers_at = λ h. refl;
  memview_at = λ src len h inside. refl;
  writable_memview_at = λ src len h inside. refl;
}

pub toy-FlatStrings : FlatStrings toy 400 toy_arena
toy-FlatStrings = record { memstring_at = λ src maxlen text h inside held. rw held refl }
