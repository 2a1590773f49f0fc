-- ===== src/Machine/Lifecycle.antt =====
-- src/lib.rs: the machines that a program owns, from `Machine::new` and `fast_fork` to `Drop`.
pub mod Ending
pub mod Keeps
pub mod Performs
pub mod Safe
use libriscv_rust_binding.Common.{
  ℕ, ◌<◌, ◌≡◌, Bool, true, false, not, ◌&&◌, ◌||◌, Option, none, some, List, [], ◌∷◌, ◌==◌,
  if◌then◌else◌, ok, err,
}
use libriscv_rust_binding.Raw.{RiscvOptions, null}
use libriscv_rust_binding.Slice.{Slice}
use libriscv_rust_binding.Memory.{Memory}
use libriscv_rust_binding.Sys.{Host, Sys}
use libriscv_rust_binding.Error.{Error}
use libriscv_rust_binding.Options
use libriscv_rust_binding.Options.{Options}
use libriscv_rust_binding.Syscall.{
  SyscallId, SyscallHandler, SyscallRegistry, register_syscall_handler,
}
use libriscv_rust_binding.Machine.{
  Machine, ForkedMachine, new, fast_fork, drop, setup_native_memory,
}
use libriscv_rust_binding.Machine.Calls.{Call, perform}

-- A machine that is owned, with the pointer of the machine that it borrows: a `ForkedMachine<'parent>`
-- borrows its parent.
pub record Owned : Type 0 where
  pub machine : Machine
  pub parent : Option ℕ

abbrev pub owns : List Owned → ℕ → Bool
owns [] q = false
owns (o ∷ os) q = o.machine.ptr == q || owns os q

abbrev pub is_parent : Option ℕ → ℕ → Bool
is_parent none q = false
is_parent (some p) q = p == q

-- Some machine borrows the one at `q`.
abbrev pub is_borrowed : List Owned → ℕ → Bool
is_borrowed [] q = false
is_borrowed (o ∷ os) q = is_parent o.parent q || is_borrowed os q

-- The owner of the first machine at `q` gives it up.
abbrev pub without : List Owned → ℕ → List Owned
without [] q = []
without (o ∷ os) q = if o.machine.ptr == q then os else o ∷ without os q

pub record Program (F : Type 0) : Type 0 where
  pub owned : List Owned
  pub host : Host F

-- What the wrapper relies on: the C library knows which machines exist. A machine that it makes is a
-- new one, a null pointer is none, and deleting one that exists ends that one alone.
pub record MachineTable {F : Type 0} (sys : Sys F) : Type 0 where
  pub exists : F → ℕ → Bool
  pub new_makes :
      (elf_prog elf_size : ℕ) (o : RiscvOptions) (h : Host F)
      → let (p, h') = sys.libriscv_new elf_prog elf_size o h in
        (exists h.foreign p ≡ false)
        × ((q : ℕ) → exists h'.foreign q ≡ (not (p == null) && p == q || exists h.foreign q))
  pub fork_makes :
      (parent : ℕ) (o : RiscvOptions) (h : Host F)
      → exists h.foreign parent ≡ true
      → let ((p, _), h') = sys.libriscv_fast_fork parent o h in
        (exists h.foreign p ≡ false)
        × ((q : ℕ) → exists h'.foreign q ≡ (not (p == null) && p == q || exists h.foreign q))
  pub delete_ends :
      (p : ℕ) (h : Host F)
      → exists h.foreign p ≡ true
      → (q : ℕ)
      → exists (sys.libriscv_delete p h).1.foreign q ≡ (not (p == q) && exists h.foreign q)

-- What a program can do. The compiler lets a machine be forked and called while it is owned, and dropped
-- while it is owned and not borrowed. (It also keeps a borrowed machine from the methods that take
-- `&mut self`, which is not asked here.)
pub data Step {F : Type 0} (sys : Sys F) : Program F → Program F → Type 0 where
  creates :
      {owned : List Owned} {h h' : Host F} {machine : Machine} (elf : Slice) (options : Options)
      (registry : SyscallRegistry)
      → new sys elf options registry h ≡ (ok machine, h')
      → Step sys
          (record { owned = owned; host = h })
          (record { owned = record { machine = machine; parent = none } ∷ owned; host = h' })
  create_fails :
      {owned : List Owned} {h h' : Host F} {e : Error} (elf : Slice) (options : Options)
      (registry : SyscallRegistry)
      → new sys elf options registry h ≡ (err e, h')
      → Step sys (record { owned = owned; host = h }) (record { owned = owned; host = h' })
  forks :
      {owned : List Owned} {h h' : Host F} {fork : ForkedMachine} (self : Machine)
      (options : Options)
      → owns owned self.ptr ≡ true
      → fast_fork sys self options h ≡ (ok fork, h')
      → Step sys
          (record { owned = owned; host = h })
          (record {
            owned = record { machine = fork.machine; parent = some self.ptr } ∷ owned;
            host = h';
          })
  fork_fails :
      {owned : List Owned} {h h' : Host F} {e : Error} (self : Machine) (options : Options)
      → owns owned self.ptr ≡ true
      → fast_fork sys self options h ≡ (err e, h')
      → Step sys (record { owned = owned; host = h }) (record { owned = owned; host = h' })
  drops :
      {owned : List Owned} {h : Host F} (self : Machine)
      → owns owned self.ptr ≡ true
      → is_borrowed owned self.ptr ≡ false
      → Step sys
          (record { owned = owned; host = h })
          (record { owned = without owned self.ptr; host = drop sys self h })
  -- A call of a method of a machine, whether it succeeds or fails.
  calls :
      {owned : List Owned} {h : Host F} (self : Machine) (call : Call)
      → owns owned self.ptr ≡ true
      → Step sys
          (record { owned = owned; host = h })
          (record { owned = owned; host = perform sys self call h })
  -- `register_syscall_handler`, for all machines.
  registers :
      {owned : List Owned} {h : Host F} (num : SyscallId) (handler : SyscallHandler)
      → Step sys
          (record { owned = owned; host = h })
          (record { owned = owned; host = (register_syscall_handler sys num handler h).1 })
  -- `setup_native_memory`, for all machines.
  sets_up :
      {owned : List Owned} {h : Host F} (syscall_base : ℕ)
      → Step sys
          (record { owned = owned; host = h })
          (record { owned = owned; host = (setup_native_memory sys syscall_base h).1 })
  -- `Options::new`, and `Options::builder`, which calls the C library in the same way.
  takes_defaults :
      {owned : List Owned} {h : Host F}
      → Step sys
          (record { owned = owned; host = h })
          (record { owned = owned; host = (Options.new sys h).1 })
  -- Anything that the program does with its own memory, or with that of a guest through a view.
  computes :
      {owned : List Owned} {h : Host F} (memory : Memory)
      → Step sys
          (record { owned = owned; host = h })
          (record { owned = owned; host = record h { memory = memory } })

-- Any number of steps.
pub data Steps {F : Type 0} (sys : Sys F) : Program F → Program F → Type 0 where
  done : {a : Program F} → Steps sys a a
  then : {a b c : Program F} → Steps sys a b → Step sys b c → Steps sys a c
