-- ===== src/Startup/Installs.antt =====
-- The table of handlers after `registry`.
use libriscv_rust_binding.Common.{
  ℕ, ℤ, is_zero, ◌<◌, String, ◌≡◌, refl, ◌∙◌, true, false, Option, some, List, [], ◌∷◌, ◌++◌, pos,
  ◌==◌, if◌then◌else◌, ok, err, arith, ltb,
}
use libriscv_rust_binding.Sys.{Host, Sys}
use libriscv_rust_binding.Error.{Error}
use libriscv_rust_binding.Error.Check.{check_code, error_message}
use libriscv_rust_binding.Syscall
use libriscv_rust_binding.Syscall.{
  SyscallId, SyscallRegistryBuilder, SyscallRegistry, SyscallHandler,
}
use libriscv_rust_binding.Macros.Syntax.{Item}
use libriscv_rust_binding.Macros.Registry.{Registration, contains, syscall_registry}
use libriscv_rust_binding.Macros.Registry.Accepts.{Distinct, syscall_registry_iff}
use libriscv_rust_binding.Startup.{register, registry}

-- What the wrapper relies on: the C library keeps a table of handlers, and setting one for a number
-- in range succeeds and changes that entry alone.
pub record HandlerTable {F : Type 0} (sys : Sys F) : Type 0 where
  pub table : F → ℕ → Option ℕ
  pub set_succeeds :
      (num : ℕ) (handler : Option ℕ) (h : Host F)
      → num < 512
      → (sys.libriscv_set_syscall_handler num handler h).0 ≡ pos 0
  pub set_changes :
      (num : ℕ) (handler : Option ℕ) (h : Host F) (n : ℕ)
      → num < 512
      → table (sys.libriscv_set_syscall_handler num handler h).1.foreign n
        ≡ (if n == num then handler else table h.foreign n)

abbrev pub InRange : List Registration → Type 0
InRange [] = Unit
InRange (r ∷ rs) = (r.id < 512) × InRange rs

module _ {F : Type 0} (sys : Sys F) (resolve : String → ℕ) (t : HandlerTable sys) where
  -- The entry of `n` that the registrations ask for, or else the old one.
  abbrev pub declared : List Registration → ℕ → Option ℕ → Option ℕ
  declared [] n old = old
  declared (r ∷ rs) n old = if n == r.id then some (resolve r.handler_name) else declared rs n old

  declared-seen :
      (seen : List ℕ) (rs : List Registration) (n : ℕ) (old : Option ℕ)
      → contains seen n ≡ true
      → Distinct seen rs
      → declared rs n old ≡ old
  declared-seen seen [] n old known d = refl
  declared-seen seen (r ∷ rs) n old known d =
      ground (arith, declared-seen (r.id ∷ seen) rs n old, d.0, d.2)

  register-in_range :
      (n : ℕ) (handler : SyscallHandler) (builder : SyscallRegistryBuilder) (h : Host F)
      → n < 512
      → Syscall.register sys builder (record { index = n }) handler h
        ≡ (ok tt, (sys.libriscv_set_syscall_handler n handler.pointer h).1)
  unfolding Syscall.register Syscall.register_syscall_handler
  register-in_range n handler builder h small =
      ground (arith, t.set_succeeds n handler.pointer h small)

  register-cons :
      (r : Registration) (rs : List Registration) (builder : SyscallRegistryBuilder) (h : Host F)
      → r.id < 512
      → register sys resolve (r ∷ rs) builder h
        ≡ register sys resolve rs builder
            (sys.libriscv_set_syscall_handler r.id (some (resolve r.handler_name)) h).1
  unfolding register Syscall.new
  register-cons r rs builder h small =
      let test : ltb r.id 512 ≡ true = ground arith in
      rw (test, register-in_range r.id _ builder h small)

  declared-cons :
      (r : Registration) (rs : List Registration) (seen : List ℕ) (h : Host F) (n : ℕ)
      → r.id < 512
      → Distinct (r.id ∷ seen) rs
      → let h' = (sys.libriscv_set_syscall_handler r.id (some (resolve r.handler_name)) h).1 in
        declared rs n (t.table h'.foreign n) ≡ declared (r ∷ rs) n (t.table h.foreign n)
  declared-cons r rs seen h n small d = ground (
    arith,
    t.set_changes r.id (some (resolve r.handler_name)) h n small,
    declared-seen (r.id ∷ seen) rs n (some (resolve r.handler_name)),
    d,
  )

  register-installs :
      (rs : List Registration) (seen : List ℕ) (builder : SyscallRegistryBuilder) (h : Host F)
      → InRange rs
      → Distinct seen rs
      → ((register sys resolve rs builder h).0 ≡ ok tt)
        × ((n : ℕ)
            → t.table (register sys resolve rs builder h).1.foreign n
              ≡ declared rs n (t.table h.foreign n))
  unfolding register
  register-installs [] seen builder h small d = (refl, λ n. refl)
  register-installs (r ∷ rs) seen builder h small d =
      let h' = (sys.libriscv_set_syscall_handler r.id (some (resolve r.handler_name)) h).1 in
      let (done, entries) = register-installs rs (r.id ∷ seen) builder h' small.1 d.2 in
      rw (register-cons r rs builder h small.0)
        (done, λ n. entries n ∙ declared-cons r rs seen h n small.0 d.2)

  -- The `registry` function of a module that `syscall_registry` accepted, with ids below 512,
  -- succeeds; and then the C library's table holds the handler of each function under the id of
  -- its attribute, and every other entry as before.
  pub registry-installs :
      (items : List Item) (rs : List Registration) (h : Host F)
      → syscall_registry true (ok (some items)) ≡ ok (record { items = items; registrations = rs })
      → InRange rs
      → ((registry sys resolve rs h).0 ≡ ok Syscall.empty)
        × ((n : ℕ)
            → t.table (registry sys resolve rs h).1.foreign n ≡ declared rs n (t.table h.foreign n))
  unfolding registry Syscall.build Syscall.empty
  registry-installs items rs h accepted small =
      let (_, d) = (syscall_registry_iff items rs).0 accepted in
      let (done, entries) = register-installs rs [] Syscall.registry_builder h small d in
      (ground (arith, done), λ n. ground (arith, done, entries n))

module _ {F : Type 0} (sys : Sys F) (resolve : String → ℕ) where
  -- The C library's answer to one registration.
  abbrev set : Registration → Host F → ℤ × Host F
  set r h = sys.libriscv_set_syscall_handler r.id (some (resolve r.handler_name)) h

  -- The host after the calls for some registrations, one after the other.
  abbrev pub after : List Registration → Host F → Host F
  after [] h = h
  after (r ∷ rs) h = after rs (set r h).1

  -- The C library takes each of them.
  abbrev pub Taken : List Registration → Host F → Type 0
  Taken [] h = Unit
  Taken (r ∷ rs) h = ((set r h).0 ≡ pos 0) × Taken rs (set r h).1

  -- After registrations with ids below 512 that the C library has taken, one with an id below 512
  -- that the C library refuses with a code other than 0 stops `register` with the error of that
  -- code and its message, which names the function that was called. The host is then the one that
  -- this call has left, so no later handler is passed to the C library.
  pub register-stops :
      (rs : List Registration) (bad : Registration) (rest : List Registration)
      (builder : SyscallRegistryBuilder) (h : Host F)
      → InRange rs
      → bad.id < 512
      → Taken rs h
      → is_zero (set bad (after rs h)).0 ≡ false
      → let (code, h') = set bad (after rs h) in
        register sys resolve (rs ++ bad ∷ rest) builder h
        ≡ (err (Error.library "libriscv_set_syscall_handler" code (error_message sys code h')), h')
  unfolding register Syscall.new Syscall.register Syscall.register_syscall_handler check_code
  register-stops [] bad rest builder h small known taken refused =
      let test : ltb bad.id 512 ≡ true = ground (arith, known) in rw (test, refused) refl
  register-stops (r ∷ rs) bad rest builder h small known taken refused =
      let test : ltb r.id 512 ≡ true = ground (arith, small.0) in
      rw (test, taken.0)
        (register-stops rs bad rest builder (set r h).1 small.1 known taken.1 refused)
