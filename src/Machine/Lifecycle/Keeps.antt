-- ===== src/Machine/Lifecycle/Keeps.antt =====
-- src/lib.rs: the calls of the C library that neither make nor delete a machine, and the methods that
-- call them.
use libriscv_rust_binding.Common.{
  ℕ, ℤ, String, ◌≡◌, refl, ◌∙◌, Option, ok, err, if◌then◌else◌, Bool, Bool-cases, inl, inr,
}
use libriscv_rust_binding.Raw.{RiscvOptions, RiscvPageAttributes}
use libriscv_rust_binding.Memory.{Memory}
use libriscv_rust_binding.Sys.{Host, Ffi, Sys}
use libriscv_rust_binding.Error.{Fallible}
use libriscv_rust_binding.Error.Action.{Action, pure, attempt, call, on_memory, and_then, ◌>>=◌}
use libriscv_rust_binding.Error.Check.{check_code}
use libriscv_rust_binding.Machine.Lifecycle.{MachineTable}

module _ {F : Type 0} (sys : Sys F) (t : MachineTable sys) where
  -- After `f` the same machines exist.
  pub record Keeps {A : Type 0} (f : Host F → A × Host F) : Type 0 where
    pub keeps : (h : Host F) (q : ℕ) → t.exists (f h).1.foreign q ≡ t.exists h.foreign q

  -- What the wrapper relies on: machines come and go only by the calls that make and delete them. So
  -- the system call handlers that `libriscv_run` calls make and drop no machine.
  pub record OtherCalls : Type 0 where
    pub set_defaults_keeps : (o : RiscvOptions) → Keeps (sys.libriscv_set_defaults o)
    pub run_keeps : (p : ℕ) (instruction_limit : ℕ) → Keeps (sys.libriscv_run p instruction_limit)
    pub step_one_keeps : (p : ℕ) (verbose : ℤ) → Keeps (sys.libriscv_step_one p verbose)
    pub allow_file_keeps : (p : ℕ) (path : ℕ) → Keeps (sys.libriscv_allow_file p path)
    pub return_value_keeps : (p : ℕ) → Keeps (sys.libriscv_return_value p)
    pub address_of_keeps : (p : ℕ) (name : ℕ) → Keeps (sys.libriscv_address_of p name)
    pub opaque_keeps : (p : ℕ) → Keeps (sys.libriscv_opaque p)
    pub get_registers_keeps : (p : ℕ) → Keeps (sys.libriscv_get_registers p)
    pub set_result_register_keeps :
        (p : ℕ) (value : ℤ) → Keeps (sys.libriscv_set_result_register p value)
    pub jump_keeps : (p : ℕ) (address : ℕ) → Keeps (sys.libriscv_jump p address)
    pub copy_to_guest_keeps :
        (p : ℕ) (dst src len : ℕ) → Keeps (sys.libriscv_copy_to_guest p dst src len)
    pub copy_from_guest_keeps :
        (p : ℕ) (dst src len : ℕ) → Keeps (sys.libriscv_copy_from_guest p dst src len)
    pub memstring_keeps :
        (p : ℕ) (src maxlen length : ℕ) → Keeps (sys.libriscv_memstring p src maxlen length)
    pub stop_keeps : (p : ℕ) → Keeps (sys.libriscv_stop p)
    pub instruction_counter_keeps : (p : ℕ) → Keeps (sys.libriscv_instruction_counter p)
    pub max_counter_pointer_keeps : (p : ℕ) → Keeps (sys.libriscv_max_counter_pointer p)
    pub instruction_limit_reached_keeps : (p : ℕ) → Keeps (sys.libriscv_instruction_limit_reached p)
    pub set_syscall_handler_keeps :
        (num : ℕ) (handler : Option ℕ) → Keeps (sys.libriscv_set_syscall_handler num handler)
    pub trigger_exception_keeps :
        (p : ℕ) (exception value : ℕ) → Keeps (sys.libriscv_trigger_exception p exception value)
    pub setup_vmcall_keeps : (p : ℕ) (address : ℕ) → Keeps (sys.libriscv_setup_vmcall p address)
    pub is_forked_keeps : (p : ℕ) → Keeps (sys.libriscv_is_forked p)
    pub get_parent_page_data_keeps :
        (p : ℕ) (pageno : ℕ) → Keeps (sys.libriscv_get_parent_page_data p pageno)
    pub setup_arena_keeps :
        (p : ℕ) (syscall_base addr size : ℕ)
        → Keeps (sys.libriscv_setup_arena p syscall_base addr size)
    pub has_arena_keeps : (p : ℕ) → Keeps (sys.libriscv_has_arena p)
    pub arena_malloc_keeps : (p : ℕ) (size : ℕ) → Keeps (sys.libriscv_arena_malloc p size)
    pub arena_free_keeps : (p : ℕ) (ptr : ℕ) → Keeps (sys.libriscv_arena_free p ptr)
    pub arena_realloc_keeps :
        (p : ℕ) (ptr new_size : ℕ) → Keeps (sys.libriscv_arena_realloc p ptr new_size)
    pub arena_size_keeps : (p : ℕ) (ptr : ℕ) → Keeps (sys.libriscv_arena_size p ptr)
    pub arena_high_watermark_keeps : (p : ℕ) → Keeps (sys.libriscv_arena_high_watermark p)
    pub arena_set_unknown_free_keeps :
        (p : ℕ) (handler : Option ℕ) (user : ℕ)
        → Keeps (sys.libriscv_arena_set_unknown_free p handler user)
    pub arena_set_unknown_realloc_keeps :
        (p : ℕ) (handler : Option ℕ) (user : ℕ)
        → Keeps (sys.libriscv_arena_set_unknown_realloc p handler user)
    pub transfer_arena_keeps : (dst src : ℕ) → Keeps (sys.libriscv_transfer_arena dst src)
    pub heap_address_keeps : (p : ℕ) → Keeps (sys.libriscv_heap_address p)
    pub mmap_allocate_keeps : (p : ℕ) (bytes : ℕ) → Keeps (sys.libriscv_mmap_allocate p bytes)
    pub stack_initial_keeps : (p : ℕ) → Keeps (sys.libriscv_stack_initial p)
    pub owned_pages_active_keeps : (p : ℕ) → Keeps (sys.libriscv_owned_pages_active p)
    pub insert_non_owned_memory_keeps :
        (p : ℕ) (dst src size : ℕ) (attributes : RiscvPageAttributes)
        → Keeps (sys.libriscv_insert_non_owned_memory p dst src size attributes)
    pub setup_linux_syscalls_keeps :
        (p : ℕ) (filesystem sockets : ℤ)
        → Keeps (sys.libriscv_setup_linux_syscalls p filesystem sockets)
    pub setup_posix_threads_keeps : (p : ℕ) → Keeps (sys.libriscv_setup_posix_threads p)
    pub setup_native_memory_keeps :
        (syscall_base : ℕ) → Keeps (sys.libriscv_setup_native_memory syscall_base)

  and_then-Keeps :
      {A B : Type 0} (r : Fallible A × Host F) (k : A → Action (Host F) B) (q : ℕ)
      → ((a : A) → Keeps (k a))
      → t.exists (and_then r k).1.foreign q ≡ t.exists r.1.foreign q
  and_then-Keeps (ok a, s) k q next = (next a).keeps s q
  and_then-Keeps (err e, s) k q next = refl

  pub bind-Keeps :
      {A B : Type 0} (m : Action (Host F) A) (k : A → Action (Host F) B)
      → Keeps m
      → ((a : A) → Keeps (k a))
      → Keeps (m >>= k)
  bind-Keeps m k first next = record {
    keeps = λ h q. and_then-Keeps (m h) k q next ∙ first.keeps h q;
  }

  pub call-Keeps : {A : Type 0} (f : Ffi F A) → Keeps f → Keeps (call f)
  call-Keeps f first = record { keeps = first.keeps }

  -- A last step that only makes the result.
  pub pure-Keeps :
      {A B : Type 0} (m : Action (Host F) A) (f : A → B) → Keeps m → Keeps (m >>= λ a. pure (f a))
  pure-Keeps m f first = bind-Keeps m (λ a. pure (f a)) first (λ a. record { keeps = λ h q. refl })

  pub on_memory-Keeps : {A : Type 0} (f : Action Memory A) → Keeps (on_memory f)
  on_memory-Keeps f = record { keeps = λ h q. refl }

  -- A last step on the memory alone.
  pub memory-Keeps :
      {A B : Type 0} (m : Action (Host F) A) (f : A → Action Memory B)
      → Keeps m
      → Keeps (m >>= λ a. on_memory (f a))
  memory-Keeps m f first = bind-Keeps m (λ a. on_memory (f a)) first (λ a. on_memory-Keeps (f a))

  -- An answer without a call.
  pub answer-Keeps : {A : Type 0} (r : Fallible A) → Keeps (attempt r)
  answer-Keeps r = record { keeps = λ h q. refl }

  -- A call on one branch alone.
  pub branch-Keeps :
      {A : Type 0} (b : Bool) (f g : Action (Host F) A)
      → Keeps f
      → Keeps g
      → Keeps (if b then f else g)
  branch-Keeps b f g first second = elim (Bool-cases b) [ inl e ↦ rw e first | inr e ↦ rw e second ]

  -- A call whose code is checked.
  pub checked-Keeps :
      (op : String) (f : Ffi F ℤ) → Keeps f → Keeps (call f >>= λ code. check_code sys op code)
  unfolding check_code
  checked-Keeps op f first =
      bind-Keeps (call f) (λ code. check_code sys op code) (call-Keeps f first)
        (λ code. record { keeps = λ h q. refl })
