-- ===== src/Sys.antt =====
-- The C API of libriscv, which is not part of this repository: a record of functions over the
-- state of the host, a parameter of every definition that calls it. libriscv-sys/src/bindings.rs
-- declares these functions.
use libriscv_rust_binding.Common.{ℕ, ℤ, Option}
use libriscv_rust_binding.Memory.{Memory}
use libriscv_rust_binding.Raw.{RiscvOptions, RiscvPageAttributes, RiscvReallocResult}

-- The memory of the process, and the state `F` that the C library keeps for itself: its machines,
-- their guests and the table of system call handlers.
pub record Host (F : Type 0) : Type 0 where
  pub memory : Memory
  pub foreign : F

-- A call into the C library.
abbrev pub Ffi : Type 0 → Type 0 → Type 0
Ffi F A = Host F → A × Host F

-- An out parameter is a second result; where C may leave it as it was, it is an argument as well.
pub record Sys (F : Type 0) : Type 0 where
  pub libriscv_set_defaults : RiscvOptions → Ffi F RiscvOptions
  pub libriscv_strerror : ℤ → Host F → ℕ
  pub libriscv_new : (elf_prog elf_size : ℕ) → RiscvOptions → Ffi F ℕ
  pub libriscv_delete : ℕ → Ffi F ℤ
  pub libriscv_run : ℕ → (instruction_limit : ℕ) → Ffi F ℤ
  pub libriscv_step_one : ℕ → (verbose : ℤ) → Ffi F ℤ
  pub libriscv_allow_file : ℕ → (path : ℕ) → Ffi F (Unit {0})
  pub libriscv_return_value : ℕ → Ffi F ℤ
  pub libriscv_address_of : ℕ → (name : ℕ) → Ffi F ℕ
  pub libriscv_opaque : ℕ → Ffi F ℕ
  pub libriscv_get_registers : ℕ → Ffi F ℕ
  pub libriscv_set_result_register : ℕ → (value : ℤ) → Ffi F (Unit {0})
  pub libriscv_jump : ℕ → (address : ℕ) → Ffi F ℤ
  pub libriscv_copy_to_guest : ℕ → (dst src len : ℕ) → Ffi F ℤ
  pub libriscv_copy_from_guest : ℕ → (dst src len : ℕ) → Ffi F ℤ
  pub libriscv_memstring : ℕ → (src maxlen length : ℕ) → Ffi F (ℕ × ℕ)
  pub libriscv_memview : ℕ → (src length : ℕ) → Ffi F ℕ
  pub libriscv_writable_memview : ℕ → (src length : ℕ) → Ffi F ℕ
  pub libriscv_stop : ℕ → Ffi F (Unit {0})
  pub libriscv_instruction_counter : ℕ → Ffi F ℕ
  pub libriscv_max_counter_pointer : ℕ → Ffi F ℕ
  pub libriscv_instruction_limit_reached : ℕ → Ffi F ℤ
  pub libriscv_set_syscall_handler : (num : ℕ) → Option ℕ → Ffi F ℤ
  pub libriscv_trigger_exception : ℕ → (exception value : ℕ) → Ffi F (Unit {0})
  pub libriscv_setup_vmcall : ℕ → (address : ℕ) → Ffi F ℤ
  pub libriscv_fast_fork : (parent : ℕ) → RiscvOptions → Ffi F (ℕ × RiscvOptions)
  pub libriscv_is_forked : ℕ → Ffi F ℤ
  pub libriscv_get_parent_page_data : ℕ → (pageno : ℕ) → Ffi F (ℕ × RiscvPageAttributes)
  pub libriscv_setup_arena : ℕ → (syscall_base addr size : ℕ) → Ffi F ℤ
  pub libriscv_has_arena : ℕ → Ffi F ℤ
  pub libriscv_arena_malloc : ℕ → (size : ℕ) → Ffi F ℕ
  pub libriscv_arena_free : ℕ → (ptr : ℕ) → Ffi F ℤ
  pub libriscv_arena_realloc : ℕ → (ptr new_size : ℕ) → Ffi F RiscvReallocResult
  pub libriscv_arena_size : ℕ → (ptr : ℕ) → Ffi F ℕ
  pub libriscv_arena_high_watermark : ℕ → Ffi F ℕ
  pub libriscv_arena_set_unknown_free : ℕ → Option ℕ → (user : ℕ) → Ffi F (Unit {0})
  pub libriscv_arena_set_unknown_realloc : ℕ → Option ℕ → (user : ℕ) → Ffi F (Unit {0})
  pub libriscv_transfer_arena : (dst src : ℕ) → Ffi F ℤ
  pub libriscv_heap_address : ℕ → Ffi F ℕ
  pub libriscv_mmap_allocate : ℕ → (bytes : ℕ) → Ffi F ℕ
  pub libriscv_stack_initial : ℕ → Ffi F ℕ
  pub libriscv_owned_pages_active : ℕ → Ffi F ℕ
  pub libriscv_insert_non_owned_memory : ℕ → (dst src size : ℕ) → RiscvPageAttributes → Ffi F ℤ
  pub libriscv_setup_linux_syscalls : ℕ → (filesystem sockets : ℤ) → Ffi F ℤ
  pub libriscv_setup_posix_threads : ℕ → Ffi F ℤ
  pub libriscv_setup_native_memory : (syscall_base : ℕ) → Ffi F ℤ
