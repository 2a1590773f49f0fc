-- ===== src/Raw.antt =====
-- The C structs of libriscv-sys/src/bindings.rs. A pointer is an address and null is 0; a function
-- pointer is `none` or an address; a `c_int` is an integer of Common.
pub mod Layout
pub mod Structs
use libriscv_rust_binding.Common.{ℕ, ◌≡◌, Option, List, ℤ, length}

abbrev pub null : ℕ
null = 0

-- `RISCVOptions`.
pub record RiscvOptions : Type 0 where
  pub max_memory : ℕ
  pub stack_size : ℕ
  pub strict_sandbox : ℤ
  pub argc : ℕ
  pub argv : ℕ
  pub error : Option ℕ
  pub stdout : Option ℕ
  pub opaque : ℕ
  pub use_memory_arena : ℤ
  pub use_shared_execute_segments : ℤ
  pub default_exit_function : ℕ
  pub load_program : ℤ
  pub protect_segments : ℤ
  pub native_syscall_base : ℕ
  pub arena_size : ℕ

-- `RISCVFloat`, the union of two `f32` and one `f64`: its eight bytes as one number. The byte order
-- is that of a little-endian host, so `f32_[0]` is the low half.
abbrev pub RiscvFloat : Type 0
RiscvFloat = ℕ

-- `RISCVRegisters`, with `r` and `fr` of 32 elements.
pub record RiscvRegisters : Type 0 where
  pub r : List ℕ
  pub pc : ℕ
  pub fcsr : ℕ
  pub fr : List RiscvFloat

-- The lengths that the array types state.
pub record IsWhole (regs : RiscvRegisters) : Type 0 where
  pub r_length : length regs.r ≡ 32
  pub fr_length : length regs.fr ≡ 32

-- `RISCVPageAttributes`.
pub record RiscvPageAttributes : Type 0 where
  pub read : ℤ
  pub write : ℤ
  pub exec : ℤ
  pub is_cow : ℤ
  pub non_owning : ℤ
  pub dont_fork : ℤ
  pub user_defined : ℕ

-- `RISCVReallocResult`.
pub record RiscvReallocResult : Type 0 where
  pub ptr : ℕ
  pub old_size : ℕ

-- `RISCV_PAGE_SIZE`.
abbrev pub page_size : ℕ
page_size = 4096

-- `RISCV_ERROR_TYPE_GENERAL_EXCEPTION`, `…_MACHINE_EXCEPTION` and `…_MACHINE_TIMEOUT`.
abbrev pub error_type_general_exception : ℤ
error_type_general_exception = ℤ.negsuc 0

abbrev pub error_type_machine_exception : ℤ
error_type_machine_exception = ℤ.negsuc 1

abbrev pub error_type_machine_timeout : ℤ
error_type_machine_timeout = ℤ.negsuc 2
