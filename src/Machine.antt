-- ===== src/Machine.antt =====
-- src/lib.rs: `Machine` and `ForkedMachine`. Every method is one call of the C library with the
-- wrapper's checks around it.
pub mod Arena
pub mod Calls
pub mod Create
pub mod Guest
pub mod Lifecycle
pub mod Names
pub mod Step
use libriscv_rust_binding.Common.{
  ℕ, ◌%◌, ◌^◌, ℤ, Bool, not, Option, none, some, List, ltb, ◌==◌, if◌then◌else◌, u32_max,
  is_negative, is_positive, is_zero, to_i32, to_u64, from_bool, ok_or, length,
}
use libriscv_rust_binding.Common.Utf8.{is_utf8}
use libriscv_rust_binding.Raw.{RiscvOptions, page_size, null}
use libriscv_rust_binding.Memory.{Memory, alloc_bytes}
use libriscv_rust_binding.Slice.{Slice, contents, nonzero, nonnull}
use libriscv_rust_binding.Sys.{Host, Ffi, Sys}
use libriscv_rust_binding.Error.{Error}
use libriscv_rust_binding.Error.Action.{Action, pure, fail, attempt, call, on_memory, ◌>>=◌, ◌>>◌}
use libriscv_rust_binding.Error.Check.{check_code}
use libriscv_rust_binding.Options
use libriscv_rust_binding.Options.{Options, cstring}
use libriscv_rust_binding.Pages.{PageAttributes}
use libriscv_rust_binding.Pages
use libriscv_rust_binding.Registers.{Registers}
use libriscv_rust_binding.Syscall.{SyscallRegistry}

-- `elf` is the owned copy of the program.
pub record Machine : Type 0 where
  pub ptr : ℕ
  pub elf : Slice
  pub options : Options

-- `Box::new([])`.
abbrev pub empty_elf : Slice
empty_elf = record { address = 1; len = 0 }

pub record ForkedMachine : Type 0 where
  pub machine : Machine

-- `elf.to_vec().into_boxed_slice()`.
unfoldable pub to_owned : Slice → Memory → Slice × Memory
unfolding alloc_bytes
to_owned s m =
    let (p, m') = alloc_bytes (contents m s) m in (record { address = p; len = s.len }, m')

module _ {F : Type 0} (sys : Sys F) where
  unfoldable pub new : Slice → Options → SyscallRegistry → Action (Host F) Machine
  unfolding to_owned
  new elf options registry = if ltb u32_max elf.len then fail (Error.elf_too_large elf.len) else (do
    owned ← on_memory (call (to_owned elf))
    ptr ← call (sys.libriscv_new owned.address (owned.len % 2 ^ 32) options.raw)
    ptr ← attempt (nonnull "libriscv_new" ptr)
    pure (record { ptr = ptr; elf = owned; options = options }))

  unfoldable pub with_defaults : Slice → SyscallRegistry → Action (Host F) Machine
  unfolding new Options.new
  with_defaults elf registry = do options ← call (Options.new sys); new elf options registry

  module _ (self : Machine) where
    unfoldable pub run : ℕ → Action (Host F) (Unit {0})
    unfolding check_code
    run instruction_limit = do
      code ← call (sys.libriscv_run self.ptr instruction_limit)
      check_code sys "libriscv_run" code

    unfoldable pub step : Bool → Action (Host F) (Option ℕ)
    unfolding check_code
    step verbose = do
      value ← call (sys.libriscv_step_one self.ptr (from_bool verbose))
      if is_negative value then check_code sys "libriscv_step_one" (to_i32 value) else pure tt
      pure (if is_positive value then some (to_u64 value) else none)

    unfoldable pub stop : Ffi F (Unit {0})
    stop = sys.libriscv_stop self.ptr

    -- `path` is the bytes of the path: `to_str` fails if they are not UTF-8.
    unfoldable pub allow_file : List ℕ → Action (Host F) (Unit {0})
    unfolding cstring
    allow_file path =
        if is_utf8 path
        then (do
          c_path ← on_memory (cstring path)
          call (sys.libriscv_allow_file self.ptr c_path.address))
        else fail Error.non_utf8_path

    unfoldable pub return_value : Ffi F ℤ
    return_value = sys.libriscv_return_value self.ptr

    unfoldable pub set_result : ℤ → Ffi F (Unit {0})
    set_result value = sys.libriscv_set_result_register self.ptr value

    unfoldable pub address_of : List ℕ → Action (Host F) (Option ℕ)
    unfolding cstring
    address_of name = do
      c_name ← on_memory (cstring name)
      addr ← call (sys.libriscv_address_of self.ptr c_name.address)
      pure (if addr == 0 then none else some addr)

    unfoldable pub opaque : Ffi F ℕ
    opaque = sys.libriscv_opaque self.ptr

    unfoldable pub instruction_counter : Ffi F ℕ
    instruction_counter = sys.libriscv_instruction_counter self.ptr

    -- The address of the counter, through which it can be read and set.
    unfoldable pub max_instruction_counter : Ffi F (Option ℕ)
    max_instruction_counter h =
        let (ptr, h') = sys.libriscv_max_counter_pointer self.ptr h in (nonzero ptr, h')

    unfoldable pub instruction_limit_reached : Ffi F Bool
    instruction_limit_reached h =
        let (z, h') = sys.libriscv_instruction_limit_reached self.ptr h in (not (is_zero z), h')

    unfoldable pub is_forked : Ffi F Bool
    is_forked h = let (z, h') = sys.libriscv_is_forked self.ptr h in (not (is_zero z), h')

    unfoldable pub fast_fork : Options → Action (Host F) ForkedMachine
    fast_fork options = do
      (ptr, raw) ← call (sys.libriscv_fast_fork self.ptr options.raw)
      ptr ← attempt (nonnull "libriscv_fast_fork" ptr)
      pure (record {
        machine = record { ptr = ptr; elf = empty_elf; options = record options { raw = raw } };
      })

    unfoldable pub parent_page : ℕ → Ffi F (Option (Slice × PageAttributes))
    unfolding Pages.from_raw
    parent_page page_number h =
        let ((ptr, attributes), h') = sys.libriscv_get_parent_page_data self.ptr page_number h in
        (
          if ptr == null
              then none
              else some (record { address = ptr; len = page_size }, Pages.from_raw attributes),
          h',
        )

    unfoldable pub setup_linux_syscalls : (filesystem sockets : Bool) → Action (Host F) (Unit {0})
    unfolding check_code
    setup_linux_syscalls filesystem sockets = do
      code ←
          call
            (sys.libriscv_setup_linux_syscalls self.ptr (from_bool filesystem) (from_bool sockets))
      check_code sys "libriscv_setup_linux_syscalls" code

    unfoldable pub setup_posix_threads : Action (Host F) (Unit {0})
    unfolding check_code
    setup_posix_threads = do
      code ← call (sys.libriscv_setup_posix_threads self.ptr)
      check_code sys "libriscv_setup_posix_threads" code

    unfoldable pub jump : ℕ → Action (Host F) (Unit {0})
    unfolding check_code
    jump address = do
      code ← call (sys.libriscv_jump self.ptr address)
      check_code sys "libriscv_jump" code

    unfoldable pub setup_vmcall : ℕ → Action (Host F) (Unit {0})
    unfolding check_code
    setup_vmcall address = do
      code ← call (sys.libriscv_setup_vmcall self.ptr address)
      check_code sys "libriscv_setup_vmcall" code

    unfoldable pub registers : Action (Host F) Registers
    registers = do
      ptr ← call (sys.libriscv_get_registers self.ptr)
      ptr ← attempt (nonnull "libriscv_get_registers" ptr)
      pure (record { ptr = ptr })

    unfoldable pub trigger_exception : (exception value : ℕ) → Ffi F (Unit {0})
    trigger_exception exception value = sys.libriscv_trigger_exception self.ptr exception value

    -- `Drop for Machine`.
    unfoldable pub drop : Host F → Host F
    drop h = (sys.libriscv_delete self.ptr h).1

  unfoldable pub setup_native_memory : ℕ → Action (Host F) (Unit {0})
  unfolding check_code
  setup_native_memory syscall_base = do
    code ← call (sys.libriscv_setup_native_memory syscall_base)
    check_code sys "libriscv_setup_native_memory" code
