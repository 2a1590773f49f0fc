-- ===== src/Options/Setters.antt =====
-- src/lib.rs: the chained methods of `OptionsBuilder`.
use libriscv_rust_binding.Common.{ℕ, Bool, Option, none, some, List, [], from_bool}
use libriscv_rust_binding.Options.{OptionsBuilder}

-- `ErrorHandler` and `StdoutHandler` are the function pointers that they hold.
unfoldable pub max_memory : ℕ → OptionsBuilder → OptionsBuilder
max_memory bytes b = record b { raw = record b.raw { max_memory = bytes } }

pub stack_size : ℕ → OptionsBuilder → OptionsBuilder
stack_size bytes b = record b { raw = record b.raw { stack_size = bytes } }

pub strict_sandbox : Bool → OptionsBuilder → OptionsBuilder
strict_sandbox strict b = record b { raw = record b.raw { strict_sandbox = from_bool strict } }

pub use_memory_arena : Bool → OptionsBuilder → OptionsBuilder
use_memory_arena enabled b = record b {
  raw = record b.raw { use_memory_arena = from_bool enabled };
}

pub use_shared_execute_segments : Bool → OptionsBuilder → OptionsBuilder
use_shared_execute_segments enabled b = record b {
  raw = record b.raw { use_shared_execute_segments = from_bool enabled };
}

pub default_exit_function : List ℕ → OptionsBuilder → OptionsBuilder
default_exit_function symbol b = record b { default_exit_function = some symbol }

pub clear_default_exit_function : OptionsBuilder → OptionsBuilder
clear_default_exit_function b = record b { default_exit_function = none }

pub load_program : Bool → OptionsBuilder → OptionsBuilder
load_program enabled b = record b { raw = record b.raw { load_program = from_bool enabled } }

pub protect_segments : Bool → OptionsBuilder → OptionsBuilder
protect_segments enabled b = record b {
  raw = record b.raw { protect_segments = from_bool enabled };
}

pub native_syscall_base : ℕ → OptionsBuilder → OptionsBuilder
native_syscall_base base b = record b { raw = record b.raw { native_syscall_base = base } }

pub arena_size : ℕ → OptionsBuilder → OptionsBuilder
arena_size bytes b = record b { raw = record b.raw { arena_size = bytes } }

unfoldable pub args : List (List ℕ) → OptionsBuilder → OptionsBuilder
args given b = record b { args = given }

pub clear_args : OptionsBuilder → OptionsBuilder
clear_args b = record b { args = [] }

unfoldable pub error_handler : Option ℕ → OptionsBuilder → OptionsBuilder
error_handler handler b = record b { raw = record b.raw { error = handler } }

unfoldable pub stdout_handler : Option ℕ → OptionsBuilder → OptionsBuilder
stdout_handler handler b = record b { raw = record b.raw { stdout = handler } }

pub opaque : ℕ → OptionsBuilder → OptionsBuilder
opaque pointer b = record b { raw = record b.raw { opaque = pointer } }

-- A call of one of the methods, with its argument.
pub data Setting : Type 0 where
  to_max_memory to_stack_size to_native_syscall_base to_arena_size to_opaque : ℕ → Setting
  to_strict_sandbox to_use_memory_arena to_use_shared_execute_segments : Bool → Setting
  to_load_program to_protect_segments : Bool → Setting
  to_default_exit_function : List ℕ → Setting
  to_clear_default_exit_function to_clear_args : Setting
  to_args : List (List ℕ) → Setting
  to_error_handler to_stdout_handler : Option ℕ → Setting

unfoldable pub apply : Setting → OptionsBuilder → OptionsBuilder
unfolding max_memory stack_size strict_sandbox use_memory_arena use_shared_execute_segments
    default_exit_function clear_default_exit_function load_program protect_segments
    native_syscall_base arena_size args clear_args error_handler stdout_handler opaque
apply (Setting.to_max_memory bytes) = max_memory bytes
apply (Setting.to_stack_size bytes) = stack_size bytes
apply (Setting.to_strict_sandbox strict) = strict_sandbox strict
apply (Setting.to_use_memory_arena enabled) = use_memory_arena enabled
apply (Setting.to_use_shared_execute_segments enabled) = use_shared_execute_segments enabled
apply (Setting.to_default_exit_function symbol) = default_exit_function symbol
apply Setting.to_clear_default_exit_function = clear_default_exit_function
apply (Setting.to_load_program enabled) = load_program enabled
apply (Setting.to_protect_segments enabled) = protect_segments enabled
apply (Setting.to_native_syscall_base base) = native_syscall_base base
apply (Setting.to_arena_size bytes) = arena_size bytes
apply (Setting.to_args given) = args given
apply Setting.to_clear_args = clear_args
apply (Setting.to_error_handler handler) = error_handler handler
apply (Setting.to_stdout_handler handler) = stdout_handler handler
apply (Setting.to_opaque pointer) = opaque pointer

-- The option that a call is about; the methods that clear an option share its slot.
pub data Slot : Type 0 where
  max_memory_slot stack_size_slot strict_sandbox_slot use_memory_arena_slot : Slot
  use_shared_execute_segments_slot exit_function_slot load_program_slot : Slot
  protect_segments_slot native_syscall_base_slot arena_size_slot args_slot error_slot : Slot
  stdout_slot opaque_slot : Slot

abbrev pub slot : Setting → Slot
slot (Setting.to_max_memory bytes) = Slot.max_memory_slot
slot (Setting.to_stack_size bytes) = Slot.stack_size_slot
slot (Setting.to_strict_sandbox strict) = Slot.strict_sandbox_slot
slot (Setting.to_use_memory_arena enabled) = Slot.use_memory_arena_slot
slot (Setting.to_use_shared_execute_segments enabled) = Slot.use_shared_execute_segments_slot
slot (Setting.to_default_exit_function symbol) = Slot.exit_function_slot
slot Setting.to_clear_default_exit_function = Slot.exit_function_slot
slot (Setting.to_load_program enabled) = Slot.load_program_slot
slot (Setting.to_protect_segments enabled) = Slot.protect_segments_slot
slot (Setting.to_native_syscall_base base) = Slot.native_syscall_base_slot
slot (Setting.to_arena_size bytes) = Slot.arena_size_slot
slot (Setting.to_args given) = Slot.args_slot
slot Setting.to_clear_args = Slot.args_slot
slot (Setting.to_error_handler handler) = Slot.error_slot
slot (Setting.to_stdout_handler handler) = Slot.stdout_slot
slot (Setting.to_opaque pointer) = Slot.opaque_slot
