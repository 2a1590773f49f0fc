-- ===== src/Callbacks.antt =====
-- src/callbacks.rs: the opaque pointer, the handlers and the contexts of the callbacks.
pub mod Laws
use libriscv_rust_binding.Common.{
  ℕ, ℤ, Bool, ◌||◌, Option, none, some, List, [], ◌==◌, eq_ℤ, if◌then◌else◌,
}
use libriscv_rust_binding.Raw.{
  null, error_type_general_exception, error_type_machine_exception, error_type_machine_timeout,
}
use libriscv_rust_binding.Memory.{Memory, read_bytes}
use libriscv_rust_binding.Memory.Strings.{c_str}

pub record Opaque : Type 0 where
  pub ptr : ℕ

-- `Opaque::new`.
unfoldable pub opaque_new : ℕ → Opaque
opaque_new ptr = record { ptr = ptr }

unfoldable pub as_ptr : Opaque → ℕ
as_ptr self = self.ptr

unfoldable pub is_null : Opaque → Bool
is_null self = self.ptr == null

-- The reference is the address.
unfoldable pub cast_ref : Opaque → Option ℕ
cast_ref self = if self.ptr == null then none else some self.ptr

unfoldable pub cast_mut : Opaque → Option ℕ
cast_mut self = if self.ptr == null then none else some self.ptr

-- A handler that the C library calls: none, or a function pointer.
pub record ErrorHandler : Type 0 where
  pub pointer : Option ℕ

pub record StdoutHandler : Type 0 where
  pub pointer : Option ℕ

-- `ErrorHandler::clear` and `new`, and those of `StdoutHandler`.
abbrev pub clear_error : ErrorHandler
clear_error = record { pointer = none }

abbrev pub error_handler : (handler : ℕ) → ErrorHandler
error_handler handler = record { pointer = some handler }

abbrev pub clear_stdout : StdoutHandler
clear_stdout = record { pointer = none }

abbrev pub stdout_handler : (handler : ℕ) → StdoutHandler
stdout_handler handler = record { pointer = some handler }

pub data ErrorType : Type 0 where
  general_exception machine_exception machine_timeout : ErrorType
  unknown : ℤ → ErrorType

unfoldable pub from_raw : ℤ → ErrorType
from_raw code =
    if eq_ℤ code error_type_general_exception
    then ErrorType.general_exception
    else if eq_ℤ code error_type_machine_exception
    then ErrorType.machine_exception
    else if eq_ℤ code error_type_machine_timeout
    then ErrorType.machine_timeout
    else ErrorType.unknown code

unfoldable pub as_raw : ErrorType → ℤ
as_raw ErrorType.general_exception = error_type_general_exception
as_raw ErrorType.machine_exception = error_type_machine_exception
as_raw ErrorType.machine_timeout = error_type_machine_timeout
as_raw (ErrorType.unknown code) = code

pub record ErrorContext : Type 0 where
  pub error_type : ErrorType
  pub message : Option (List ℕ)
  pub value : ℤ
  pub opaque : Opaque

-- `ErrorContext::from_raw`. A message pointer is null or points to a C string.
unfoldable pub error_context :
    (opaque : ℕ) → (error_type : ℤ) → (msg : ℕ) → ℤ → Memory → ErrorContext
unfolding from_raw
error_context opaque error_type msg value m = record {
  error_type = from_raw error_type;
  message = if msg == null then none else c_str m msg;
  value = value;
  opaque = record { ptr = opaque };
}

pub record StdoutContext : Type 0 where
  pub bytes : List ℕ
  pub opaque : Opaque

-- `StdoutContext::from_raw`.
unfoldable pub stdout_context : (opaque msg len : ℕ) → Memory → StdoutContext
stdout_context opaque msg len m = record {
  bytes = if msg == null || len == 0 then [] else read_bytes m msg len;
  opaque = record { ptr = opaque };
}
