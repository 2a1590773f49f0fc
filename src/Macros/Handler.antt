-- ===== src/Macros/Handler.antt =====
-- libriscv-macros/src/lib.rs: `syscall`, `syscall_handler`, `error_handler` and `stdout_handler`.
use libriscv_rust_binding.Common.{
  ℕ, String, str_append, Bool, true, false, not, ◌&&◌, List, [], ◌∷◌, Option, none, some, ltb, ◌==◌,
  ok, err,
}
use libriscv_rust_binding.Syscall.{syscalls_max}
use libriscv_rust_binding.Macros.Syntax.{
  RustType, FnArg, ItemFn, Meta, MacroError, Parsed, ◌>>=◌, ◌>>◌,
}
use libriscv_rust_binding.Macros.{validate_context_arg, wrap_syscall_result, parse_syscall_id}

abbrev pub reject_if : Bool → MacroError → Parsed (Unit {0})
reject_if true e = err e
reject_if false e = ok tt

-- The checks that the four macros make of a function, in their order; `name` is the macro's.
unfoldable pub check_signature : (name context : String) → ItemFn → Parsed (Unit {0})
check_signature name context input = do
  reject_if input.is_async (MacroError.no_async name)
  reject_if input.is_unsafe (MacroError.expects_safe name)
  reject_if (not (input.generics == 0)) (MacroError.no_generics name)
  reject_if input.is_variadic (MacroError.no_variadics name)
  validate_context_arg input context

-- What a macro puts in the place of the function: the function itself, a trampoline that the C
-- library can call, and a constructor of the handler. `syscall` adds a constant assertion that its
-- id is below `SYSCALLS_MAX`.
pub record Expansion : Type 0 where
  pub asserted_id : Option ℕ
  pub function : ItemFn
  pub trampoline_name : String
  pub wrapper_name : String

abbrev pub wrapper_of : String → String
wrapper_of fn_name = str_append fn_name "_handler"

abbrev pub expansion : Option ℕ → String → ItemFn → Expansion
expansion id prefix input = record {
  asserted_id = id;
  function = wrap_syscall_result input;
  trampoline_name = str_append prefix input.name;
  wrapper_name = wrapper_of input.name;
}

-- `attr` and `item` are the results of parsing the attribute's arguments and the function.
unfoldable pub syscall : Parsed Meta → Parsed ItemFn → Parsed Expansion
syscall attr item = do
  meta ← attr
  id ← parse_syscall_id meta
  input ← item
  check_signature "syscall" "SyscallContext" input
  ok (expansion (some id) "__libriscv_syscall_trampoline_" input)

-- The other three take no arguments; `attr_empty` says whether there are none.
unfoldable pub syscall_handler : Bool → Parsed ItemFn → Parsed Expansion
syscall_handler attr_empty item = do
  reject_if (not attr_empty) (MacroError.takes_no_arguments "syscall_handler")
  input ← item
  check_signature "syscall_handler" "SyscallContext" input
  ok (expansion none "__libriscv_syscall_trampoline_" input)

unfoldable pub error_handler : Bool → Parsed ItemFn → Parsed Expansion
error_handler attr_empty item = do
  reject_if (not attr_empty) (MacroError.takes_no_arguments "error_handler")
  input ← item
  check_signature "error_handler" "ErrorContext" input
  ok (expansion none "__libriscv_error_trampoline_" input)

unfoldable pub stdout_handler : Bool → Parsed ItemFn → Parsed Expansion
stdout_handler attr_empty item = do
  reject_if (not attr_empty) (MacroError.takes_no_arguments "stdout_handler")
  input ← item
  check_signature "stdout_handler" "StdoutContext" input
  ok (expansion none "__libriscv_stdout_trampoline_" input)

-- What the type of an argument or a result means where the function stands: the unit type,
-- `libriscv::SyscallContext`, `libriscv::SyscallResult` of something, or another type.
pub data Meaning : Type 0 where
  unit_type syscall_context syscall_result another : Meaning

-- What the compiler knows of the place: what the types there mean, and whether the function that is
-- given back is well typed by itself.
pub record Compiler : Type 0 where
  pub meaning : RustType → Meaning
  pub is_well_typed : ItemFn → Bool

-- The two implementations of `SyscallHandlerOutput`.
abbrev pub implements_output : Meaning → Bool
implements_output Meaning.unit_type = true
implements_output Meaning.syscall_result = true
implements_output Meaning.syscall_context = false
implements_output Meaning.another = false

-- The call `SyscallHandlerOutput::handle(fn_name(&mut ctx))`: the argument of the function is a
-- `&mut SyscallContext`, and its result has an implementation; without a result it is the unit type.
abbrev pub is_context : Meaning → Bool
is_context Meaning.syscall_context = true
is_context Meaning.unit_type = false
is_context Meaning.syscall_result = false
is_context Meaning.another = false

abbrev pub takes_context : Compiler → List FnArg → Bool
takes_context c (FnArg.typed (RustType.reference true ty) ∷ []) = is_context (c.meaning ty)
takes_context c _ = false

abbrev pub output_meaning : Compiler → Option RustType → Meaning
output_meaning c none = Meaning.unit_type
output_meaning c (some ty) = c.meaning ty

unfoldable pub trampoline_compiles : Compiler → ItemFn → Bool
trampoline_compiles c f = takes_context c f.inputs && implements_output (output_meaning c f.output)

-- What `syscall` expands to: the constant assertion, which the compiler evaluates, the function and
-- the trampoline.
unfoldable pub compiles : Compiler → Expansion → Bool
unfolding trampoline_compiles
compiles c e =
    (elim e.asserted_id [ none ↦ true | some id ↦ ltb id syscalls_max ])
    && c.is_well_typed e.function
    && trampoline_compiles c e.function
