-- ===== src/Macros.antt =====
-- libriscv-macros/src/lib.rs: the attribute macros, over the parts of `syn`'s syntax trees that they
-- look at. What `syn` and `quote` do (parsing, spans, printing) is not here: a macro takes the result
-- of the parse, and gives an error or a description of the code that it expands to.
pub mod Handler
pub mod Registry
pub mod Signature
pub mod Syntax
use libriscv_rust_binding.Common.{
  ℕ, String, str_eq, Bool, true, false, ◌&&◌, not, Option, none, some, List, [], ◌∷◌, ltb, ◌==◌,
  if◌then◌else◌, Result, ok, err, u32_max,
}
use libriscv_rust_binding.Macros.Syntax.{
  RustType, Arguments, Segments, last_segment, Block, FnArg, ItemFn, Lit, Expr, Meta, Attribute,
  Item, MacroError, Parsed, ◌>>=◌, ◌>>◌,
}

-- `path.is_ident(name)`.
abbrev pub is_ident : List String → String → Bool
is_ident (segment ∷ []) name = str_eq segment name
is_ident _ name = false

-- `seg.ident == expected` for the last segment.
abbrev pub last_is : Option (String × Arguments) → String → Bool
last_is none expected = false
last_is (some (ident, _)) expected = str_eq ident expected

abbrev pub is_context_type : RustType → String → Bool
is_context_type (RustType.reference true (RustType.path segments)) expected =
    last_is (last_segment segments) expected
is_context_type (RustType.reference true _) expected = false
is_context_type (RustType.reference false _) expected = false
is_context_type (RustType.path segments) expected = false
is_context_type RustType.other expected = false

abbrev pub is_context_arg : FnArg → String → Bool
is_context_arg (FnArg.typed ty) expected = is_context_type ty expected
is_context_arg FnArg.receiver expected = false

unfoldable pub validate_context_arg : ItemFn → String → Parsed (Unit {0})
validate_context_arg input expected = elim input.inputs [
  | [] ↦ err (MacroError.one_argument expected)
  | arg ∷ rest ↦ elim rest [
    | [] ↦ if is_context_arg arg expected then ok tt else err (MacroError.argument_type expected)
    | _ ∷ _ ↦ err (MacroError.one_argument expected)
  ]
]

-- The type `T` of a return type whose last segment is `SyscallResult<T, …>`.
abbrev pub result_of : Option (String × Arguments) → Option RustType
result_of (some (ident, Arguments.angle_type inner)) =
    if str_eq ident "SyscallResult" then some inner else none
result_of (some (ident, Arguments.no_arguments)) = none
result_of (some (ident, Arguments.angle_other)) = none
result_of (some (ident, Arguments.parenthesized)) = none
result_of none = none

abbrev pub syscall_result : Option RustType → Option RustType
syscall_result (some (RustType.path segments)) = result_of (last_segment segments)
syscall_result (some (RustType.reference mutable elem)) = none
syscall_result (some RustType.other) = none
syscall_result none = none

unfoldable pub wrap_syscall_result : ItemFn → ItemFn
wrap_syscall_result input = elim (syscall_result input.output) [
  | none ↦ input
  | some inner ↦ record input { block = Block.wrapped inner input.block }
]

-- `lit.base10_parse::<u32>()` of a literal with the given value.
abbrev pub parse_u32 : ℕ → Parsed ℕ
parse_u32 value = if ltb u32_max value then err MacroError.out_of_range else ok value

abbrev pub parse_literal : Lit → Parsed ℕ
parse_literal (Lit.int value) = parse_u32 value
parse_literal Lit.other = err MacroError.not_an_integer

abbrev pub parse_expr : Expr → Parsed ℕ
parse_expr (Expr.lit l) = parse_literal l
parse_expr Expr.other = err MacroError.not_an_integer

unfoldable pub parse_syscall_id : Meta → Parsed ℕ
parse_syscall_id (Meta.name_value path value) =
    if is_ident path "id" then parse_expr value else err MacroError.attribute_form
parse_syscall_id Meta.other = err MacroError.attribute_form

unfoldable pub parse_syscall_attr : Attribute → Parsed ℕ
unfolding parse_syscall_id
parse_syscall_attr attr = do meta ← attr.args; parse_syscall_id meta
