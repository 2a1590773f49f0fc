-- ===== src/Examples/Module.antt =====
-- examples/advanced_syscalls.rs: the module of system calls, as `syscall_registry` sees it.
use libriscv_rust_binding.Common.{ℕ, String, true, false, some, List, [], ◌∷◌, ok}
use libriscv_rust_binding.Macros.Syntax.{
  RustType, Segments, Arguments, FnArg, Block, Lit, Expr, Meta, ItemFn, Item,
}

-- `SyscallResult<()>`: the type between the brackets is no path.
abbrev syscall_result : RustType
syscall_result =
    RustType.path
      (Segments.segment "SyscallResult" (Arguments.angle_type RustType.other) Segments.end)

-- `#[syscall(id = n)] fn name(ctx: &mut SyscallContext) -> SyscallResult<()>`, and a body.
abbrev syscall_function : (name : String) → (n body : ℕ) → ItemFn
syscall_function name n body = record {
  name = name;
  attrs =
      record {
        path = "syscall" ∷ [];
        args = ok (Meta.name_value ("id" ∷ []) (Expr.lit (Lit.int n)));
      }
      ∷ [];
  is_async = false;
  is_unsafe = false;
  generics = 0;
  is_variadic = false;
  inputs =
      FnArg.typed (
        RustType.reference true
          (RustType.path (Segments.segment "SyscallContext" Arguments.no_arguments Segments.end)))
      ∷ [];
  output = some syscall_result;
  block = Block.source body;
}

-- `use super::*;` and the functions.
abbrev pub host_items : List Item
host_items =
    Item.other
    ∷ Item.function (syscall_function "host_function_500" 500 0)
    ∷ Item.function (syscall_function "host_function_501" 501 1)
    ∷ Item.function (syscall_function "host_function_502" 502 2)
    ∷ Item.function (syscall_function "host_function_503" 503 3)
    ∷ []
