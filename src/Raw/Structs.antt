-- ===== src/Raw/Structs.antt =====
-- libriscv-sys/src/bindings.rs: the types of its structs, and the assertions that stand beside them.
pub mod Compile
use libriscv_rust_binding.Common.{Bool, ◌&&◌, List, [], ◌∷◌}
use libriscv_rust_binding.Raw.Layout.{Target, CType, Assertions, struct_of, union_of, compiles}

-- `Option<unsafe extern "C" fn(…)>`: `None` is the null pointer.
abbrev pub riscv_error_func : CType
riscv_error_func = CType.pointer

abbrev pub riscv_stdout_func : CType
riscv_stdout_func = CType.pointer

abbrev pub riscv_syscall_handler : CType
riscv_syscall_handler = CType.pointer

abbrev pub riscv_arena_unknown_free : CType
riscv_arena_unknown_free = CType.pointer

abbrev pub riscv_arena_unknown_realloc : CType
riscv_arena_unknown_realloc = CType.pointer

-- An opaque type: it has no bytes, and is used behind pointers alone.
abbrev pub riscv_machine : CType
riscv_machine = struct_of (("_unused", CType.array CType.u8 0) ∷ [])

abbrev pub riscv_options : CType
riscv_options = struct_of (
    ("max_memory", CType.u64)
    ∷ ("stack_size", CType.u32)
    ∷ ("strict_sandbox", CType.c_int)
    ∷ ("argc", CType.c_uint)
    ∷ ("argv", CType.pointer)
    ∷ ("error", riscv_error_func)
    ∷ ("stdout", riscv_stdout_func)
    ∷ ("opaque", CType.pointer)
    ∷ ("use_memory_arena", CType.c_int)
    ∷ ("use_shared_execute_segments", CType.c_int)
    ∷ ("default_exit_function", CType.pointer)
    ∷ ("load_program", CType.c_int)
    ∷ ("protect_segments", CType.c_int)
    ∷ ("native_syscall_base", CType.c_uint)
    ∷ ("arena_size", CType.u64)
    ∷ [])

abbrev pub riscv_options_assertions : Assertions
riscv_options_assertions = record {
  size = 96;
  align = 8;
  offsets =
      ("max_memory", 0)
      ∷ ("stack_size", 8)
      ∷ ("strict_sandbox", 12)
      ∷ ("argc", 16)
      ∷ ("argv", 24)
      ∷ ("error", 32)
      ∷ ("stdout", 40)
      ∷ ("opaque", 48)
      ∷ ("use_memory_arena", 56)
      ∷ ("use_shared_execute_segments", 60)
      ∷ ("default_exit_function", 64)
      ∷ ("load_program", 72)
      ∷ ("protect_segments", 76)
      ∷ ("native_syscall_base", 80)
      ∷ ("arena_size", 88)
      ∷ [];
}

abbrev pub riscv_float : CType
riscv_float = union_of (("f32_", CType.array CType.f32 2) ∷ ("f64_", CType.f64) ∷ [])

abbrev pub riscv_float_assertions : Assertions
riscv_float_assertions = record { size = 8; align = 8; offsets = ("f32_", 0) ∷ ("f64_", 0) ∷ [] }

abbrev pub riscv_registers : CType
riscv_registers = struct_of (
    ("r", (CType.array CType.u64 32))
    ∷ ("pc", CType.u64)
    ∷ ("fcsr", CType.u32)
    ∷ ("fr", (CType.array riscv_float 32))
    ∷ [])

abbrev pub riscv_registers_assertions : Assertions
riscv_registers_assertions = record {
  size = 528;
  align = 8;
  offsets = ("r", 0) ∷ ("pc", 256) ∷ ("fcsr", 264) ∷ ("fr", 272) ∷ [];
}

abbrev pub riscv_page_attributes : CType
riscv_page_attributes = struct_of (
    ("read", CType.c_int)
    ∷ ("write", CType.c_int)
    ∷ ("exec", CType.c_int)
    ∷ ("is_cow", CType.c_int)
    ∷ ("non_owning", CType.c_int)
    ∷ ("dont_fork", CType.c_int)
    ∷ ("user_defined", CType.u8)
    ∷ [])

-- Of the sizes and the alignment alone.
abbrev pub riscv_page_attributes_assertions : Assertions
riscv_page_attributes_assertions = record { size = 28; align = 4; offsets = [] }

abbrev pub riscv_realloc_result : CType
riscv_realloc_result = struct_of (("ptr", CType.u64) ∷ ("old_size", CType.u64) ∷ [])

abbrev pub riscv_realloc_result_assertions : Assertions
riscv_realloc_result_assertions = record { size = 16; align = 8; offsets = [] }

-- The constants of the file compile.
unfoldable pub bindings_compile : Target → Bool
unfolding compiles
bindings_compile t =
    compiles t riscv_options riscv_options_assertions
    && compiles t riscv_float riscv_float_assertions
    && compiles t riscv_registers riscv_registers_assertions
    && compiles t riscv_page_attributes riscv_page_attributes_assertions
    && compiles t riscv_realloc_result riscv_realloc_result_assertions
