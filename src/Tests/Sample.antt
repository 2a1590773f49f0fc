-- ===== src/Tests/Sample.antt =====
-- Inputs for the theorems.
use libriscv_rust_binding.Common.{
  ℕ, ◌+◌, ◌*◌, ◌/◌, ◌%◌, ◌^◌, ltb, true, false, none, some, List, [], ◌∷◌, String, ok, refl,
  if◌then◌else◌, replicate, arith, str_eq,
}
use libriscv_rust_binding.Examples.Handlers.{Float32}
use libriscv_rust_binding.Memory.{Memory, write_cells}
use libriscv_rust_binding.Memory.Strings.{HoldsString}
use libriscv_rust_binding.Slice.{Slice}
use libriscv_rust_binding.Sys.{Host}
use libriscv_rust_binding.Options.{Options, OptionsBuilder, zeroed, keepalive_empty}
use libriscv_rust_binding.Pages.{PageAttributes}
use libriscv_rust_binding.Machine.{Machine, empty_elf}
use libriscv_rust_binding.Macros.Syntax.{
  RustType, Arguments, Segments, Block, FnArg, ItemFn, Lit, Expr, Meta, Item,
}
use libriscv_rust_binding.Macros.Registry.{Registration}
use libriscv_rust_binding.Tests.Toy.{Toy}

-- A host's memory that holds the C string "bad" at 1, and register files of zeros.
abbrev pub sample_memory : Memory
sample_memory = record {
  byte = write_cells 1 (λ _. 0) 1 (98 ∷ 97 ∷ 100 ∷ 0 ∷ []);
  word = λ _. 0;
  registers = λ _. record { r = replicate 32 0; pc = 0; fcsr = 0; fr = replicate 32 0 };
  limit = 5;
}

pub bad-HoldsString : HoldsString sample_memory 1 (98 ∷ 97 ∷ 100 ∷ [])
bad-HoldsString = record {
  no_nul = refl;
  nonnull = omega arith;
  inside = omega arith;
  content = (refl, (refl, (refl, (refl, tt))));
}

abbrev pub sample_host : Host Toy
sample_host = record {
  memory = sample_memory;
  foreign = record { handlers = λ _. none; byte = λ _. 0; machines = λ _. false; next = 400 };
}

abbrev pub sample_options : Options
sample_options = record { raw = zeroed; keepalive = keepalive_empty }

abbrev pub sample_machine : Machine
sample_machine = record { ptr = 400; elf = empty_elf; options = sample_options }

-- The bytes of "bad", as a slice.
abbrev pub sample_slice : Slice
sample_slice = record { address = 1; len = 3 }

-- Arguments "hi" and "j", and the exit function "x".
abbrev pub sample_builder : OptionsBuilder
sample_builder = record {
  raw = zeroed;
  args = (104 ∷ 105 ∷ []) ∷ (106 ∷ []) ∷ [];
  default_exit_function = some (120 ∷ []);
}

abbrev pub sample_page : PageAttributes
sample_page = record {
  read = true;
  write = false;
  execute = true;
  copy_on_write = false;
  non_owning = true;
  dont_fork = false;
  user_defined = 9;
}

-- `id = n`
abbrev pub sample_meta : ℕ → Meta
sample_meta n = Meta.name_value ("id" ∷ []) (Expr.lit (Lit.int n))

abbrev pub sample_segments : Segments
sample_segments =
    Segments.segment "libriscv" Arguments.no_arguments
      (Segments.segment "SyscallContext" Arguments.no_arguments Segments.end)

-- `#[syscall(id = n)] fn name(ctx: &mut libriscv::SyscallContext)`.
abbrev pub sample_function : String → ℕ → ItemFn
sample_function name n = record {
  name = name;
  attrs = record { path = "syscall" ∷ []; args = ok (sample_meta n) } ∷ [];
  is_async = false;
  is_unsafe = false;
  generics = 0;
  is_variadic = false;
  inputs = FnArg.typed (RustType.reference true (RustType.path sample_segments)) ∷ [];
  output = none;
  block = Block.source 0;
}

abbrev pub sample_items : List Item
sample_items =
    Item.function (sample_function "alpha" 500)
    ∷ Item.other
    ∷ Item.function (sample_function "beta" 501)
    ∷ []

abbrev pub sample_registrations : List Registration
sample_registrations =
    record { id = 500; handler_name = "alpha_handler" }
    ∷ record { id = 501; handler_name = "beta_handler" }
    ∷ []

-- The addresses of the trampolines.
abbrev pub sample_resolve : String → ℕ
sample_resolve name = if str_eq name "alpha_handler" then 1000 else 2000

-- Integers in the place of floating-point numbers.
abbrev pub integers : Float32
integers = record {
  one = 1;
  add = λ a b. (a + b) % 2 ^ 32;
  mul = λ a b. a * b % 2 ^ 32;
  div = λ a b. a / b;
  sqrt = λ a. a;
  is_positive = λ a. ltb 0 a;
}
