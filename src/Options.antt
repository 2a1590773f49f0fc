-- ===== src/Options.antt =====
-- src/lib.rs: `Options`, `OptionsBuilder` and `OptionsKeepAlive`. A Rust string is the list of its
-- bytes. `build` allocates in the host's memory and does not call the C library.
pub mod Argv
pub mod Build
pub mod Chains
pub mod Orders
pub mod Owned
pub mod Setters
use libriscv_rust_binding.Common.{
  ℕ, ◌%◌, ◌^◌, ℤ, pos, Bool, Option, none, some, List, [], ◌∷◌, map, Result, ok, err, ltb, ◌==◌,
  if◌then◌else◌, from_bool, length, u32_max,
}
use libriscv_rust_binding.Raw.{RiscvOptions, null}
use libriscv_rust_binding.Memory.{Memory, alloc_words}
use libriscv_rust_binding.Memory.Strings.{CString, cstring_new}
use libriscv_rust_binding.Sys.{Sys, Ffi}
use libriscv_rust_binding.Error.{Error}
use libriscv_rust_binding.Error.Action.{Action, pure, fail, call, ◌>>=◌}

-- `Vec<*const c_char>`.
pub record PointerVec : Type 0 where
  pub items : List ℕ
  pub address : ℕ

pub record OptionsKeepAlive : Type 0 where
  pub args : List CString
  pub argv_ptrs : PointerVec
  pub default_exit_function : Option CString

pub record Options : Type 0 where
  pub raw : RiscvOptions
  pub keepalive : OptionsKeepAlive

pub record OptionsBuilder : Type 0 where
  pub raw : RiscvOptions
  pub args : List (List ℕ)
  pub default_exit_function : Option (List ℕ)

-- `MaybeUninit::<RISCVOptions>::zeroed()`.
abbrev pub zeroed : RiscvOptions
zeroed = record {
  max_memory = 0;
  stack_size = 0;
  strict_sandbox = pos 0;
  argc = 0;
  argv = null;
  error = none;
  stdout = none;
  opaque = null;
  use_memory_arena = pos 0;
  use_shared_execute_segments = pos 0;
  default_exit_function = null;
  load_program = pos 0;
  protect_segments = pos 0;
  native_syscall_base = 0;
  arena_size = 0;
}

-- A `Vec` with no element has no block: its address is that of its alignment.
abbrev pub empty_vec : PointerVec
empty_vec = record { items = []; address = 8 }

-- `OptionsKeepAlive::empty`.
abbrev pub keepalive_empty : OptionsKeepAlive
keepalive_empty = record { args = []; argv_ptrs = empty_vec; default_exit_function = none }

module _ {F : Type 0} (sys : Sys F) where
  unfoldable pub default_raw_options : Ffi F RiscvOptions
  default_raw_options h =
      let (raw, h') = sys.libriscv_set_defaults zeroed h in
      (record raw { argc = 0; argv = null; error = none; stdout = none; opaque = null }, h')

  -- `Options::new`, which is also `Options::default`.
  unfoldable pub new : Ffi F Options
  unfolding default_raw_options
  new h =
      let (raw, h') = default_raw_options h in
      (record { raw = raw; keepalive = keepalive_empty }, h')

  -- `OptionsBuilder::new`, which is also `Options::builder`.
  unfoldable pub builder : Ffi F OptionsBuilder
  unfolding default_raw_options
  builder h =
      let (raw, h') = default_raw_options h in
      (record { raw = raw; args = []; default_exit_function = none }, h')

-- `CString::new(bytes)?`.
unfoldable pub cstring : List ℕ → Action Memory CString
unfolding cstring_new
cstring bs m =
    let (r, m') = cstring_new bs m in (elim r [ ok s ↦ ok s | err e ↦ err (Error.nul_error e) ], m')

-- `strings.into_iter().map(CString::new).collect::<Result<Vec<_>, _>>()?`, which stops at the
-- first error.
unfoldable pub cstrings : List (List ℕ) → Action Memory (List CString)
cstrings [] = pure []
cstrings (a ∷ rest) = do s ← cstring a; others ← cstrings rest; pure (s ∷ others)

-- `string.map(CString::new).transpose()?`.
unfoldable pub optional_cstring : Option (List ℕ) → Action Memory (Option CString)
optional_cstring none = pure none
optional_cstring (some a) = do s ← cstring a; pure (some s)

-- `args.iter().map(|arg| arg.as_ptr()).collect()`.
unfoldable pub pointers : List CString → Memory → PointerVec × Memory
pointers [] m = (empty_vec, m)
pointers (s ∷ rest) m =
    let items = map (λ (c : CString). c.address) (s ∷ rest) in
    let (p, m') = alloc_words items m in (record { items = items; address = p }, m')

-- The pointer to a vector's block: null if the vector is empty.
abbrev pub argv_pointer : (items : List ℕ) → (address : ℕ) → ℕ
argv_pointer [] address = null
argv_pointer (_ ∷ _) address = address

-- `symbol.map_or(ptr::null(), |symbol| symbol.as_ptr())`.
abbrev pub symbol_pointer : Option CString → ℕ
symbol_pointer none = null
symbol_pointer (some symbol) = symbol.address

-- What `build` puts into the raw options from the strings that it keeps.
unfoldable pub finish : RiscvOptions → OptionsKeepAlive → Options
finish raw keepalive = record {
  raw = record raw {
    argc = length keepalive.argv_ptrs.items % 2 ^ 32;
    argv = argv_pointer keepalive.argv_ptrs.items keepalive.argv_ptrs.address;
    default_exit_function = symbol_pointer keepalive.default_exit_function;
  };
  keepalive = keepalive;
}

-- `OptionsBuilder::build`.
unfoldable pub build : OptionsBuilder → Action Memory Options
unfolding finish
build b =
    let args_len = length b.args in
    if ltb u32_max args_len then fail (Error.args_too_large args_len) else (do
      args ← cstrings b.args
      argv_ptrs ← call (pointers args)
      exit ← optional_cstring b.default_exit_function
      pure (
          finish b.raw
            (record { args = args; argv_ptrs = argv_ptrs; default_exit_function = exit })))
