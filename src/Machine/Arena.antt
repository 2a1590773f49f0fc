-- ===== src/Machine/Arena.antt =====
-- src/lib.rs: the arena, heap and page methods of `Machine`.
use libriscv_rust_binding.Common.{ℕ, Bool, not, Option, is_zero, some}
use libriscv_rust_binding.Slice.{nonzero}
use libriscv_rust_binding.Sys.{Host, Ffi, Sys}
use libriscv_rust_binding.Error.Action.{Action, call, ◌>>=◌}
use libriscv_rust_binding.Error.Check.{check_code}
use libriscv_rust_binding.Machine.{Machine}

pub record ArenaReallocResult : Type 0 where
  pub address : Option ℕ
  pub old_size : ℕ

module _ {F : Type 0} (sys : Sys F) (self : Machine) where
  unfoldable pub setup_arena : (syscall_base address size : ℕ) → Action (Host F) (Unit {0})
  unfolding check_code
  setup_arena syscall_base address size = do
    code ← call (sys.libriscv_setup_arena self.ptr syscall_base address size)
    check_code sys "libriscv_setup_arena" code

  unfoldable pub has_arena : Ffi F Bool
  has_arena h = let (z, h') = sys.libriscv_has_arena self.ptr h in (not (is_zero z), h')

  unfoldable pub arena_malloc : ℕ → Ffi F (Option ℕ)
  arena_malloc size h =
      let (address, h') = sys.libriscv_arena_malloc self.ptr size h in (nonzero address, h')

  unfoldable pub arena_free : ℕ → Action (Host F) (Unit {0})
  unfolding check_code
  arena_free address = do
    code ← call (sys.libriscv_arena_free self.ptr address)
    check_code sys "libriscv_arena_free" code

  unfoldable pub arena_realloc : (address new_size : ℕ) → Ffi F ArenaReallocResult
  arena_realloc address new_size h =
      let (result, h') = sys.libriscv_arena_realloc self.ptr address new_size h in
      (record { address = nonzero result.ptr; old_size = result.old_size }, h')

  unfoldable pub arena_allocation_size : ℕ → Ffi F ℕ
  arena_allocation_size address = sys.libriscv_arena_size self.ptr address

  unfoldable pub arena_high_watermark : Ffi F ℕ
  arena_high_watermark = sys.libriscv_arena_high_watermark self.ptr

  unfoldable pub set_arena_unknown_free_handler : (handler user : ℕ) → Ffi F (Unit {0})
  set_arena_unknown_free_handler handler user =
      sys.libriscv_arena_set_unknown_free self.ptr (some handler) user

  unfoldable pub set_arena_unknown_realloc_handler : (handler user : ℕ) → Ffi F (Unit {0})
  set_arena_unknown_realloc_handler handler user =
      sys.libriscv_arena_set_unknown_realloc self.ptr (some handler) user

  unfoldable pub transfer_arena_from : Machine → Action (Host F) (Unit {0})
  unfolding check_code
  transfer_arena_from source = do
    code ← call (sys.libriscv_transfer_arena self.ptr source.ptr)
    check_code sys "libriscv_transfer_arena" code

  unfoldable pub heap_address : Ffi F ℕ
  heap_address = sys.libriscv_heap_address self.ptr

  unfoldable pub mmap_allocate : ℕ → Ffi F (Option ℕ)
  mmap_allocate bytes h =
      let (address, h') = sys.libriscv_mmap_allocate self.ptr bytes h in (nonzero address, h')

  unfoldable pub initial_stack_pointer : Ffi F ℕ
  initial_stack_pointer = sys.libriscv_stack_initial self.ptr

  unfoldable pub owned_pages_active : Ffi F ℕ
  owned_pages_active = sys.libriscv_owned_pages_active self.ptr
