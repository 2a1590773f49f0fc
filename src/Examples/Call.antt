-- ===== src/Examples/Call.antt =====
-- examples/vmcall.rs and examples/advanced_syscalls.rs: what both do before they run a guest function
-- on a text that they put on its stack.
pub mod Passes
pub mod Says
use libriscv_rust_binding.Common.{
  ℕ, ◌+◌, ◌%◌, ◌^◌, ◌≤◌, ◌<◌, ◌≡◌, refl, sym, ap, ◌∙◌, subst, false, List, length, ok, arith, ltb,
  pos, u32_max, get_or, set,
}
use libriscv_rust_binding.Raw.{IsWhole}
use libriscv_rust_binding.Memory.{
  Memory, alloc_bytes, read_bytes, read_cells, write_cells, Holds, Holds-congr, write_cells-Holds,
  read_cells-Holds,
}
use libriscv_rust_binding.Slice.{Slice, nonnull-positive}
use libriscv_rust_binding.Sys.{Host, Sys}
use libriscv_rust_binding.Error.Action.{Action, pure, call, on_memory, ◌>>=◌, ◌>>◌}
use libriscv_rust_binding.Error.Check.{check_code}
use libriscv_rust_binding.Machine.{Machine, registers, setup_vmcall}
use libriscv_rust_binding.Machine.Guest.{copy_to_guest}
use libriscv_rust_binding.Machine.Guest.RoundTrip.{GuestMemory}
use libriscv_rust_binding.Registers.{x, set_x}
use libriscv_rust_binding.Registers.Laws.{x-set_x, writes-IsWhole}
use libriscv_rust_binding.Examples.Stack.{reserve_stack}

-- A byte string of the program: it stands in the memory.
unfoldable pub literal : List ℕ → Memory → Slice × Memory
unfolding alloc_bytes
literal bs m = let (p, m') = alloc_bytes bs m in (record { address = p; len = length bs }, m')

module _ {F : Type 0} (sys : Sys F) (machine : Machine) where
  -- The text goes below the guest's stack pointer, and its address is the function's argument.
  unfoldable pub pass_text : (msg : Slice) → Action (Host F) (Unit {0})
  pass_text msg = do
    regs ← registers sys machine
    str_addr ← on_memory (reserve_stack regs msg.len)
    copy_to_guest sys machine str_addr msg
    regs ← registers sys machine
    on_memory (set_x regs 10 str_addr)

  unfoldable pub prepare_call : (addr : ℕ) → (text : List ℕ) → Action (Host F) (Unit {0})
  unfolding literal pass_text
  prepare_call addr text = do
    setup_vmcall sys machine addr
    msg ← on_memory (call (literal text))
    pass_text msg
