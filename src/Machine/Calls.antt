-- ===== src/Machine/Calls.antt =====
-- src/lib.rs: the calls that a program makes on a machine that it owns, as data: every method of
-- `Machine` but `fast_fork`, which makes another machine.
use libriscv_rust_binding.Common.{ℕ, ℤ, Bool, List}
use libriscv_rust_binding.Slice.{Slice}
use libriscv_rust_binding.Sys.{Host, Sys}
use libriscv_rust_binding.Pages.{PageAttributes}
use libriscv_rust_binding.Machine
use libriscv_rust_binding.Machine.{Machine}
use libriscv_rust_binding.Machine.Guest
use libriscv_rust_binding.Machine.Arena

pub data Call : Type 0 where
  run : (instruction_limit : ℕ) → Call
  step : (verbose : Bool) → Call
  stop : Call
  allow_file : (path : List ℕ) → Call
  return_value : Call
  set_result : (value : ℤ) → Call
  address_of : (name : List ℕ) → Call
  opaque : Call
  instruction_counter : Call
  max_instruction_counter : Call
  instruction_limit_reached : Call
  is_forked : Call
  parent_page : (page_number : ℕ) → Call
  setup_linux_syscalls : (filesystem sockets : Bool) → Call
  setup_posix_threads : Call
  jump : (address : ℕ) → Call
  setup_vmcall : (address : ℕ) → Call
  registers : Call
  trigger_exception : (exception value : ℕ) → Call
  insert_non_owned_memory : (destination source size : ℕ) → PageAttributes → Call
  copy_to_guest : (dst : ℕ) → Slice → Call
  copy_from_guest : (src : ℕ) → Slice → Call
  read_memory : (src len : ℕ) → Call
  write_memory : (dst : ℕ) → Slice → Call
  memstring : (src maxlen : ℕ) → Call
  setup_arena : (syscall_base address size : ℕ) → Call
  has_arena : Call
  arena_malloc : (size : ℕ) → Call
  arena_free : (address : ℕ) → Call
  arena_realloc : (address new_size : ℕ) → Call
  arena_allocation_size : (address : ℕ) → Call
  arena_high_watermark : Call
  set_arena_unknown_free_handler : (handler user : ℕ) → Call
  set_arena_unknown_realloc_handler : (handler user : ℕ) → Call
  transfer_arena_from : (source : Machine) → Call
  heap_address : Call
  mmap_allocate : (bytes : ℕ) → Call
  initial_stack_pointer : Call
  owned_pages_active : Call

-- What the call leaves of the host; its result goes to the program.
unfoldable pub perform : {F : Type 0} → Sys F → Machine → Call → Host F → Host F
perform sys self (Call.run instruction_limit) h = (Machine.run sys self instruction_limit h).1
perform sys self (Call.step verbose) h = (Machine.step sys self verbose h).1
perform sys self Call.stop h = (Machine.stop sys self h).1
perform sys self (Call.allow_file path) h = (Machine.allow_file sys self path h).1
perform sys self Call.return_value h = (Machine.return_value sys self h).1
perform sys self (Call.set_result value) h = (Machine.set_result sys self value h).1
perform sys self (Call.address_of name) h = (Machine.address_of sys self name h).1
perform sys self Call.opaque h = (Machine.opaque sys self h).1
perform sys self Call.instruction_counter h = (Machine.instruction_counter sys self h).1
perform sys self Call.max_instruction_counter h = (Machine.max_instruction_counter sys self h).1
perform sys self Call.instruction_limit_reached h = (Machine.instruction_limit_reached sys self h).1
perform sys self Call.is_forked h = (Machine.is_forked sys self h).1
perform sys self (Call.parent_page page_number) h = (Machine.parent_page sys self page_number h).1
perform sys self (Call.setup_linux_syscalls filesystem sockets) h =
    (Machine.setup_linux_syscalls sys self filesystem sockets h).1
perform sys self Call.setup_posix_threads h = (Machine.setup_posix_threads sys self h).1
perform sys self (Call.jump address) h = (Machine.jump sys self address h).1
perform sys self (Call.setup_vmcall address) h = (Machine.setup_vmcall sys self address h).1
perform sys self Call.registers h = (Machine.registers sys self h).1
perform sys self (Call.trigger_exception exception value) h =
    (Machine.trigger_exception sys self exception value h).1
perform sys self (Call.insert_non_owned_memory destination source size attributes) h =
    (Guest.insert_non_owned_memory sys self destination source size attributes h).1
perform sys self (Call.copy_to_guest dst slice) h = (Guest.copy_to_guest sys self dst slice h).1
perform sys self (Call.copy_from_guest src slice) h = (Guest.copy_from_guest sys self src slice h).1
perform sys self (Call.read_memory src len) h = (Guest.read_memory sys self src len h).1
perform sys self (Call.write_memory dst slice) h = (Guest.write_memory sys self dst slice h).1
perform sys self (Call.memstring src maxlen) h = (Guest.memstring sys self src maxlen h).1
perform sys self (Call.setup_arena syscall_base address size) h =
    (Arena.setup_arena sys self syscall_base address size h).1
perform sys self Call.has_arena h = (Arena.has_arena sys self h).1
perform sys self (Call.arena_malloc size) h = (Arena.arena_malloc sys self size h).1
perform sys self (Call.arena_free address) h = (Arena.arena_free sys self address h).1
perform sys self (Call.arena_realloc address new_size) h =
    (Arena.arena_realloc sys self address new_size h).1
perform sys self (Call.arena_allocation_size address) h =
    (Arena.arena_allocation_size sys self address h).1
perform sys self Call.arena_high_watermark h = (Arena.arena_high_watermark sys self h).1
perform sys self (Call.set_arena_unknown_free_handler handler user) h =
    (Arena.set_arena_unknown_free_handler sys self handler user h).1
perform sys self (Call.set_arena_unknown_realloc_handler handler user) h =
    (Arena.set_arena_unknown_realloc_handler sys self handler user h).1
perform sys self (Call.transfer_arena_from source) h =
    (Arena.transfer_arena_from sys self source h).1
perform sys self Call.heap_address h = (Arena.heap_address sys self h).1
perform sys self (Call.mmap_allocate bytes) h = (Arena.mmap_allocate sys self bytes h).1
perform sys self Call.initial_stack_pointer h = (Arena.initial_stack_pointer sys self h).1
perform sys self Call.owned_pages_active h = (Arena.owned_pages_active sys self h).1
