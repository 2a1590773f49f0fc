-- ===== src/Machine/Lifecycle/Performs.antt =====
-- src/lib.rs: what the methods of `Machine` leave of the machines that exist.
use libriscv_rust_binding.Common.{
  ℕ, ◌≡◌, Bool, none, some, List, ltb, u32_max, ◌%◌, ◌^◌, ◌==◌, if◌then◌else◌, from_bool,
  is_negative, is_positive, to_i32, to_u64, refl, ok, err,
}
use libriscv_rust_binding.Common.Utf8.{is_utf8}
use libriscv_rust_binding.Slice.{Slice, contents, nonnull}
use libriscv_rust_binding.Sys.{Host, Sys}
use libriscv_rust_binding.Error.Action.{pure, fail, attempt, call, on_memory}
use libriscv_rust_binding.Error.Check.{check_code}
use libriscv_rust_binding.Options.{cstring}
use libriscv_rust_binding.Pages
use libriscv_rust_binding.Pages.{PageAttributes}
use libriscv_rust_binding.Registers.{Registers}
use libriscv_rust_binding.Machine.{
  Machine, run, step, stop, allow_file, return_value, set_result, address_of, opaque,
  instruction_counter, max_instruction_counter, instruction_limit_reached, is_forked, parent_page,
  setup_linux_syscalls, setup_posix_threads, jump, setup_vmcall, registers, trigger_exception,
}
use libriscv_rust_binding.Machine.Arena.{
  setup_arena, has_arena, arena_malloc, arena_free, arena_realloc, arena_allocation_size,
  arena_high_watermark, set_arena_unknown_free_handler, set_arena_unknown_realloc_handler,
  transfer_arena_from, heap_address, mmap_allocate, initial_stack_pointer, owned_pages_active,
}
use libriscv_rust_binding.Machine.Guest.{
  zeroed_vec, is_unaligned, insert_non_owned_memory, copy_to_guest, copy_from_guest, read_memory,
  write_memory, memstring,
}
use libriscv_rust_binding.Machine.Calls.{Call, perform}
use libriscv_rust_binding.Machine.Lifecycle.{MachineTable}
use libriscv_rust_binding.Machine.Lifecycle.Keeps.{
  Keeps, OtherCalls, bind-Keeps, call-Keeps, pure-Keeps, on_memory-Keeps, checked-Keeps,
  answer-Keeps, branch-Keeps,
}

module _ {F : Type 0} (sys : Sys F) (t : MachineTable sys) (c : OtherCalls sys t)
    (self : Machine) where
  pub run-Keeps : (n : ℕ) → Keeps sys t (run sys self n)
  unfolding run
  run-Keeps n =
      checked-Keeps sys t "libriscv_run" (sys.libriscv_run self.ptr n) (c.run_keeps self.ptr n)

  pub setup_vmcall-Keeps : (addr : ℕ) → Keeps sys t (setup_vmcall sys self addr)
  unfolding setup_vmcall
  setup_vmcall-Keeps addr =
      checked-Keeps sys t "libriscv_setup_vmcall" (sys.libriscv_setup_vmcall self.ptr addr)
        (c.setup_vmcall_keeps self.ptr addr)

  pub return_value-Keeps : Keeps sys t (call (return_value sys self))
  unfolding return_value
  return_value-Keeps = call-Keeps sys t (return_value sys self) (c.return_value_keeps self.ptr)

  pub address_of-Keeps : (name : List ℕ) → Keeps sys t (address_of sys self name)
  unfolding address_of
  address_of-Keeps name =
      bind-Keeps sys t (on_memory (cstring name)) _ (on_memory-Keeps sys t (cstring name)) (λ s.
        pure-Keeps sys t (call (sys.libriscv_address_of self.ptr s.address))
          (λ addr. if addr == 0 then none else some addr)
          (call-Keeps sys t _ (c.address_of_keeps self.ptr s.address)))

  pub registers-Keeps : Keeps sys t (registers sys self)
  unfolding registers
  registers-Keeps =
      let wrap : ℕ → Registers = λ ptr. record { ptr = ptr } in
      bind-Keeps sys t (call (sys.libriscv_get_registers self.ptr)) _
        (call-Keeps sys t _ (c.get_registers_keeps self.ptr))
        (λ p.
          pure-Keeps sys t (attempt (nonnull "libriscv_get_registers" p)) wrap
            (answer-Keeps sys t (nonnull "libriscv_get_registers" p)))

  pub copy_to_guest-Keeps : (dst : ℕ) (src : Slice) → Keeps sys t (copy_to_guest sys self dst src)
  unfolding copy_to_guest
  copy_to_guest-Keeps dst src =
      branch-Keeps sys t (ltb u32_max src.len) (fail _) _ (answer-Keeps sys t (err _)) (
        checked-Keeps sys t "libriscv_copy_to_guest"
          (sys.libriscv_copy_to_guest self.ptr dst src.address (src.len % 2 ^ 32))
          (c.copy_to_guest_keeps self.ptr dst src.address (src.len % 2 ^ 32)))

  copy_from_guest-Keeps : (src : ℕ) (dst : Slice) → Keeps sys t (copy_from_guest sys self src dst)
  unfolding copy_from_guest
  copy_from_guest-Keeps src dst =
      branch-Keeps sys t (ltb u32_max dst.len) (fail _) _ (answer-Keeps sys t (err _)) (
        checked-Keeps sys t "libriscv_copy_from_guest"
          (sys.libriscv_copy_from_guest self.ptr dst.address src (dst.len % 2 ^ 32))
          (c.copy_from_guest_keeps self.ptr dst.address src (dst.len % 2 ^ 32)))

  insert_non_owned_memory-Keeps :
      (destination source size : ℕ) (attributes : PageAttributes)
      → Keeps sys t (insert_non_owned_memory sys self destination source size attributes)
  unfolding insert_non_owned_memory
  insert_non_owned_memory-Keeps destination source size attributes =
      branch-Keeps sys t (is_unaligned destination size) (fail _) _ (answer-Keeps sys t (err _)) (
        checked-Keeps sys t "libriscv_insert_non_owned_memory" _ (
          c.insert_non_owned_memory_keeps self.ptr destination source size
            (Pages.into_raw attributes)))

  read_memory-Keeps : (src len : ℕ) → Keeps sys t (read_memory sys self src len)
  unfolding read_memory
  read_memory-Keeps src len =
      branch-Keeps sys t (ltb u32_max len) (fail _) _ (answer-Keeps sys t (err _)) (
        bind-Keeps sys t (on_memory (call (zeroed_vec len))) _ (on_memory-Keeps sys t _) (λ buf.
          bind-Keeps sys t (copy_from_guest sys self src buf)
            (λ _. call (λ h. (contents h.memory buf, h))) (copy_from_guest-Keeps src buf)
            (λ _. record { keeps = λ h q. refl })))

  memstring-Keeps : (src maxlen : ℕ) → Keeps sys t (memstring sys self src maxlen)
  unfolding memstring
  memstring-Keeps src maxlen =
      bind-Keeps sys t (call (sys.libriscv_memstring self.ptr src maxlen 0)) _
        (call-Keeps sys t _ (c.memstring_keeps self.ptr src maxlen 0))
        (λ (p, len).
          bind-Keeps sys t (attempt (nonnull "libriscv_memstring" p))
            (λ ptr. call (λ h. (contents h.memory (record { address = ptr; len = len }), h)))
            (answer-Keeps sys t (nonnull "libriscv_memstring" p))
            (λ ptr. record { keeps = λ h q. refl }))

  allow_file-Keeps : (path : List ℕ) → Keeps sys t (allow_file sys self path)
  unfolding allow_file
  allow_file-Keeps path =
      branch-Keeps sys t (is_utf8 path) _ (fail _)
        (bind-Keeps sys t (on_memory (cstring path)) _ (on_memory-Keeps sys t (cstring path))
          (λ s. call-Keeps sys t _ (c.allow_file_keeps self.ptr s.address)))
        (answer-Keeps sys t (err _))

  step-Keeps : (verbose : Bool) → Keeps sys t (step sys self verbose)
  unfolding step check_code
  step-Keeps verbose =
      bind-Keeps sys t (call (sys.libriscv_step_one self.ptr (from_bool verbose))) _
        (call-Keeps sys t _ (c.step_one_keeps self.ptr (from_bool verbose)))
        (λ value.
          pure-Keeps sys t _ (λ _. if is_positive value then some (to_u64 value) else none)
            (branch-Keeps sys t (is_negative value)
              (check_code sys "libriscv_step_one" (to_i32 value)) (pure tt)
              (record { keeps = λ h q. refl }) (answer-Keeps sys t (ok tt))))

  -- No method but `fast_fork` makes or deletes a machine.
  pub perform-keeps :
      (call : Call) (h : Host F) (q : ℕ)
      → t.exists (perform sys self call h).foreign q ≡ t.exists h.foreign q
  unfolding perform stop return_value set_result opaque instruction_counter max_instruction_counter
      instruction_limit_reached is_forked parent_page setup_linux_syscalls setup_posix_threads jump
      trigger_exception write_memory setup_arena has_arena arena_malloc arena_free arena_realloc
      arena_allocation_size arena_high_watermark set_arena_unknown_free_handler
      set_arena_unknown_realloc_handler transfer_arena_from heap_address mmap_allocate
      initial_stack_pointer owned_pages_active
  perform-keeps (Call.run instruction_limit) h q = (run-Keeps instruction_limit).keeps h q
  perform-keeps (Call.step verbose) h q = (step-Keeps verbose).keeps h q
  perform-keeps Call.stop h q = (c.stop_keeps self.ptr).keeps h q
  perform-keeps (Call.allow_file path) h q = (allow_file-Keeps path).keeps h q
  perform-keeps Call.return_value h q = (c.return_value_keeps self.ptr).keeps h q
  perform-keeps (Call.set_result value) h q = (c.set_result_register_keeps self.ptr value).keeps h q
  perform-keeps (Call.address_of name) h q = (address_of-Keeps name).keeps h q
  perform-keeps Call.opaque h q = (c.opaque_keeps self.ptr).keeps h q
  perform-keeps Call.instruction_counter h q = (c.instruction_counter_keeps self.ptr).keeps h q
  perform-keeps Call.max_instruction_counter h q = (c.max_counter_pointer_keeps self.ptr).keeps h q
  perform-keeps Call.instruction_limit_reached h q =
      (c.instruction_limit_reached_keeps self.ptr).keeps h q
  perform-keeps Call.is_forked h q = (c.is_forked_keeps self.ptr).keeps h q
  perform-keeps (Call.parent_page page_number) h q =
      (c.get_parent_page_data_keeps self.ptr page_number).keeps h q
  perform-keeps (Call.setup_linux_syscalls filesystem sockets) h q =
      (checked-Keeps sys t "libriscv_setup_linux_syscalls"
          (sys.libriscv_setup_linux_syscalls self.ptr (from_bool filesystem) (from_bool sockets))
          (c.setup_linux_syscalls_keeps self.ptr (from_bool filesystem) (from_bool sockets))).keeps
        h q
  perform-keeps Call.setup_posix_threads h q =
      (checked-Keeps sys t "libriscv_setup_posix_threads"
          (sys.libriscv_setup_posix_threads self.ptr) (c.setup_posix_threads_keeps self.ptr)).keeps
        h q
  perform-keeps (Call.jump address) h q =
      (checked-Keeps sys t "libriscv_jump" (sys.libriscv_jump self.ptr address)
          (c.jump_keeps self.ptr address)).keeps
        h q
  perform-keeps (Call.setup_vmcall address) h q = (setup_vmcall-Keeps address).keeps h q
  perform-keeps Call.registers h q = registers-Keeps.keeps h q
  perform-keeps (Call.trigger_exception exception value) h q =
      (c.trigger_exception_keeps self.ptr exception value).keeps h q
  perform-keeps (Call.insert_non_owned_memory destination source size attributes) h q =
      (insert_non_owned_memory-Keeps destination source size attributes).keeps h q
  perform-keeps (Call.copy_to_guest dst slice) h q = (copy_to_guest-Keeps dst slice).keeps h q
  perform-keeps (Call.copy_from_guest src slice) h q = (copy_from_guest-Keeps src slice).keeps h q
  perform-keeps (Call.read_memory src len) h q = (read_memory-Keeps src len).keeps h q
  perform-keeps (Call.write_memory dst slice) h q = (copy_to_guest-Keeps dst slice).keeps h q
  perform-keeps (Call.memstring src maxlen) h q = (memstring-Keeps src maxlen).keeps h q
  perform-keeps (Call.setup_arena syscall_base address size) h q =
      (checked-Keeps sys t "libriscv_setup_arena"
          (sys.libriscv_setup_arena self.ptr syscall_base address size)
          (c.setup_arena_keeps self.ptr syscall_base address size)).keeps
        h q
  perform-keeps Call.has_arena h q = (c.has_arena_keeps self.ptr).keeps h q
  perform-keeps (Call.arena_malloc size) h q = (c.arena_malloc_keeps self.ptr size).keeps h q
  perform-keeps (Call.arena_free address) h q =
      (checked-Keeps sys t "libriscv_arena_free" (sys.libriscv_arena_free self.ptr address)
          (c.arena_free_keeps self.ptr address)).keeps
        h q
  perform-keeps (Call.arena_realloc address new_size) h q =
      (c.arena_realloc_keeps self.ptr address new_size).keeps h q
  perform-keeps (Call.arena_allocation_size address) h q =
      (c.arena_size_keeps self.ptr address).keeps h q
  perform-keeps Call.arena_high_watermark h q = (c.arena_high_watermark_keeps self.ptr).keeps h q
  perform-keeps (Call.set_arena_unknown_free_handler handler user) h q =
      (c.arena_set_unknown_free_keeps self.ptr (some handler) user).keeps h q
  perform-keeps (Call.set_arena_unknown_realloc_handler handler user) h q =
      (c.arena_set_unknown_realloc_keeps self.ptr (some handler) user).keeps h q
  perform-keeps (Call.transfer_arena_from source) h q =
      (checked-Keeps sys t "libriscv_transfer_arena"
          (sys.libriscv_transfer_arena self.ptr source.ptr)
          (c.transfer_arena_keeps self.ptr source.ptr)).keeps
        h q
  perform-keeps Call.heap_address h q = (c.heap_address_keeps self.ptr).keeps h q
  perform-keeps (Call.mmap_allocate bytes) h q = (c.mmap_allocate_keeps self.ptr bytes).keeps h q
  perform-keeps Call.initial_stack_pointer h q = (c.stack_initial_keeps self.ptr).keeps h q
  perform-keeps Call.owned_pages_active h q = (c.owned_pages_active_keeps self.ptr).keeps h q
