-- ===== src/Examples/Call/Passes.antt =====
-- examples/vmcall.rs and examples/advanced_syscalls.rs: what the guest function gets.
use libriscv_rust_binding.Common.{
  ℕ, ◌+◌, ◌%◌, ◌^◌, ◌≤◌, ◌<◌, ◌≡◌, refl, sym, ap, ◌∙◌, false, List, length, ok, arith, ltb, u32_max,
  bit_and,
}
use libriscv_rust_binding.Raw.{IsWhole}
use libriscv_rust_binding.Memory.{
  Memory, read_cells, Holds, Holds-congr, write_cells-Holds, read_cells-Holds, length-read_cells,
}
use libriscv_rust_binding.Slice.{Slice, contents, nonnull-positive}
use libriscv_rust_binding.Sys.{Host, Sys}
use libriscv_rust_binding.Error.Check.{check_code}
use libriscv_rust_binding.Machine.{Machine, registers}
use libriscv_rust_binding.Machine.Guest.{copy_to_guest}
use libriscv_rust_binding.Machine.Guest.RoundTrip.{GuestMemory}
use libriscv_rust_binding.Registers.{Registers, x, set_x}
use libriscv_rust_binding.Registers.Laws.{x-set_x, set_x-frame, writes-IsWhole}
use libriscv_rust_binding.Examples.Stack.{
  reserve_stack, reserve_stack-sets, wrapping_sub, not_15, aligned_lem,
}
use libriscv_rust_binding.Examples.Call.{pass_text}

-- What the programs rely on: a machine's register file stays at one address, and asking for it
-- changes nothing.
pub record RegisterFile {F : Type 0} (sys : Sys F) (machine : ℕ) : Type 0 where
  pub ptr : ℕ
  pub present : 0 < ptr
  pub found : (h : Host F) → sys.libriscv_get_registers machine h ≡ (ptr, h)

module _ {F : Type 0} (sys : Sys F) (machine : Machine) (g : GuestMemory sys machine.ptr) where
  -- A copy to a mapped range: the guest has the bytes.
  copy_to_guest-mapped :
      (dst : ℕ) (given : Slice) (h : Host F)
      → given.len ≤ u32_max
      → g.IsMapped h.foreign dst given.len
      → let (result, h') = copy_to_guest sys machine dst given h in
        (result ≡ ok tt)
        × (h'.memory ≡ h.memory)
        × (read_cells 1 (g.byte h'.foreign) dst given.len ≡ contents h.memory given)
  unfolding copy_to_guest check_code
  copy_to_guest-mapped dst given h small mapped =
      let test : ltb u32_max given.len ≡ false = ground arith in
      let fits : given.len % 2 ^ 32 ≡ given.len = omega arith in
      let (code, same, _, bytes) = g.copy_to dst given.address given.len h mapped in
      let h' = (sys.libriscv_copy_to_guest machine.ptr dst given.address given.len h).1 in
      let bs : List ℕ = contents h.memory given in
      let n : length bs ≡ given.len = length-read_cells 1 h.memory.byte given.address given.len in
      let held : Holds 1 (g.byte h'.foreign) dst bs =
        Holds-congr 1 _ (g.byte h'.foreign) dst bs (λ q lo hi. bytes q) (omega arith)
          (write_cells-Holds 1 (g.byte h.foreign) dst bs (omega arith)) in
      rw (test, fits, code)
        (
          refl,
          same,
          ap (read_cells 1 (g.byte h'.foreign) dst) (sym n)
              ∙ read_cells-Holds 1 (g.byte h'.foreign) dst bs held,
        )

  module _ (f : RegisterFile sys machine.ptr) where
    abbrev pub regs : Registers
    regs = record { ptr = f.ptr }

    registers-found : (h : Host F) → registers sys machine h ≡ (ok regs, h)
    unfolding registers
    registers-found h =
        rw (f.found h, nonnull-positive "libriscv_get_registers" f.ptr f.present) refl

    -- The state in which the text is on the stack, and how `pass_text` goes on from there.
    pass_text-goes_on :
        (sp a : ℕ) (msg : Slice) (h h' : Host F)
        → reserve_stack regs msg.len h.memory ≡ (ok a, (set_x regs 2 a h.memory).1)
        → copy_to_guest sys machine a msg (record h { memory = (set_x regs 2 a h.memory).1 })
          ≡ (ok tt, h')
        → pass_text sys machine msg h
          ≡ (ok tt, record h' { memory = (set_x regs 10 a h'.memory).1 })
    unfolding pass_text set_x
    pass_text-goes_on sp a msg h h' reserved copied =
        rw (registers-found h, reserved, copied, registers-found h') refl

    -- In a whole register file whose stack pointer is a `u64` with room for the text below it, and where
    -- the text, of at most `u32::MAX` bytes, lands in mapped memory, `pass_text` succeeds. The guest has
    -- the text at an address that is a multiple of 16, with all of it below the old stack pointer and
    -- fewer than 16 bytes left between the two; this address is the new stack pointer and, in
    -- register 10, the argument of the function.
    pub pass_text-passes :
        (sp : ℕ) (msg : Slice) (h : Host F)
        → IsWhole (h.memory.registers f.ptr)
        → (x regs 2 h.memory).0 ≡ ok sp
        → sp < 2 ^ 64
        → msg.len ≤ sp
        → msg.len ≤ u32_max
        → ((dst : ℕ)
            → dst + msg.len ≤ sp
            → sp < dst + msg.len + 16
            → g.IsMapped h.foreign dst msg.len)
        → let (result, h') = pass_text sys machine msg h in
          (str_addr : ℕ) × (result ≡ ok tt)
          × (str_addr % 16 ≡ 0)
          × (str_addr + msg.len ≤ sp)
          × (sp < str_addr + msg.len + 16)
          × ((x regs 2 h'.memory).0 ≡ ok str_addr)
          × ((x regs 10 h'.memory).0 ≡ ok str_addr)
          × (read_cells 1 (g.byte h'.foreign) str_addr msg.len ≡ contents h.memory msg)
    pass_text-passes sp msg h whole holds small room short mapped =
        let a : ℕ = bit_and (wrapping_sub sp (msg.len % 2 ^ 64)) not_15 in
        let (aligned, below, near) = aligned_lem sp msg.len small room in
        let m : Memory = (set_x regs 2 a h.memory).1 in
        let h' : Host F = (copy_to_guest sys machine a msg (record h { memory = m })).1 in
        let (copied, kept, text) =
          copy_to_guest-mapped a msg (record h { memory = m }) short (mapped a below near) in
        let done =
          pass_text-goes_on sp a msg h h' (reserve_stack-sets regs h.memory sp msg.len holds)
            (ap (λ r. (r, h')) copied) in
        let (whole', _, _, _, _) = writes-IsWhole regs h.memory whole 2 a in
        let (_, _, _, _, spared) = set_x-frame regs h.memory 2 0 a in
        let same = ap (λ (f : ℕ → ℕ). read_cells 1 f msg.address msg.len) spared.byte in
        rw (done, kept)
          (
            a,
            refl,
            aligned,
            below,
            near,
            x-set_x regs m whole' 10 2 a ∙ x-set_x regs h.memory whole 2 2 a,
            x-set_x regs m whole' 10 10 a,
            text ∙ same,
          )
