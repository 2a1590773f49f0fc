-- ===== src/Machine/Guest/RoundTrip.antt =====
-- src/lib.rs: `Machine::write_memory` followed by `Machine::read_memory`.
use libriscv_rust_binding.Common.{
  ℕ, ◌%◌, ◌^◌, ◌≤◌, ◌≡◌, refl, sym, ap, ◌∙◌, false, List, ok, arith, ltb, pos, u32_max, length,
}
use libriscv_rust_binding.Memory.{
  Memory, alloc_bytes, read_bytes, write_bytes, read_cells, write_cells, Holds, Holds-congr,
  write_cells-Holds, read_cells-Holds, length-read_cells,
}
use libriscv_rust_binding.Slice.{Slice, contents}
use libriscv_rust_binding.Sys.{Host, Sys}
use libriscv_rust_binding.Error.Action.{◌>>◌}
use libriscv_rust_binding.Error.Check.{check_code}
use libriscv_rust_binding.Machine.{Machine}
use libriscv_rust_binding.Machine.Guest.{
  zeroed_vec, copy_from_guest, copy_to_guest, read_memory, write_memory,
}

-- What the wrapper relies on: the C library keeps a memory for each guest. In a range that is mapped
-- a copy succeeds and copies; a copy into the guest leaves the host's memory as it is, and a copy
-- out of it changes the destination alone.
pub record GuestMemory {F : Type 0} (sys : Sys F) (ptr : ℕ) : Type 1 where
  pub byte : F → ℕ → ℕ
  pub IsMapped : F → ℕ → ℕ → Type 0
  pub copy_to :
      (dst src len : ℕ) (h : Host F)
      → IsMapped h.foreign dst len
      → let (code, h') = sys.libriscv_copy_to_guest ptr dst src len h in
        (code ≡ pos 0)
        × (h'.memory ≡ h.memory)
        × IsMapped h'.foreign dst len
        × ((q : ℕ)
            → byte h'.foreign q
              ≡ write_cells 1 (byte h.foreign) dst (read_bytes h.memory src len) q)
  pub copy_from :
      (dst src len : ℕ) (h : Host F)
      → IsMapped h.foreign src len
      → sys.libriscv_copy_from_guest ptr dst src len h ≡ (
        pos 0,
        record h { memory = write_bytes h.memory dst (read_cells 1 (byte h.foreign) src len) },
      )

module _ {F : Type 0} (sys : Sys F) (self : Machine) (g : GuestMemory sys self.ptr) where
  copy_from_guest-mapped :
      (src : ℕ) (dst : Slice) (h : Host F)
      → dst.len ≤ u32_max
      → g.IsMapped h.foreign src dst.len
      → copy_from_guest sys self src dst h ≡ (
        ok tt,
        record h {
          memory = write_bytes h.memory dst.address (read_cells 1 (g.byte h.foreign) src dst.len);
        },
      )
  unfolding copy_from_guest check_code
  copy_from_guest-mapped src dst h small mapped =
      let test : ltb u32_max dst.len ≡ false = ground arith in
      let fits : dst.len % 2 ^ 32 ≡ dst.len = omega arith in
      rw (test, fits, g.copy_from dst.address src dst.len h mapped) refl

  -- `read_memory` of a mapped range of at most `u32::MAX` bytes returns the guest's bytes.
  pub read_memory-mapped :
      (src len : ℕ) (h : Host F)
      → len ≤ u32_max
      → g.IsMapped h.foreign src len
      → (read_memory sys self src len h).0 ≡ ok (read_cells 1 (g.byte h.foreign) src len)
  unfolding read_memory zeroed_vec alloc_bytes
  read_memory-mapped src len h small mapped =
      let test : ltb u32_max len ≡ false = ground arith in
      let (buf, m) = zeroed_vec len h.memory in
      let bs : List ℕ = read_cells 1 (g.byte h.foreign) src len in
      let n : length bs ≡ len = length-read_cells 1 (g.byte h.foreign) src len in
      let written : Memory = write_bytes m buf.address bs in
      let back : read_bytes written buf.address (length bs) ≡ bs =
        read_cells-Holds 1 written.byte buf.address bs
          (write_cells-Holds 1 m.byte buf.address bs (omega arith)) in
      rw (test, copy_from_guest-mapped src buf (record h { memory = m }) small mapped)
        (ap ok (ap (read_bytes written buf.address) (sym n) ∙ back))

  -- `write_memory` of a slice of at most `u32::MAX` bytes to a mapped range, and then `read_memory`
  -- of that range, both succeed, and the result is the slice's bytes.
  pub read_memory-write_memory :
      (dst : ℕ) (given : Slice) (h : Host F)
      → given.len ≤ u32_max
      → g.IsMapped h.foreign dst given.len
      → ((write_memory sys self dst given >> read_memory sys self dst given.len) h).0
        ≡ ok (contents h.memory given)
  unfolding write_memory copy_to_guest check_code
  read_memory-write_memory dst given h small mapped =
      let test : ltb u32_max given.len ≡ false = ground arith in
      let fits : given.len % 2 ^ 32 ≡ given.len = omega arith in
      let (code, _, still, bytes) = g.copy_to dst given.address given.len h mapped in
      let h' = (sys.libriscv_copy_to_guest self.ptr dst given.address given.len h).1 in
      let bs : List ℕ = contents h.memory given in
      let n : length bs ≡ given.len = length-read_cells 1 h.memory.byte given.address given.len in
      let held : Holds 1 (g.byte h'.foreign) dst bs =
        Holds-congr 1 _ (g.byte h'.foreign) dst bs (λ q lo hi. bytes q) (omega arith)
          (write_cells-Holds 1 (g.byte h.foreign) dst bs (omega arith)) in
      rw (test, fits, code)
        (read_memory-mapped dst given.len h' small still
          ∙ ap ok (
              ap (read_cells 1 (g.byte h'.foreign) dst) (sym n)
              ∙ read_cells-Holds 1 (g.byte h'.foreign) dst bs held))
