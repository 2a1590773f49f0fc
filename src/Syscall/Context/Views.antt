-- ===== src/Syscall/Context/Views.antt =====
-- src/syscall.rs: writes to the guest through a handler's context, followed by reads.
use libriscv_rust_binding.Common.{
  ℕ, ◌%◌, ◌^◌, ◌≤◌, ◌<◌, ◌≡◌, refl, ap, ◌∙◌, false, List, ok, arith, ltb, ◌==◌, u32_max, length,
  inl, inr, Bool-cases,
}
use libriscv_rust_binding.Memory.{Memory, write_bytes, write_cells-Holds, read_cells-Holds}
use libriscv_rust_binding.Slice.{
  Slice, contents, copy_from_slice, contents-copy_from_slice, nonnull-positive,
}
use libriscv_rust_binding.Sys.{Host, Sys}
use libriscv_rust_binding.Error.Action.{◌>>◌}
use libriscv_rust_binding.Syscall.Context.{
  SyscallContext, memview, writable_memview, read, write, read_pod, write_pod,
}

-- What the wrapper relies on: a range that is writable has a view at an address that is not null;
-- asking for it leaves the host's memory as it is, and from then on a view of the same range to read
-- from is at the same address.
pub record WritableViews {F : Type 0} (sys : Sys F) (machine : ℕ) : Type 1 where
  pub IsWritable : F → ℕ → ℕ → Type 0
  pub view :
      (src len : ℕ) (h : Host F)
      → IsWritable h.foreign src len
      → let (p, h') = sys.libriscv_writable_memview machine src len h in
        (0 < p)
        × (h'.memory ≡ h.memory)
        × ((m : Memory)
            → sys.libriscv_memview machine src len (record h' { memory = m })
              ≡ (p, record h' { memory = m }))

module _ {F : Type 0} (sys : Sys F) (self : SyscallContext) where
  pub writable_memview-at :
      (src len : ℕ) (h : Host F)
      → len ≤ u32_max
      → let (p, h') = sys.libriscv_writable_memview self.machine src len h in
        0 < p → writable_memview sys self src len h ≡ (ok (record { address = p; len = len }), h')
  unfolding writable_memview
  writable_memview-at src len h small present =
      let test : ltb u32_max len ≡ false = ground arith in
      let fits : len % 2 ^ 32 ≡ len = omega arith in
      rw (test, fits, nonnull-positive "libriscv_writable_memview" _ present) refl

  pub memview-at :
      (src len p : ℕ) (h : Host F)
      → len ≤ u32_max
      → 0 < p
      → sys.libriscv_memview self.machine src len h ≡ (p, h)
      → memview sys self src len h ≡ (ok (record { address = p; len = len }), h)
  unfolding memview
  memview-at src len p h small present answer =
      let test : ltb u32_max len ≡ false = ground arith in
      let fits : len % 2 ^ 32 ≡ len = omega arith in
      rw (test, fits, answer, nonnull-positive "libriscv_memview" p present) refl

module _ {F : Type 0} (sys : Sys F) (self : SyscallContext)
    (v : WritableViews sys self.machine) where
  -- `write` of a slice of at most `u32::MAX` bytes to a range, and then `read` of that range into
  -- a slice of the same length, both succeed; the second slice has then the bytes that the first
  -- one had. The range is writable, which an empty slice, for which there is no view, does not
  -- need.
  pub read-write :
      (dst : ℕ) (given into : Slice) (h : Host F)
      → given.len ≤ u32_max
      → into.len ≡ given.len
      → (0 < given.len → v.IsWritable h.foreign dst given.len)
      → let (result, h') = (write sys self dst given >> read sys self dst into) h in
        (result ≡ ok tt) × (contents h'.memory into ≡ contents h.memory given)
  unfolding write read
  read-write dst given into h small same writable = elim (Bool-cases (given.len == 0)) [
    | inl empty ↦
        let none : into.len ≡ 0 = ground arith in
        let none' : given.len ≡ 0 = ground arith in rw (none, none') (refl, refl)
    | inr full ↦
        let (present, kept, stays) = v.view dst given.len h (writable (ground (arith, full))) in
        let (p, h') = sys.libriscv_writable_memview self.machine dst given.len h in
        let view : Slice = record { address = p; len = given.len } in
        let m : Memory = copy_from_slice view given h'.memory in
        let again = memview-at sys self dst given.len p _ small present (stays m) in
        rw (same, full, writable_memview-at sys self dst given.len h small present, again)
          (
            refl,
            contents-copy_from_slice (record { address = into.address; len = given.len }) view m
                  refl
                ∙ contents-copy_from_slice view given h'.memory refl
                ∙ ap (λ (n : Memory). contents n given) kept,
          )
  ]

  -- `write_pod` to a writable range succeeds, and what is read there afterwards is the value.
  pub write_pod-lands :
      (dst : ℕ) (value : List ℕ) (h : Host F)
      → length value ≤ u32_max
      → v.IsWritable h.foreign dst (length value)
      → let (result, h') = write_pod sys self dst value h in
        (result ≡ ok tt) × ((read_pod sys self (length value) dst h').0 ≡ ok value)
  unfolding write_pod read_pod
  write_pod-lands dst value h small writable =
      let (present, kept, stays) = v.view dst (length value) h writable in
      let (p, h') = sys.libriscv_writable_memview self.machine dst (length value) h in
      let m : Memory = write_bytes h'.memory p value in
      let again = memview-at sys self dst (length value) p _ small present (stays m) in
      let held = write_cells-Holds 1 h'.memory.byte p value (omega arith) in
      rw (writable_memview-at sys self dst (length value) h small present, again)
        (refl, ap ok (read_cells-Holds 1 m.byte p value held))

  -- `write_pod` of a value of at most `u32::MAX` bytes to a writable range, and then `read_pod` of a
  -- value of the same size there, both succeed, and the result is the value.
  pub read_pod-write_pod :
      (dst : ℕ) (value : List ℕ) (h : Host F)
      → length value ≤ u32_max
      → v.IsWritable h.foreign dst (length value)
      → ((write_pod sys self dst value >> read_pod sys self (length value) dst) h).0 ≡ ok value
  read_pod-write_pod dst value h small writable =
      let (result, landed) = write_pod-lands dst value h small writable in rw (result, landed)
