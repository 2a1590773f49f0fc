-- ===== src/Machine/Guest/Aligned.antt =====
-- src/lib.rs: when `Machine::insert_non_owned_memory` refuses a range.
use libriscv_rust_binding.Common.{
  ℕ, ◌%◌, ◌≡◌, ◌↔◌, ◌⊎◌, inl, inr, false, bit_and, bit_or, arith, Bool-cases, err,
}
use libriscv_rust_binding.Common.Bits.{bit_and-low_mask, bit_or-low_zero}
use libriscv_rust_binding.Raw.{page_size}
use libriscv_rust_binding.Sys.{Host, Sys}
use libriscv_rust_binding.Error.{Error}
use libriscv_rust_binding.Pages
use libriscv_rust_binding.Pages.{PageAttributes}
use libriscv_rust_binding.Error.Check.{check_code}
use libriscv_rust_binding.Machine.{Machine}
use libriscv_rust_binding.Machine.Guest.{is_unaligned, insert_non_owned_memory}

-- The mask test is false exactly when both numbers are multiples of the page size.
pub is_unaligned_iff :
    (destination size : ℕ)
    → (is_unaligned destination size ≡ false)
      ↔ ((destination % page_size ≡ 0) × (size % page_size ≡ 0))
unfolding is_unaligned
is_unaligned_iff destination size =
    let (into, back) = bit_or-low_zero 12 destination size in
    let mask : bit_and (bit_or destination size) 4095 ≡ bit_or destination size % 4096 =
      bit_and-low_mask 12 (bit_or destination size) in
    (λ h. into (ground (arith, mask, h)), λ h. ground (arith, mask, back h))

module _ {F : Type 0} (sys : Sys F) (self : Machine) where
  -- Either the address or the size of the range is not a multiple of 4096: then it is refused with
  -- an error that names both, and the C library is not called; or both are multiples: then the
  -- range goes to the C library once, as it is, and its code decides.
  pub insert_non_owned_memory-outcome :
      (destination source size : ℕ) (attributes : PageAttributes) (h : Host F)
      → let (code, h') =
          sys.libriscv_insert_non_owned_memory self.ptr destination source size
            (Pages.into_raw attributes)
            h in
        ((¬ ((destination % page_size ≡ 0) × (size % page_size ≡ 0)))
          × (insert_non_owned_memory sys self destination source size attributes h
              ≡ (err (Error.unaligned_page_range destination size), h)))
        ⊎ ((destination % page_size ≡ 0)
            × (size % page_size ≡ 0)
            × (insert_non_owned_memory sys self destination source size attributes h
                ≡ check_code sys "libriscv_insert_non_owned_memory" code h'))
  unfolding insert_non_owned_memory
  insert_non_owned_memory-outcome destination source size attributes h =
      let (aligned, test) = is_unaligned_iff destination size in
      elim (Bool-cases (is_unaligned destination size)) [
        | inl refused ↦ inl ((λ (p, q). cc (refused, test (p, q))), rw refused)
        | inr accepted ↦ inr ((aligned accepted).0, (aligned accepted).1, rw accepted)
      ]
