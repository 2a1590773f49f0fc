-- ===== src/Machine/Guest.antt =====
-- src/lib.rs: the methods of `Machine` that move bytes between the host and the guest.
pub mod Aligned
pub mod RoundTrip
use libriscv_rust_binding.Common.{
  ℕ, ◌-◌, ◌%◌, ◌^◌, Bool, not, List, bit_and, bit_or, ltb, ◌==◌, if◌then◌else◌, u32_max, replicate,
}
use libriscv_rust_binding.Raw.{page_size}
use libriscv_rust_binding.Memory.{Memory, alloc_bytes}
use libriscv_rust_binding.Slice.{Slice, contents, nonnull}
use libriscv_rust_binding.Sys.{Host, Ffi, Sys}
use libriscv_rust_binding.Error.{Error}
use libriscv_rust_binding.Error.Action.{Action, pure, fail, attempt, call, on_memory, ◌>>=◌, ◌>>◌}
use libriscv_rust_binding.Error.Check.{check_code}
use libriscv_rust_binding.Pages
use libriscv_rust_binding.Pages.{PageAttributes}
use libriscv_rust_binding.Machine.{Machine}

-- `vec![0u8; len]`, as the slice of all its elements.
unfoldable pub zeroed_vec : ℕ → Memory → Slice × Memory
unfolding alloc_bytes
zeroed_vec len m =
    let (p, m') = alloc_bytes (replicate len 0) m in (record { address = p; len = len }, m')

-- `(destination | size) & page_mask != 0`.
unfoldable pub is_unaligned : (destination size : ℕ) → Bool
is_unaligned destination size = not (bit_and (bit_or destination size) (page_size - 1) == 0)

module _ {F : Type 0} (sys : Sys F) (self : Machine) where
  unfoldable pub insert_non_owned_memory :
      (destination source size : ℕ) → PageAttributes → Action (Host F) (Unit {0})
  unfolding is_unaligned Pages.into_raw
  insert_non_owned_memory destination source size attributes =
      if is_unaligned destination size
      then fail (Error.unaligned_page_range destination size)
      else (do
        code ← call (
            sys.libriscv_insert_non_owned_memory self.ptr destination source size
              (Pages.into_raw attributes))
        check_code sys "libriscv_insert_non_owned_memory" code)

  unfoldable pub copy_to_guest : ℕ → Slice → Action (Host F) (Unit {0})
  copy_to_guest dst src =
      if ltb u32_max src.len
      then fail (Error.length_too_large "libriscv_copy_to_guest" src.len)
      else (do
        code ← call (sys.libriscv_copy_to_guest self.ptr dst src.address (src.len % 2 ^ 32))
        check_code sys "libriscv_copy_to_guest" code)

  unfoldable pub copy_from_guest : ℕ → Slice → Action (Host F) (Unit {0})
  copy_from_guest src dst =
      if ltb u32_max dst.len
      then fail (Error.length_too_large "libriscv_copy_from_guest" dst.len)
      else (do
        code ← call (sys.libriscv_copy_from_guest self.ptr dst.address src (dst.len % 2 ^ 32))
        check_code sys "libriscv_copy_from_guest" code)

  -- The vector comes back as its bytes.
  unfoldable pub read_memory : (src len : ℕ) → Action (Host F) (List ℕ)
  unfolding zeroed_vec copy_from_guest
  read_memory src len =
      if ltb u32_max len then fail (Error.length_too_large "read_memory" len) else (do
        buf ← on_memory (call (zeroed_vec len))
        copy_from_guest src buf
        call (λ h. (contents h.memory buf, h)))

  unfoldable pub write_memory : ℕ → Slice → Action (Host F) (Unit {0})
  unfolding copy_to_guest
  write_memory dst given = copy_to_guest dst given

  unfoldable pub memstring : (src maxlen : ℕ) → Action (Host F) (List ℕ)
  memstring src maxlen = do
    (ptr, len) ← call (sys.libriscv_memstring self.ptr src maxlen 0)
    ptr ← attempt (nonnull "libriscv_memstring" ptr)
    call (λ h. (contents h.memory (record { address = ptr; len = len }), h))
