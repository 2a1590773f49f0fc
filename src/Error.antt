-- ===== src/Error.antt =====
-- src/lib.rs: the error type, its message, and the check of a C return code.
pub mod Action
pub mod Check
pub mod Costs
pub mod Ends
pub mod Message
use libriscv_rust_binding.Common.{ℕ, ℤ, String, Option, none, some, List, [], ◌∷◌, Result}
use libriscv_rust_binding.Memory.Strings.{NulError}

pub data Error : Type 0 where
  args_too_large : ℕ → Error
  elf_too_large : ℕ → Error
  invalid_register_index : (index max : ℕ) → Error
  invalid_syscall_index : (index max : ℕ) → Error
  length_too_large : (op : String) → (len : ℕ) → Error
  unaligned_page_range : (destination size : ℕ) → Error
  library : (op : String) → (code : ℤ) → (message : Option (List ℕ)) → Error
  non_utf8_path : Error
  null_pointer : String → Error
  nul_error : NulError → Error

-- What `write!` prints: literal text, a number in decimal or in `{:#x}`, a signed number, bytes of
-- another string, or the message of a `NulError`.
pub data Piece : Type 0 where
  text : String → Piece
  decimal : ℕ → Piece
  hex : ℕ → Piece
  signed : ℤ → Piece
  utf8 : List ℕ → Piece
  nul : NulError → Piece

-- `Display for Error`.
unfoldable pub fmt : Error → List Piece
fmt (Error.args_too_large len) = text "too many arguments: " ∷ decimal len ∷ []
fmt (Error.elf_too_large len) = text "ELF size " ∷ decimal len ∷ text " exceeds u32::MAX" ∷ []
fmt (Error.invalid_register_index index max) =
    text "register index "
    ∷ decimal index
    ∷ text " out of range (max "
    ∷ decimal max
    ∷ text ")"
    ∷ []
fmt (Error.invalid_syscall_index index max) =
    text "syscall index " ∷ decimal index ∷ text " out of range (max " ∷ decimal max ∷ text ")" ∷ []
fmt (Error.length_too_large op len) =
    text op ∷ text " length " ∷ decimal len ∷ text " exceeds u32::MAX" ∷ []
fmt (Error.unaligned_page_range destination size) =
    text "guest page range address "
    ∷ hex destination
    ∷ text " and size "
    ∷ hex size
    ∷ text " must be 4096-byte aligned"
    ∷ []
fmt (Error.library op code (some message)) =
    text op ∷ text " failed (" ∷ signed code ∷ text "): " ∷ utf8 message ∷ []
fmt (Error.library op code none) = text op ∷ text " failed (" ∷ signed code ∷ text ")" ∷ []
fmt Error.non_utf8_path = text "path contains invalid UTF-8" ∷ []
fmt (Error.null_pointer op) = text op ∷ text " returned a null pointer" ∷ []
fmt (Error.nul_error e) = nul e ∷ []

-- `crate::Result`.
abbrev pub Fallible : Type 0 → Type 0
Fallible A = Result Error A
