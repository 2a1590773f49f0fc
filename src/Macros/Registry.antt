-- ===== src/Macros/Registry.antt =====
-- libriscv-macros/src/lib.rs: `syscall_registry`.
pub mod Accepts
pub mod Marks
pub mod Rejects
use libriscv_rust_binding.Common.{
  ℕ, String, Bool, true, false, not, ◌||◌, Option, none, some, List, [], ◌∷◌, ◌++◌, ◌==◌,
  if◌then◌else◌, ok, err,
}
use libriscv_rust_binding.Macros.Syntax.{Attribute, ItemFn, Item, MacroError, Parsed, ◌>>=◌, ◌>>◌}
use libriscv_rust_binding.Macros.{is_ident, parse_u32, parse_syscall_attr}
use libriscv_rust_binding.Macros.Handler.{reject_if, wrapper_of}

-- `builder.register(SyscallId::new(id)?, handler_name())?;`
pub record Registration : Type 0 where
  pub id : ℕ
  pub handler_name : String

-- `HashSet::contains`; an insertion puts the new element in front.
abbrev pub contains : List ℕ → ℕ → Bool
contains [] n = false
contains (m ∷ ms) n = m == n || contains ms n

-- The variables of the loop, but for `new_items`.
pub record Scan : Type 0 where
  pub seen_ids : List ℕ
  pub registrations : List Registration

-- An attribute `syscall` on the function whose handler is `name`, with its parsed id.
abbrev pub Mark : Type 0
Mark = Parsed ℕ × String

unfoldable pub scan_mark : Mark → Scan → Parsed Scan
scan_mark (parsed, name) s = do
  id ← parsed
  id_value ← parse_u32 id
  if contains s.seen_ids id_value
      then err (MacroError.duplicate_syscall_id id_value)
      else ok (record {
        seen_ids = id_value ∷ s.seen_ids;
        registrations = s.registrations ++ record { id = id; handler_name = name } ∷ [];
      })

unfoldable pub scan_attrs : ItemFn → List Attribute → Scan → Parsed Scan
scan_attrs func [] s = ok s
scan_attrs func (attr ∷ attrs) s = do
  s' ←
      if is_ident attr.path "syscall"
      then scan_mark (parse_syscall_attr attr, wrapper_of func.name) s
      else ok s
  scan_attrs func attrs s'

unfoldable pub scan_item : Item → Scan → Parsed Scan
unfolding scan_attrs
scan_item (Item.function func) s = scan_attrs func func.attrs s
scan_item Item.other s = ok s

unfoldable pub scan_items : List Item → (new_items : List Item) → Scan → Parsed (Scan × List Item)
scan_items [] new_items s = ok (s, new_items)
scan_items (item ∷ items) new_items s = do
  s' ← scan_item item s
  scan_items items (new_items ++ item ∷ []) s'

-- The module with the functions `register`, which makes the registrations in their order, and
-- `registry` added.
pub record RegistryModule : Type 0 where
  pub items : List Item
  pub registrations : List Registration

-- The module's content is `none` if it is not inline.
unfoldable pub syscall_registry : Bool → Parsed (Option (List Item)) → Parsed RegistryModule
unfolding scan_items
syscall_registry attr_empty item = do
  reject_if (not attr_empty) (MacroError.takes_no_arguments "syscall_registry")
  content ← item
  elim content [
    | none ↦ err MacroError.inline_module
    | some items ↦ do
      (s, new_items) ← scan_items items [] (record { seen_ids = []; registrations = [] })
      ok (record { items = new_items; registrations = s.registrations })
  ]
