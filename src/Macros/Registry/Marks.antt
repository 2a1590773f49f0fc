-- ===== src/Macros/Registry/Marks.antt =====
-- The loop of `syscall_registry` as a loop over the `syscall` attributes of the module.
use libriscv_rust_binding.Common.{
  ◌≡◌, refl, ap, List, [], ◌∷◌, ◌++◌, if◌then◌else◌, ok, Result-cases, Bool-cases, inl, inr,
}
use mathlib.Core.Path.{fun_ext}
use mathlib.Core.List.{append_assoc, append-nil}
use libriscv_rust_binding.Macros.Syntax.{Attribute, ItemFn, Item, Parsed, ◌>>=◌}
use libriscv_rust_binding.Macros.{is_ident, parse_syscall_attr}
use libriscv_rust_binding.Macros.Handler.{wrapper_of}
use libriscv_rust_binding.Macros.Registry.{Scan, Mark, scan_mark, scan_attrs, scan_item, scan_items}

-- The marks of a function and of a module, in the order of the source.
abbrev pub marks_of : ItemFn → List Attribute → List Mark
marks_of func [] = []
marks_of func (attr ∷ attrs) =
    if is_ident attr.path "syscall"
    then (parse_syscall_attr attr, wrapper_of func.name) ∷ marks_of func attrs
    else marks_of func attrs

abbrev pub marks_in : Item → List Mark
marks_in (Item.function func) = marks_of func func.attrs
marks_in Item.other = []

abbrev pub marks : List Item → List Mark
marks [] = []
marks (item ∷ items) = marks_in item ++ marks items

unfoldable pub scan_marks : List Mark → Scan → Parsed Scan
scan_marks [] s = ok s
scan_marks (k ∷ ks) s = do s' ← scan_mark k s; scan_marks ks s'

scan_marks-append :
    (ks ls : List Mark) (s : Scan) → scan_marks (ks ++ ls) s ≡ (scan_marks ks s >>= scan_marks ls)
unfolding scan_marks
scan_marks-append [] ls s = refl
scan_marks-append (k ∷ ks) ls s = elim (Result-cases (scan_mark k s)) [
  | inl (s', e) ↦ rw e (scan_marks-append ks ls s')
  | inr (x, e) ↦ rw e
]

scan_attrs-marks :
    (func : ItemFn) (attrs : List Attribute) (s : Scan)
    → scan_attrs func attrs s ≡ scan_marks (marks_of func attrs) s
unfolding scan_attrs scan_marks
scan_attrs-marks func [] s = refl
scan_attrs-marks func (attr ∷ attrs) s = elim (Bool-cases (is_ident attr.path "syscall")) [
  | inl marked ↦ rw marked (
      ap
        (λ (k : Scan → Parsed Scan).
          scan_mark (parse_syscall_attr attr, wrapper_of func.name) s >>= k)
        (fun_ext (scan_attrs-marks func attrs)))
  | inr plain ↦ rw plain (scan_attrs-marks func attrs s)
]

scan_item-marks : (item : Item) (s : Scan) → scan_item item s ≡ scan_marks (marks_in item) s
unfolding scan_item scan_marks
scan_item-marks (Item.function func) s = scan_attrs-marks func func.attrs s
scan_item-marks Item.other s = refl

-- The loop over the items is the loop over the marks, and copies the items.
pub scan_items-marks :
    (items new_items : List Item) (s : Scan)
    → scan_items items new_items s
      ≡ (scan_marks (marks items) s >>= λ s'. ok (s', new_items ++ items))
unfolding scan_items scan_marks
scan_items-marks [] new_items s = rw (append-nil new_items)
scan_items-marks (item ∷ items) new_items s =
    rw (scan_item-marks item s, scan_marks-append (marks_in item) (marks items) s)
      (elim (Result-cases (scan_marks (marks_in item) s)) [
        | inl (s', e) ↦
            rw (e, ← append_assoc new_items (item ∷ []) items)
              (scan_items-marks items (new_items ++ item ∷ []) s')
        | inr (x, e) ↦ rw e
      ])
