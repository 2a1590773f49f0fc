-- ===== src/Macros/Registry/Accepts.antt =====
-- Which modules `syscall_registry` accepts, and what it registers.
use mathlib.Core.List.{append_assoc, append-nil}
use libriscv_rust_binding.Common.{
  ℕ, String, ◌≡◌, refl, sym, ap, ap₂, subst, ◌∙◌, ◌↔◌, true, false, some, List, [], ◌∷◌, ◌++◌, map,
  ok, err, Result-cases, inl, inr, arith, u32_max, ◌≤◌,
}
use libriscv_rust_binding.Macros.Syntax.{Item, Parsed, ◌>>=◌}
use libriscv_rust_binding.Macros.Registry.{
  Registration, contains, Scan, Mark, scan_mark, RegistryModule, syscall_registry,
}
use libriscv_rust_binding.Macros.Registry.Marks.{marks, scan_marks, scan_items-marks}

-- The mark of a registration.
abbrev pub mark : Registration → Mark
mark r = (ok r.id, r.handler_name)

-- The ids are `u32`s, differ from one another and are none of `seen`.
abbrev pub Distinct : List ℕ → List Registration → Type 0
Distinct seen [] = Unit
Distinct seen (r ∷ rs) = (contains seen r.id ≡ false) × (r.id ≤ u32_max) × Distinct (r.id ∷ seen) rs

unfoldable pub after : Scan → Registration → Scan
after s r = record { seen_ids = r.id ∷ s.seen_ids; registrations = s.registrations ++ r ∷ [] }

pub scan_mark-ok :
    (parsed : Parsed ℕ) (name : String) (s : Scan) {s' : Scan}
    → scan_mark (parsed, name) s ≡ ok s'
    → (id : ℕ) × (parsed ≡ ok id)
      × (contains s.seen_ids id ≡ false)
      × (id ≤ u32_max)
      × (s' ≡ after s (record { id = id; handler_name = name }))
unfolding scan_mark after
scan_mark-ok (err x) name s h = absurd (ground arith)
scan_mark-ok (ok id) name s h = (id, refl, ground arith, ground arith, ground arith)

pub scan_mark-mark :
    (r : Registration) (s : Scan)
    → contains s.seen_ids r.id ≡ false
    → r.id ≤ u32_max
    → scan_mark (mark r) s ≡ ok (after s r)
unfolding scan_mark after
scan_mark-mark r s new small = ground arith

scan_marks-ok :
    (ks : List Mark) (s : Scan) {s' : Scan}
    → scan_marks ks s ≡ ok s'
    → (rs : List Registration) × (ks ≡ map mark rs)
      × Distinct s.seen_ids rs
      × (s'.registrations ≡ s.registrations ++ rs)
unfolding scan_marks after
scan_marks-ok [] s h = ([], refl, tt, ground (arith, append-nil s.registrations))
scan_marks-ok ((parsed, name) ∷ ks) s {s'} h = elim (Result-cases (scan_mark (parsed, name) s)) [
  | inl (t, e) ↦
      let (id, shape, new, small, same) = scan_mark-ok parsed name s e in
      let r : Registration = record { id = id; handler_name = name } in
      let later : scan_marks ks t ≡ ok s' = ground (arith, e) in
      let (rs, shapes, d, found) =
        scan_marks-ok ks (after s r) (subst (λ (u : Scan). scan_marks ks u ≡ ok s') same later) in
      (
        r ∷ rs,
        ap₂ (λ (p : Parsed ℕ) (l : List Mark). (p, name) ∷ l) shape shapes,
        (new, small, d),
        found ∙ append_assoc s.registrations (r ∷ []) rs,
      )
  | inr (x, e) ↦ absurd (ground (arith, e))
]

scan_marks-marks :
    (rs : List Registration) (s : Scan)
    → Distinct s.seen_ids rs
    → (s' : Scan) × (scan_marks (map mark rs) s ≡ ok s')
      × (s'.registrations ≡ s.registrations ++ rs)
unfolding scan_marks after
scan_marks-marks [] s d = (s, refl, sym (append-nil s.registrations))
scan_marks-marks (r ∷ rs) s (new, small, d) =
    let (s', e, same) = scan_marks-marks rs (after s r) d in
    (s', rw (scan_mark-mark r s new small) e, same ∙ append_assoc s.registrations (r ∷ []) rs)

unfoldable pub start : Scan
start = record { seen_ids = []; registrations = [] }

abbrev pub module_of : List Item → Scan → Parsed RegistryModule
module_of items s = ok (record { items = items; registrations = s.registrations })

pub syscall_registry-marks :
    (items : List Item)
    → syscall_registry true (ok (some items)) ≡ (scan_marks (marks items) start >>= module_of items)
unfolding syscall_registry start
syscall_registry-marks items =
    rw (scan_items-marks items [] (record { seen_ids = []; registrations = [] }))
      (elim (Result-cases
        (scan_marks (marks items) (record { seen_ids = []; registrations = [] }))) [
          | inl (s, e) ↦ rw e
          | inr (x, e) ↦ rw e
        ])

accepted-parts :
    (items : List Item) (rs : List Registration) (r : Parsed Scan)
    → (r >>= module_of items) ≡ ok (record { items = items; registrations = rs })
    → (s : Scan) × (r ≡ ok s) × (s.registrations ≡ rs)
accepted-parts items rs (ok s) h = (s, refl, ground arith)
accepted-parts items rs (err x) h = absurd (ground arith)

-- An inline module is accepted exactly if the `syscall` attributes of its functions, in the order
-- of the source, all have an id and no two the same; then each is registered under its id, in that
-- order, with the handler of its function, and the items of the module are kept.
pub syscall_registry_iff :
    (items : List Item) (rs : List Registration)
    → (syscall_registry true (ok (some items)) ≡ ok (record { items = items; registrations = rs }))
      ↔ ((marks items ≡ map mark rs) × Distinct [] rs)
unfolding start
syscall_registry_iff items rs = (
  λ h.
      let (s, e, same) =
        accepted-parts items rs (scan_marks (marks items) start)
          (sym (syscall_registry-marks items) ∙ h) in
      let (found, shapes, d, regs) = scan_marks-ok (marks items) start e in
      let all : found ≡ rs = sym regs ∙ same in
      (shapes ∙ ap (map mark) all, subst (Distinct []) all d),
  λ (shapes, d).
      let (s, e, regs) = scan_marks-marks rs start d in
      syscall_registry-marks items
      ∙ rw (shapes, e)
          (ap (λ (l : List Registration). ok (record { items = items; registrations = l })) regs),
)
