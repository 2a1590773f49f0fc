-- ===== src/Macros/Registry/Rejects.antt =====
-- Which modules `syscall_registry` rejects, and the error that it reports.
use libriscv_rust_binding.Common.{
  ℕ, ◌≡◌, refl, ap, ap₂, sym, ◌∙◌, ◌↔◌, true, Option, none, some, List, [], ◌∷◌, ◌++◌, map,
  if◌then◌else◌, ok, err, Result-cases, inl, inr, arith, ltb, u32_max, subst,
}
use libriscv_rust_binding.Macros.Syntax.{Item, MacroError, Parsed, ◌>>=◌}
use libriscv_rust_binding.Macros.Registry.{
  Registration, contains, Scan, Mark, scan_mark, syscall_registry,
}
use libriscv_rust_binding.Macros.Registry.Marks.{marks, scan_marks}
use libriscv_rust_binding.Macros.Registry.Accepts.{
  mark, Distinct, after, scan_mark-mark, start, module_of, syscall_registry-marks, scan_mark-ok,
}

-- What is wrong with an attribute, after attributes with the given ids: it has no id, or the id is not
-- a `u32` or one of those.
abbrev pub refusal : List ℕ → Mark → Option MacroError
refusal seen (err e, name) = some e
refusal seen (ok id, name) =
    if ltb u32_max id
    then some MacroError.out_of_range
    else if contains seen id
    then some (MacroError.duplicate_syscall_id id)
    else none

-- The ids of the registrations, the last one first, before those seen already.
abbrev pub ids_after : List ℕ → List Registration → List ℕ
ids_after seen [] = seen
ids_after seen (r ∷ rs) = ids_after (r.id ∷ seen) rs

-- The attributes begin with good ones, and then comes one that is refused with `e`.
pub record IsRefused (seen : List ℕ) (ks : List Mark) (e : MacroError) : Type 0 where
  pub good : List Registration
  pub bad : Mark
  pub rest : List Mark
  pub shape : ks ≡ map mark good ++ bad ∷ rest
  pub distinct : Distinct seen good
  pub refused : refusal (ids_after seen good) bad ≡ some e

scan_mark-refusal :
    (k : Mark) (s : Scan) (e : MacroError)
    → (scan_mark k s ≡ err e) ↔ (refusal s.seen_ids k ≡ some e)
unfolding scan_mark
scan_mark-refusal (err x, name) s e = ground arith
scan_mark-refusal (ok id, name) s e = ground arith

scan_marks-IsRefused :
    (ks : List Mark) (s : Scan) (e : MacroError)
    → scan_marks ks s ≡ err e
    → IsRefused s.seen_ids ks e
unfolding scan_marks after
scan_marks-IsRefused [] s e h = absurd (ground arith)
scan_marks-IsRefused ((parsed, name) ∷ ks) s e h =
    elim (Result-cases (scan_mark (parsed, name) s)) [
      | inl (t, found) ↦
          let (id, shape, new, small, same) = scan_mark-ok parsed name s found in
          let r : Registration = record { id = id; handler_name = name } in
          let later : scan_marks ks t ≡ err e = ground (arith, found) in
          let is =
            scan_marks-IsRefused ks (after s r) e
              (subst (λ (u : Scan). scan_marks ks u ≡ err e) same later) in
          record {
            good = r ∷ is.good;
            bad = is.bad;
            rest = is.rest;
            shape = ap₂ (λ (p : Parsed ℕ) (l : List Mark). (p, name) ∷ l) shape is.shape;
            distinct = (new, small, is.distinct);
            refused = is.refused;
          }
      | inr (x, found) ↦ record {
        good = [];
        bad = (parsed, name);
        rest = ks;
        shape = refl;
        distinct = tt;
        refused = (scan_mark-refusal (parsed, name) s e).0 (ground (arith, found));
      }
    ]

IsRefused-scan_marks :
    (rs : List Registration) (k : Mark) (rest : List Mark) (s : Scan) (e : MacroError)
    → Distinct s.seen_ids rs
    → refusal (ids_after s.seen_ids rs) k ≡ some e
    → scan_marks (map mark rs ++ k ∷ rest) s ≡ err e
unfolding scan_marks after
IsRefused-scan_marks [] k rest s e d refused = rw ((scan_mark-refusal k s e).1 refused) refl
IsRefused-scan_marks (r ∷ rs) k rest s e (new, small, d) refused =
    rw (scan_mark-mark r s new small) (IsRefused-scan_marks rs k rest (after s r) e d refused)

rejected_iff :
    (items : List Item) (r : Parsed Scan) (e : MacroError)
    → ((r >>= module_of items) ≡ err e) ↔ (r ≡ err e)
rejected_iff items (ok s) e = ground arith
rejected_iff items (err x) e = ground arith

-- An inline module is rejected with an error exactly if the `syscall` attributes of its functions, in
-- the order of the source, begin with ones that have different ids, and the next one is refused with
-- that error: its own error if it has no id, or that its id is no `u32`, or is one of those before.
pub syscall_registry-IsRefused :
    (items : List Item) (e : MacroError)
    → (syscall_registry true (ok (some items)) ≡ err e) ↔ IsRefused [] (marks items) e
unfolding start
syscall_registry-IsRefused items e = (
  λ h.
      scan_marks-IsRefused (marks items) start e
        ((rejected_iff items _ e).0 (sym (syscall_registry-marks items) ∙ h)),
  λ is.
      syscall_registry-marks items
      ∙ (rejected_iff items _ e).1 (
          ap (λ ks. scan_marks ks start) is.shape
          ∙ IsRefused-scan_marks is.good is.bad is.rest start e is.distinct is.refused),
)
