-- ===== src/ServiceLog/Marked.antt =====
-- How the log of windows/service/log_utils.h starts, and how long it gets.
use ligament_apps.Common.{
  ℕ, zero, suc, ◌≡◌, refl, sym, ap, ◌∙◌, ◌⊎◌, inl, inr, true, false, ◌&&◌, ◌||◌, none, some, [],
  ◌∷◌, ◌++◌, arith, leb, ◌==◌, if◌then◌else◌, not, Bool-cases, length, take, drop, empty,
}
use mathlib.Core.List.{append_assoc}
use ligament_apps.Common.{if_either, take-append-drop, and_right}
use ligament_apps.Common.Text.{Text, eq_text, eq_of_eq_text}
use ligament_apps.ServiceLog.{
  bom, Files, Io, content, open_log, write_log, Outcome, write_bom, rotate, set_apart, mark,
  needs_rotation, rotated, append_utf8_log_line,
}

-- The text is some of the mark, or the mark with anything behind it.
abbrev pub IsMarked : Text → Type 0
IsMarked s = ((k : ℕ) × (s ≡ take k bom)) ⊎ ((rest : Text) × (s ≡ bom ++ rest))

-- The log of a file system whose log is absent, or marked.
abbrev pub HasMark : Files → Type 0
HasMark f = IsMarked (content f.log)

-- Behind a part that goes on, the log is the mark with something behind it.
abbrev IsBegun : Outcome → Type 0
IsBegun r = (rest : Text) × (content r.0.log ≡ bom ++ rest)

take-bom : (k : ℕ) → leb 3 k ≡ true → take k bom ≡ bom
take-bom zero h = absurd (ground (arith, h))
take-bom (suc zero) h = absurd (ground (arith, h))
take-bom (suc (suc zero)) h = absurd (ground (arith, h))
take-bom (suc (suc (suc zero))) h = refl
take-bom (suc (suc (suc (suc k)))) h = refl

-- A part that ends the call leaves a marked log; one that goes on leaves a log with its mark.
abbrev IsSafe : Outcome → Type 0
IsSafe r = HasMark r.0 × ((r.1 ≡ false) ⊎ IsBegun r)

write_bom-IsSafe : (io : Io) (f : Files) → content f.log ≡ [] → IsSafe (write_bom io f)
unfolding write_bom write_log
write_bom-IsSafe io f e = (
  inl (io.bom_bytes, ap (λ s. s ++ take io.bom_bytes bom) e),
  elim (Bool-cases (io.bom_ok && leb 3 io.bom_bytes)) [
    | inr short ↦ inl short
    | inl whole ↦ inr (
      [],
      ap (λ s. s ++ take io.bom_bytes bom) e
          ∙ take-bom io.bom_bytes (and_right io.bom_ok (leb 3 io.bom_bytes) whole),
    )
  ],
)

stops : (f : Files) → HasMark f → IsSafe (f, false)
stops f h = (h, inl refl)

emptied : (g : Files) → content g.log ≡ [] → HasMark g
emptied g e = inl (0, e)

set_apart-IsSafe : (io : Io) (f : Files) → HasMark f → IsSafe (set_apart io f)
unfolding set_apart open_log
set_apart-IsSafe io f h =
    let moved = record f { log = none; legacy = content f.log ∷ f.legacy } in
    if_either IsSafe (not io.legacy_moved) _ _ (stops f h) (
      if_either IsSafe (not io.opened_again) _ _ (stops moved (emptied moved refl))
        (write_bom-IsSafe io (record moved { log = some [] }) refl))

started_with : (s : Text) → eq_text (take 3 s) bom ≡ true → (rest : Text) × (s ≡ bom ++ rest)
started_with s e = (
  drop 3 s,
  sym (take-append-drop 3 s) ∙ ap (λ t. t ++ drop 3 s) (eq_of_eq_text (take 3 s) bom e),
)

mark-IsSafe :
    (io : Io) (size : ℕ) (f : Files)
    → HasMark f
    → ((size == 0) ≡ true → content f.log ≡ [])
    → IsSafe (mark io size f)
unfolding mark
mark-IsSafe io size f h e = elim (Bool-cases (size == 0)) [
  | inl is_empty ↦ rw is_empty (write_bom-IsSafe io f (e is_empty))
  | inr other ↦ rw other (
      if_either IsSafe (not io.start_read) _ _ (stops f h)
        (elim (Bool-cases (eq_text (take 3 (content f.log)) bom)) [
          | inl begun ↦ rw begun (h, inr (started_with (content f.log) begun))
          | inr foreign ↦ rw foreign (set_apart-IsSafe io f h)
        ]))
]

rotate-HasMark : (io : Io) (f : Files) → HasMark f → HasMark (rotate io f).0
unfolding rotate open_log
rotate-HasMark io f h =
    let P : Outcome → Type 0 = λ r. HasMark r.0 in
    let moved = record f { log = none; backup = f.log } in
    let deleted = if io.backup_deleted then record f { backup = none } else f in
    let kept = if_either HasMark io.backup_deleted (record f { backup = none }) f h h in
    if_either P io.moved _ _
      (if_either P io.reopened _ _ (write_bom-IsSafe io (record moved { log = some [] }) refl).0
        (emptied moved refl))
      (if_either P io.reopened (open_log deleted, true) (deleted, false) kept kept)

rotated-HasMark : (io : Io) (f : Files) → HasMark f → HasMark (rotated io f).0.0
unfolding rotated
rotated-HasMark io f h = elim (Bool-cases (needs_rotation io f)) [
  | inl due ↦ rw due (rotate-HasMark io f h)
  | inr fitting ↦ rw fitting h
]

no_text : (s : Text) → (length s == 0) ≡ true → s ≡ []
no_text [] e = refl
no_text (c ∷ s) e = absurd (ground (arith, e))

-- The size that the code has of the log is 0 only where the log is empty.
rotated-size :
    (io : Io) (f : Files) → ((rotated io f).1 == 0) ≡ true → content (rotated io f).0.0.log ≡ []
unfolding rotated rotate open_log
rotated-size io f h = elim (Bool-cases (needs_rotation io f)) [
  | inr fitting ↦ ground (arith, h, fitting, no_text (content f.log))
  | inl due ↦ elim (Bool-cases io.moved) [
    | inl moved ↦ absurd (ground (arith, h, due, moved))
    | inr held ↦ ground (arith, h, due, held, no_text (content f.log))
  ]
]

write_line : (t : Text) (r : Outcome) → IsBegun r → HasMark (write_log t r.0)
unfolding write_log
write_line t r (rest, e) = inr (rest ++ t, ap (λ s. s ++ t) e ∙ append_assoc bom rest t)

begun : (r : Outcome) → r.1 ≡ true → (r.1 ≡ false) ⊎ IsBegun r → IsBegun r
begun r on (inl off) = absurd (ground (arith, on, off))
begun r on (inr b) = b

-- A log that is some first bytes of the mark of UTF-8, or starts with the whole mark, is so again
-- after an append, whichever calls of Windows fail.
pub append-HasMark : (io : Io) (f : Files) → HasMark f → HasMark (append_utf8_log_line io f)
unfolding append_utf8_log_line open_log
append-HasMark io f h =
    let opened = open_log f in
    let r = rotated io opened in
    let m = mark io r.1 r.0.0 in
    let rotated_mark = rotated-HasMark io opened h in
    let marked = mark-IsSafe io r.1 r.0.0 rotated_mark (rotated-size io opened) in
    if_either HasMark (not io.opened) _ _ h (
      if_either HasMark (not io.sized || empty io.utf8) _ _ h (
        if_either HasMark (not r.0.1) _ _ rotated_mark (elim (Bool-cases m.1) [
          | inl on ↦ rw on (write_line (take io.line_bytes io.utf8) m (begun m on marked.1))
          | inr off ↦ rw off marked.0
        ])))
