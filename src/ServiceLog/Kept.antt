-- ===== src/ServiceLog/Kept.antt =====
-- What `AppendUtf8LogLine` of windows/service/log_utils.h keeps, and how the log starts.
use ligament_apps.Common.{
  ℕ, ◌≡◌, refl, sym, ap, ◌∙◌, ◌⊎◌, inl, inr, true, ◌||◌, some, List, [], ◌∷◌, ◌++◌, arith, not,
  Bool-cases, take, empty,
}
use mathlib.Core.List.{append_assoc, append-nil}
use ligament_apps.Common.{if_either}
use ligament_apps.Common.Text.{Text}
use ligament_apps.ServiceLog.{
  bom, Files, Io, content, open_log, write_log, write_bom, rotate, set_apart, mark, rotated,
  append_utf8_log_line,
}

-- A text that goes on from another.
abbrev pub Extends : Text → Text → Type 0
Extends s t = (more : Text) × (t ≡ s ++ more)

-- What the log was is in the log with more behind it, or is the backup, or is the newest of the logs
-- that were set apart.
abbrev pub KeepsLog : Files → Files → Type 0
KeepsLog f g =
    Extends (content f.log) (content g.log)
    ⊎ ((g.backup ≡ some (content f.log)) ⊎ (g.legacy ≡ content f.log ∷ f.legacy))

Extends-append : (s t more : Text) → Extends s t → Extends s (t ++ more)
Extends-append s t more (some_more, e) =
    (some_more ++ more, ap (λ u. u ++ more) e ∙ append_assoc s some_more more)

open_log-content : (f : Files) → (open_log f).log ≡ some (content f.log)
unfolding open_log
open_log-content f = refl

open_log-legacy : (f : Files) → (open_log f).legacy ≡ f.legacy
unfolding open_log
open_log-legacy f = refl

set_apart-legacy :
    (io : Io) (g : Files)
    → io.legacy_moved ≡ true
    → (set_apart io g).0.legacy ≡ content g.log ∷ g.legacy
unfolding set_apart open_log write_bom write_log
set_apart-legacy io g e = ground (arith, e)

set_apart-backup : (io : Io) (g : Files) → (set_apart io g).0.backup ≡ g.backup
unfolding set_apart open_log write_bom write_log
set_apart-backup io g = ground arith

module _ (s : Text) (old : List Text) where
  -- The log is still this text, with these logs set apart, or the backup is the text.
  abbrev pub Holds : Files → Type 0
  Holds g = ((content g.log ≡ s) × (g.legacy ≡ old)) ⊎ (g.backup ≡ some s)

  abbrev pub Keeps : Files → Type 0
  Keeps g = Extends s (content g.log) ⊎ ((g.backup ≡ some s) ⊎ (g.legacy ≡ s ∷ old))

  Keeps-Holds : (g : Files) → Holds g → Keeps g
  Keeps-Holds g (inl (e, _)) = inl ([], e ∙ sym (append-nil s))
  Keeps-Holds g (inr e) = inr (inl e)

  write_log-Keeps : (t : Text) (g : Files) → Keeps g → Keeps (write_log t g)
  unfolding write_log
  write_log-Keeps t g (inl x) = inl (Extends-append s (content g.log) t x)
  write_log-Keeps t g (inr x) = inr x

  write_bom-Keeps : (io : Io) (g : Files) → Keeps g → Keeps (write_bom io g).0
  unfolding write_bom
  write_bom-Keeps io g k = write_log-Keeps (take io.bom_bytes bom) g k

  rotate-Holds : (io : Io) (g : Files) → g.log ≡ some s → g.legacy ≡ old → Holds (rotate io g).0
  unfolding rotate open_log write_bom write_log
  rotate-Holds io g e l = ground (arith, e, l)

  rotated-Holds : (io : Io) (g : Files) → g.log ≡ some s → g.legacy ≡ old → Holds (rotated io g).0.0
  unfolding rotated
  rotated-Holds io g e l = ground (arith, e, l, rotate-Holds io g)

  set_apart-Keeps : (io : Io) (g : Files) → Holds g → Keeps (set_apart io g).0
  unfolding set_apart open_log
  set_apart-Keeps io g h = elim (Bool-cases io.legacy_moved) [
    | inr e ↦ rw e (Keeps-Holds g h)
    | inl e ↦ elim h [
      | inl (same, kept) ↦
          inr (inr (set_apart-legacy io g e ∙ ap (λ t. t ∷ g.legacy) same ∙ ap (◌∷◌ s) kept))
      | inr b ↦ inr (inl (set_apart-backup io g ∙ b))
    ]
  ]

  mark-Keeps : (io : Io) (size : ℕ) (g : Files) → Holds g → Keeps (mark io size g).0
  unfolding mark
  mark-Keeps io size g h =
      ground
        (arith, Keeps-Holds g h, set_apart-Keeps io g h, write_bom-Keeps io g (Keeps-Holds g h))

-- Whichever calls of Windows fail, what the log of the service was is, after an append, the start
-- of the log, or the backup, or the newest of the logs that are set apart.
pub append-KeepsLog : (io : Io) (f : Files) → KeepsLog f (append_utf8_log_line io f)
unfolding append_utf8_log_line
append-KeepsLog io f =
    let s = content f.log in
    let opened = open_log f in
    let r = rotated io opened in
    let held = rotated-Holds s f.legacy io opened (open_log-content f) (open_log-legacy f) in
    let marked = mark-Keeps s f.legacy io r.1 r.0.0 held in
    let P : Files → Type 0 = Keeps s f.legacy in
    let m = mark io r.1 r.0.0 in
    if_either P (not io.opened) _ _ (Keeps-Holds s f.legacy f (inl (refl, refl))) (
      if_either P (not io.sized || empty io.utf8) _ _
        (Keeps-Holds s f.legacy opened (inl (refl, open_log-legacy f)))
        (if_either P (not r.0.1) _ _ (Keeps-Holds s f.legacy r.0.0 held) (
          if_either P m.1 _ _ (write_log-Keeps s f.legacy (take io.line_bytes io.utf8) m.0 marked)
            marked)))
