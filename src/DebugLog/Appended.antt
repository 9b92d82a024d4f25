-- ===== src/DebugLog/Appended.antt =====
-- The file of the log and its backup after a call of `Append` of windows/runner/debug_log.cpp.
use ligament_apps.Common.{
  ℕ, zero, suc, ◌+◌, ◌-◌, ◌≤◌, ◌<◌, ◌≡◌, refl, sym, ap, ◌∙◌, ◌≢◌, ◌⊎◌, inl, inr, Bool, false, ◌||◌,
  List, [], ◌∷◌, ◌++◌, arith, ltb, ◌==◌, if◌then◌else◌, Bool-cases, length, take, empty,
}
use mathlib.Core.List.{append-nil}
use mathlib.Core.Path.{subst}
use ligament_apps.Common.Lists.{length-append, length-drop, take-length}
use Prim.{Unit, tt}
use ligament_apps.Common.Tests.{==_iff}
use ligament_apps.Common.Text.{Text}
use ligament_apps.DebugLog.Access.{WellKnown, error_success}
use ligament_apps.DebugLog.File.{
  max_bytes, call_status, write_all, RotateIo, Files, rotate, AppendIo, write_line, append, min,
  run_calls, copy_end, rotate_calls, append_calls, error_invalid_data,
}
use ligament_apps.DebugLog.Kept.{last_bytes, Took, copy_from-Copied, write_all-Took}

-- The current file is as it was, or it is empty and the backup holds its end.
data Rotated (f : Files) (r : ℕ × Files) : Type 0 where
  failed : r.0 ≢ error_success → r.1.current ≡ f.current → Rotated f r
  moved : r.0 ≡ error_success → r.1.current ≡ [] → r.1.backup ≡ last_bytes f.current → Rotated f r

copied_end :
    (io : RotateIo) (s : Text)
    → (copy_end io s).0 ≡ error_success
    → (copy_end io s).1 ≡ last_bytes s
unfolding copy_end
copied_end io s h =
    copy_from-Copied io (min (length s) max_bytes) 0 (min (length s) max_bytes) (last_bytes s) []
      (omega arith) h
    ∙ take-length (min (length s) max_bytes) (last_bytes s)
        (ground (arith, length-drop (length s - max_bytes) s))

-- Calls that leave the current file as it is.
abbrev Keep : Files → List (ℕ × Files) → Type 0
Keep f [] = Unit
Keep f ((status, g) ∷ calls) = (g.current ≡ f.current) × Keep f calls

-- All calls succeed.
abbrev Passed : List (ℕ × Files) → Type 0
Passed [] = Unit
Passed ((status, g) ∷ calls) = (status ≡ error_success) × Passed calls

-- What holds of the outcome of calls: of their first failure, or of what comes behind them.
run_calls-induct :
    (P : ℕ × Files → Type 0) (f : Files) (calls : List (ℕ × Files)) (last : ℕ × Files)
    → Keep f calls
    → ((status : ℕ) (g : Files) → status ≢ error_success → g.current ≡ f.current → P (status, g))
    → (Passed calls → P last)
    → P (run_calls calls last)
unfolding run_calls
run_calls-induct P f [] last k bad good = good tt
run_calls-induct P f ((status, g) ∷ calls) last (e, k) bad good =
    elim (Bool-cases (status == error_success)) [
      | inl s ↦
          rw (s, run_calls)
            (run_calls-induct P f calls last k bad (λ p. good ((==_iff status 0).0 s, p)))
      | inr s ↦ rw (s, run_calls) (bad status g (ground (arith, s)) e)
    ]

rotate-Rotated :
    (well_known : WellKnown) (worker : Bool) (io : RotateIo) (f : Files)
    → Rotated f (rotate well_known worker io f)
unfolding rotate
rotate-Rotated well_known worker io f =
    run_calls-induct (Rotated f) f (rotate_calls well_known worker io f) _
      (refl, (refl, (refl, (refl, (refl, (refl, (refl, (refl, tt))))))))
      (λ status g s e. Rotated.failed s e)
      (λ p. Rotated.moved refl refl (copied_end io f.current p.1.1.1.1.0))

-- What a call leaves: some of the line stands behind the log as it was, or alone in the current file
-- with the end of the log in the backup, and then the two did not fit in one file; after a success it is the whole line, in a file within its
-- bound.
pub data Appended (line : Text) (f : Files) (r : ℕ × Files) : Type 0 where
  added :
      (n : ℕ)
      → r.1.current ≡ f.current ++ take n line
      → (r.0 ≢ error_success)
        ⊎ ((r.1.current ≡ f.current ++ line) × (length r.1.current ≤ max_bytes))
      → Appended line f r
  restarted :
      (n : ℕ)
      → max_bytes < length f.current + length line
      → r.1.current ≡ take n line
      → r.1.backup ≡ last_bytes f.current
      → (r.0 ≢ error_success) ⊎ ((r.1.current ≡ line) × (length r.1.current ≤ max_bytes))
      → Appended line f r

nothing_added :
    (line : Text) (f g : Files) (status : ℕ)
    → status ≢ error_success
    → g.current ≡ f.current
    → Appended line f (status, g)
nothing_added line f g status s e = Appended.added 0 (e ∙ sym (append-nil f.current)) (inl s)

-- The line is written, whole or in part, behind a current file that is in place.
Wrote : Text → Files → ℕ × Files → Type 0
Wrote line g r =
    (n : ℕ) × (r.1.current ≡ g.current ++ take n line)
    × (r.1.backup ≡ g.backup)
    × (r.0 ≡ error_success → r.1.current ≡ g.current ++ line)

write_line-Wrote :
    (io : AppendIo) (line : Text) (placed : ℕ) (g : Files)
    → placed ≡ error_success
    → Wrote line g (write_line io line (placed, g))
unfolding write_line Wrote
write_line-Wrote io line placed g e =
    elim (Bool-cases ((write_all io.writes line g.current).0 == error_success)) [
      | inl k ↦
          rw (e, k, write_line, run_calls) (took.0, took.1, refl, (λ h. took.2 ((==_iff _ 0).0 k)))
      | inr k ↦
          rw (e, k, write_line, run_calls)
            (took.0, took.1, refl, (λ h. absurd (ground (arith, k, h))))
    ]
  where
    took : Took line g.current (write_all io.writes line g.current)
    took = write_all-Took io.writes line g.current

write_line_unplaced :
    (io : AppendIo) (line : Text) (placed : ℕ) (g : Files)
    → (placed == error_success) ≡ false
    → write_line io line (placed, g) ≡ (placed, g)
unfolding write_line
write_line_unplaced io line placed g e = rw (e, write_line, run_calls) refl

by_status : (status : ℕ) (g : Type 0) → (status ≡ error_success → g) → (status ≢ error_success) ⊎ g
by_status zero g h = inr (h refl)
by_status (suc n) g h = inl (ground arith)

write_line-added :
    (io : AppendIo) (line : Text) (placed : ℕ) (f : Files)
    → length f.current + length line ≤ max_bytes
    → Appended line f (write_line io line (placed, f))
unfolding Wrote
write_line-added io line placed f l = elim (Bool-cases (placed == error_success)) [
  | inr e ↦
      subst (Appended line f) (sym (write_line_unplaced io line placed f e))
        (nothing_added line f f placed (ground (arith, e)) refl)
  | inl e ↦
      let w : Wrote line f (write_line io line (placed, f)) =
        write_line-Wrote io line placed f ((==_iff placed 0).0 e) in
      Appended.added w.0 w.1 (
        by_status _ _ (λ h. (
          w.3 h,
          omega (arith, ap (λ (s : Text). length s) (w.3 h), length-append f.current line, l),
        )))
]

write_line-restarted :
    (io : AppendIo) (line : Text) (f : Files) (r : ℕ × Files)
    → length line ≤ max_bytes
    → max_bytes < length f.current + length line
    → Rotated f r
    → Appended line f (write_line io line r)
unfolding Wrote
write_line-restarted io line f (placed, g) l m (Rotated.failed s e) =
    subst (Appended line f) (sym (write_line_unplaced io line placed g (ground (arith, s))))
      (nothing_added line f g placed s e)
write_line-restarted io line f (placed, g) l m (Rotated.moved s e b) =
    let w : Wrote line g (write_line io line (placed, g)) = write_line-Wrote io line placed g s in
    Appended.restarted w.0 m (w.1 ∙ ap (◌++ take w.0 line) e) (w.2 ∙ b) (
      by_status _ _ (λ h.
        let k = w.3 h ∙ ap (◌++ line) e in (k, omega (arith, ap (λ (t : Text). length t) k, l))))

-- However a call of Append ends, either the current file is what it was with some of the line
-- behind it, or it and the line did not fit in one file, the current file is some of the line, and
-- the backup is the last 2 MiB of what the current file was; after a success it is the whole line,
-- in a file of at most 2 MiB.
pub append-Appended :
    (well_known : WellKnown) (worker : Bool) (io : AppendIo) (line : Text) (f : Files)
    → Appended line f (append well_known worker io line f)
unfolding append
append-Appended well_known worker io line f =
    run_calls-induct (Appended line f) f (append_calls well_known worker io line f) _
      (refl, (refl, (refl, tt))) (λ status g s e. nothing_added line f g status s e)
      (λ p. written (fits p.1.0))
  where
    fits :
        (if empty line || ltb max_bytes (length line) then error_invalid_data else error_success)
          ≡ error_success
        → length line ≤ max_bytes
    fits e = ground (arith, e)

    written :
        length line ≤ max_bytes
        → Appended line f (
            write_line io line (
              if ltb (max_bytes - length line) (length f.current)
              then rotate well_known worker io.rotate_io f
              else (call_status io.seek_end, f)))
    written l = elim (Bool-cases (ltb (max_bytes - length line) (length f.current))) [
      | inl e ↦ rw e (
          write_line-restarted io line f (rotate well_known worker io.rotate_io f) l
            (ground (arith, e, l)) (rotate-Rotated well_known worker io.rotate_io f))
      | inr e ↦ rw e (write_line-added io line (call_status io.seek_end) f (ground (arith, e, l)))
    ]
