-- ===== src/DebugLog/Kept.antt =====
-- What a call of `Append` of windows/runner/debug_log.cpp leaves of the log, however it ends.
use ligament_apps.Common.{
  ℕ, zero, suc, ◌+◌, ◌-◌, ◌≤◌, ◌≡◌, sym, ap, ◌∙◌, inl, inr, [], ◌∷◌, ◌++◌, arith, ◌==◌, Bool-cases,
  length, take, drop,
}
use mathlib.Core.List.{append-nil, append_assoc}
use ligament_apps.Common.Lists.{take-append-drop, length-drop, take-take}
use ligament_apps.Common.Tests.{⊎-cases, ==_iff}
use ligament_apps.Common.Text.{Text}
use ligament_apps.DebugLog.Refine.{win32_failure_fails}
use ligament_apps.DebugLog.Access.{error_success}
use ligament_apps.DebugLog.File.{max_bytes, Moved, write_from, write_all, RotateIo, copy_from, min}

-- The end of a file that the backup has room for.
abbrev pub last_bytes : Text → Text
last_bytes s = drop (length s - max_bytes) s

-- A file took the first part of the bytes, and all of it where the status is a success.
abbrev pub Took : Text → Text → ℕ × Text → Type 0
Took bytes file r =
    (n : ℕ) × (r.1 ≡ file ++ take n bytes) × (r.0 ≡ error_success → r.1 ≡ file ++ bytes)

took_nothing : (file : Text) → file ≡ file ++ []
took_nothing file = sym (append-nil file)

Took-cons :
    (c : ℕ) (s file : Text) (n : ℕ) (r : ℕ × Text)
    → Took (drop (suc n) (c ∷ s)) (file ++ take (suc n) (c ∷ s)) r
    → Took (c ∷ s) file r
Took-cons c s file n r (m, e, f) = (
  suc n + m,
  e
      ∙ append_assoc file (take (suc n) (c ∷ s)) (take m (drop (suc n) (c ∷ s)))
      ∙ ap (file ++◌) (take-take (suc n) m (c ∷ s)),
  (λ h.
      f h
      ∙ append_assoc file (take (suc n) (c ∷ s)) (drop (suc n) (c ∷ s))
      ∙ ap (file ++◌) (take-append-drop (suc n) (c ∷ s))),
)

write_from-Took :
    (writes : ℕ → Moved) (fuel call : ℕ) (bytes file : Text)
    → length bytes ≤ fuel
    → Took bytes file (write_from writes fuel call bytes file)
unfolding write_from
write_from-Took writes zero call [] file l = (0, took_nothing file, (λ h. took_nothing file))
write_from-Took writes zero call (c ∷ s) file l = absurd (omega arith)
write_from-Took writes (suc fuel) call [] file l = (0, took_nothing file, (λ h. took_nothing file))
write_from-Took writes (suc fuel) call (c ∷ s) file l = elim (⊎-cases (writes call)) [
  | inl (error, e) ↦
      rw (e, write_from) (0, took_nothing file, (λ h. absurd (win32_failure_fails error h)))
  | inr (zero, e) ↦ rw (e, write_from) (0, took_nothing file, (λ h. absurd (omega (arith, h))))
  | inr (suc n, e) ↦
      rw (e, write_from)
        (Took-cons c s file n _ (
          write_from-Took writes fuel (suc call) (drop (suc n) (c ∷ s))
            (file ++ take (suc n) (c ∷ s)) (omega (arith, length-drop n s))))
]

pub write_all-Took :
    (writes : ℕ → Moved) (bytes file : Text) → Took bytes file (write_all writes bytes file)
unfolding write_all
write_all-Took writes bytes file = write_from-Took writes (length bytes) 0 bytes file (omega arith)

copy_from-step :
    (source backup written : Text) (remaining count : ℕ)
    → count ≤ remaining
    → written ≡ backup ++ take count source
    → written ++ take (remaining - count) (drop count source) ≡ backup ++ take remaining source
copy_from-step source backup written remaining count l e =
    ap (◌++ take (remaining - count) (drop count source)) e
    ∙ append_assoc backup (take count source) (take (remaining - count) (drop count source))
    ∙ ap (backup ++◌) (take-take count (remaining - count) source)
    ∙ ap (λ k. backup ++ take k source) (omega (arith, l))

nothing_left :
    (remaining : ℕ) (source backup : Text)
    → remaining ≤ 0
    → backup ≡ backup ++ take remaining source
nothing_left zero source backup l = took_nothing backup
nothing_left (suc n) source backup l = absurd (omega (arith, l))

-- A copy that succeeds adds what was to be copied.
abbrev Copied : ℕ → Text → Text → ℕ × Text → Type 0
Copied remaining source backup r = r.0 ≡ error_success → r.1 ≡ backup ++ take remaining source

pub copy_from-Copied :
    (io : RotateIo) (fuel chunk remaining : ℕ) (source backup : Text)
    → remaining ≤ fuel
    → Copied remaining source backup (copy_from io fuel chunk remaining source backup)
unfolding copy_from
copy_from-Copied io zero chunk remaining source backup l =
    λ h. nothing_left remaining source backup l
copy_from-Copied io (suc fuel) chunk remaining source backup l =
    elim (Bool-cases (remaining == 0)) [
      | inl e ↦ rw (e, copy_from) (λ h. nothing_left remaining source backup (ground (arith, e)))
      | inr e ↦ elim (⊎-cases (io.reads chunk)) [
        | inl (error, f) ↦ rw (e, f, copy_from) (λ h. absurd (win32_failure_fails error h))
        | inr (zero, f) ↦ rw (e, f, copy_from) (λ h. absurd (omega (arith, h)))
        | inr (suc n, f) ↦
            let count : ℕ = min (suc n) (min remaining 16384) in
            let out : ℕ × Text = write_all (io.writes chunk) (take count source) backup in
            elim (Bool-cases (out.0 == error_success)) [
              | inl g ↦
                  rw (e, f, g, copy_from)
                    (λ h.
                      copy_from-Copied io fuel (suc chunk) (remaining - count) (drop count source)
                        out.1 (ground (arith, e, l)) h
                      ∙ copy_from-step source backup out.1 remaining count (ground (arith, e, l)) (
                          (write_all-Took (io.writes chunk) (take count source) backup).2
                            ((==_iff out.0 0).0 g)))
              | inr g ↦ rw (e, f, g, copy_from) (λ h. absurd (ground (arith, g, h)))
            ]
      ]
    ]
