-- ===== src/DebugLog/Written.antt =====
-- What `Write` of windows/runner/debug_log.cpp leaves in the log.
use ligament_apps.Common.{
  ℕ, ◌≤◌, ◌≡◌, refl, sym, ◌⊎◌, inl, inr, true, false, Option, [], ◌++◌, arith, Bool-cases, length,
}
use mathlib.Core.List.{append_assoc, append-nil}
use mathlib.Core.Path.{subst}
use ligament_apps.Common.Text.{Text}
use ligament_apps.DebugLog.Access.{error_success}
use ligament_apps.DebugLog.File.{AppendIo, Files, max_bytes, append}
use ligament_apps.DebugLog.Line.{Fields, line_of, valid_fields}
use ligament_apps.DebugLog.Printable.{IsLine, line_of-IsLine}
use ligament_apps.DebugLog.Appended.{Appended, append-Appended}
use ligament_apps.DebugLog.State.{
  Log, Registry, Token, Surroundings, write, append_fields, read_enabled, error_invalid_parameter,
  error_not_ready, placed_io, is_worker_mode,
}

-- A log of whole lines.
pub data AreLines : Text → Type 0 where
  no_lines : AreLines []
  line_then : (line rest : Text) → IsLine line → AreLines rest → AreLines (line ++ rest)

AreLines-append : (s line : Text) → AreLines s → IsLine line → AreLines (s ++ line)
AreLines-append s line AreLines.no_lines l =
    subst AreLines (append-nil line) (AreLines.line_then line [] l AreLines.no_lines)
AreLines-append s line (AreLines.line_then first rest l r) k =
    subst AreLines (sym (append_assoc first rest line))
      (AreLines.line_then first (rest ++ line) l (AreLines-append rest line r k))

line_or_nothing : (s line : Text) → AreLines s → (line ≡ []) ⊎ IsLine line → AreLines (s ++ line)
line_or_nothing s line a (inl e) =
    subst (λ t. AreLines (s ++ t)) (sym e) (subst AreLines (sym (append-nil s)) a)
line_or_nothing s line a (inr l) = AreLines-append s line a l

-- A call that leaves whole lines in a file within its bound, if it is a success.
abbrev LeavesLines : ℕ × Files → Type 0
LeavesLines r = r.0 ≡ error_success → AreLines r.1.current × (length r.1.current ≤ max_bytes)

Appended-LeavesLines :
    (line : Text) (f : Files) (r : ℕ × Files)
    → AreLines f.current
    → (line ≡ []) ⊎ IsLine line
    → Appended line f r
    → LeavesLines r
Appended-LeavesLines line f r a l (Appended.added n e (inl s)) h = absurd (s h)
Appended-LeavesLines line f r a l (Appended.added n e (inr (k, m))) h =
    (subst AreLines (sym k) (line_or_nothing f.current line a l), m)
Appended-LeavesLines line f r a l (Appended.restarted n o e b (inl s)) h = absurd (s h)
Appended-LeavesLines line f r a l (Appended.restarted n o e b (inr (k, m))) h =
    (subst AreLines (sym k) (line_or_nothing [] line AreLines.no_lines l), m)

module _ (log : Log) (registry : Registry) (token : Option Token) (s : Surroundings)
    (fields : Fields) (f : Files) where
  abbrev written : ℕ × Files
  written = write log registry token s fields f

  write_invalid : valid_fields fields ≡ false → written.0 ≡ error_invalid_parameter
  unfolding write
  write_invalid v = rw (v, write) refl

  write_disabled :
      valid_fields fields ≡ true
      → read_enabled log registry token ≡ false
      → written.0 ≡ error_not_ready
  unfolding write
  write_disabled v e = rw (v, e, write) refl

  write_appends :
      valid_fields fields ≡ true
      → read_enabled log registry token ≡ true
      → written
        ≡ append s.well_known
            (is_worker_mode log.log_mode)
            (placed_io log s.io)
            (line_of s.now s.version fields)
            f
  unfolding write append_fields
  write_appends v e = rw (v, e, write, append_fields) refl

-- Where Write returns a success, its arguments are valid and the log is switched on, and a current
-- file of whole lines, each printable with one CR LF at its end, is again such a file, of at most
-- 2 MiB.
pub write-AreLines :
    (log : Log) (registry : Registry) (token : Option Token) (s : Surroundings) (fields : Fields)
    (f : Files)
    → AreLines f.current
    → (write log registry token s fields f).0 ≡ error_success
    → (valid_fields fields ≡ true)
      × (read_enabled log registry token ≡ true)
      × AreLines (write log registry token s fields f).1.current
      × (length (write log registry token s fields f).1.current ≤ max_bytes)
write-AreLines log registry token s fields f a h = elim (Bool-cases (valid_fields fields)) [
  | inr v ↦ absurd (omega (arith, write_invalid log registry token s fields f v, h))
  | inl v ↦ elim (Bool-cases (read_enabled log registry token)) [
    | inr e ↦ absurd (omega (arith, write_disabled log registry token s fields f v e, h))
    | inl e ↦
        let line : Text = line_of s.now s.version fields in
        let io : AppendIo = placed_io log s.io in
        let leaves : LeavesLines (write log registry token s fields f) =
          subst LeavesLines (sym (write_appends log registry token s fields f v e)) (
            Appended-LeavesLines line f _ a (line_of-IsLine s.now s.version fields v)
              (append-Appended s.well_known (is_worker_mode log.log_mode) io line f)) in
        (v, e, (leaves h).0, (leaves h).1)
  ]
]
