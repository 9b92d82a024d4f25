-- ===== src/ServiceLog.antt =====
-- The log of the Windows service, windows/service/log_utils.h: `AppendUtf8LogLine`, which keeps a log
-- in UTF-8 with its mark at the start, one backup, and logs of another encoding apart.
pub mod Kept
pub mod Marked
pub mod Samples
use ligament_apps.Common.{
  ℕ, zero, suc, ◌+◌, ◌-◌, ◌*◌, ◌/◌, ◌%◌, ◌^◌, ◌≤◌, ◌<◌, String, ◌≡◌, refl, sym, ap, ◌∙◌, ◌≢◌, ◌↔◌,
  ◌⊎◌, inl, inr, Bool, true, false, ◌&&◌, ◌||◌, Option, none, some, List, [], ◌∷◌, ◌++◌, map, arith,
  ltb, leb, ◌==◌, if◌then◌else◌, not, is_some, Bool-cases, Option-cases, length, take, drop,
  get_elem?, empty, any, all,
}
use ligament_apps.Common.Text.{Text, eq_text}

-- The byte order mark of UTF-8.
abbrev pub bom : Text
bom = 0xEF ∷ 0xBB ∷ 0xBF ∷ []

-- `kMaxLogBytes`.
abbrev pub max_log_bytes : ℕ
max_log_bytes = 2097152

-- The log, its backup `.1`, and the files `.legacy`, newest first.
pub record Files : Type 0 where
  pub log : Option Text
  pub backup : Option Text
  pub legacy : List Text

-- What the calls of Windows give, in their order: the first open, the size, the line in UTF-8 (empty
-- where it has none), whether the backup is deleted and the log moved to it, the second open, the
-- bytes of the mark that are written and whether the call succeeds, whether the start is read, the log
-- moved to a legacy file, the third open, and the bytes of the line that are written.
pub record Io : Type 0 where
  pub opened : Bool
  pub sized : Bool
  pub utf8 : Text
  pub backup_deleted : Bool
  pub moved : Bool
  pub reopened : Bool
  pub bom_bytes : ℕ
  pub bom_ok : Bool
  pub start_read : Bool
  pub legacy_moved : Bool
  pub opened_again : Bool
  pub line_bytes : ℕ

abbrev pub content : Option Text → Text
content none = []
content (some s) = s

-- OPEN_ALWAYS: an absent log is made.
unfoldable pub open_log : Files → Files
open_log f = record f { log = some (content f.log) }

-- A write goes to the end of the log.
unfoldable pub write_log : Text → Files → Files
write_log s f = record f { log = some (content f.log ++ s) }

-- The files behind a part of the call, and whether the call goes on.
abbrev pub Outcome : Type 0
Outcome = Files × Bool

unfoldable pub write_bom : Io → Files → Outcome
unfolding write_log
write_bom io f = (write_log (take io.bom_bytes bom) f, io.bom_ok && leb 3 io.bom_bytes)

-- The rotation; where the log cannot be moved, it is opened again and grows.
unfoldable pub rotate : Io → Files → Outcome
unfolding write_bom open_log
rotate io f =
    let deleted = if io.backup_deleted then record f { backup = none } else f in
    let moved = record f { log = none; backup = f.log } in
    if io.moved
    then (if io.reopened then write_bom io (open_log moved) else (moved, false))
    else (if io.reopened then (open_log deleted, true) else (deleted, false))

-- A log that does not start with the mark is put apart, and a new one is begun.
unfoldable pub set_apart : Io → Files → Outcome
unfolding write_bom open_log
set_apart io f =
    let moved = record f { log = none; legacy = content f.log ∷ f.legacy } in
    if not io.legacy_moved
    then (f, false)
    else if not io.opened_again
    then (moved, false)
    else write_bom io (open_log moved)

-- The log gets its mark, if it has none. `size` is the size that the code has of it.
unfoldable pub mark : Io → ℕ → Files → Outcome
unfolding write_bom set_apart
mark io size f =
    if size == 0
    then write_bom io f
    else if not io.start_read
    then (f, false)
    else if eq_text (take 3 (content f.log)) bom
    then (f, true)
    else set_apart io f

abbrev needs_rotation : Io → Files → Bool
needs_rotation io f = ltb max_log_bytes (length (content f.log) + length io.utf8)

-- The rotation where it is due, with the size behind it: 3 where the log was moved.
unfoldable pub rotated : Io → Files → Outcome × ℕ
unfolding rotate
rotated io f =
    if needs_rotation io f
    then (rotate io f, (if io.moved then 3 else length (content f.log)))
    else ((f, true), length (content f.log))

unfoldable pub append_utf8_log_line : Io → Files → Files
unfolding open_log rotated mark write_log
append_utf8_log_line io f =
    let opened = open_log f in
    if not io.opened
    then f
    else if not io.sized || empty io.utf8
    then opened
    else let r = rotated io opened in
      if not r.0.1
      then r.0.0
      else let m = mark io r.1 r.0.0 in
        if m.1 then write_log (take io.line_bytes io.utf8) m.0 else m.0
