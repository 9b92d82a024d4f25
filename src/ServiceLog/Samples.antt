-- ===== src/ServiceLog/Samples.antt =====
-- A log of another encoding, and a full one that cannot be moved.
use ligament_apps.Common.{◌≡◌, refl, inr, true, false, Option, none, some, [], ◌∷◌, ◌++◌}
use ligament_apps.Common.Text.{Text, codes, eq_text}
use ligament_apps.ServiceLog.{bom, Files, Io, rotate, append_utf8_log_line}
use ligament_apps.ServiceLog.Kept.{KeepsLog, append-KeepsLog}
use ligament_apps.ServiceLog.Marked.{HasMark, append-HasMark}

abbrev line : Text
line = codes "line"

abbrev all_well : Io
all_well = record {
  opened = true;
  sized = true;
  utf8 = line;
  backup_deleted = true;
  moved = true;
  reopened = true;
  bom_bytes = 3;
  bom_ok = true;
  start_read = true;
  legacy_moved = true;
  opened_again = true;
  line_bytes = 4;
}

abbrev files_with : Option Text → Files
files_with log = record { log = log; backup = some (codes "old"); legacy = [] }

abbrev foreign : Files
foreign = files_with (some (codes "foreign"))

foreign_is_set_apart : append_utf8_log_line all_well foreign ≡ record {
  log = some (bom ++ line);
  backup = some (codes "old");
  legacy = codes "foreign" ∷ [];
}
unfolding append_utf8_log_line eq_text
foreign_is_set_apart = refl

-- The log is held by another program when it is to be moved: the backup is deleted all the same.
abbrev held : Io
held = record all_well { moved = false }

held_loses_backup :
    (rotate held (files_with (some bom))).0 ≡ record (files_with (some bom)) { backup = none }
unfolding rotate
held_loses_backup = refl

append-KeepsLog_example : KeepsLog foreign (append_utf8_log_line all_well foreign)
append-KeepsLog_example = append-KeepsLog all_well foreign

append-HasMark_example : HasMark (append_utf8_log_line all_well (files_with (some (bom ++ line))))
append-HasMark_example =
    append-HasMark all_well (files_with (some (bom ++ line))) (inr (line, refl))
