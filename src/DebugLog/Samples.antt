-- ===== src/DebugLog/Samples.antt =====
-- A worker that writes a record into an empty log.
use ligament_apps.Common.{
  ℕ, ◌≤◌, ◌≡◌, refl, ◌↔◌, ◌⊎◌, inr, Bool, true, false, none, some, List, [], ◌∷◌, length,
}
use ligament_apps.Common.Text.{Text, codes, decimal, eq_text}
use ligament_apps.Common.Integers.{pos}
use ligament_apps.DebugLog.{
  valid_context, valid_token, valid_tokens, valid_context_value, valid_number,
}
use ligament_apps.DebugLog.Context.{valid_context_iff, render, all_valid}
use ligament_apps.DebugLog.Access.{
  SecurityUse, Ace, Object, WellKnown, error_success, Repair, check_handle, check_once,
  check_security, check_owner, decide_security, audit_acl, audit_ace, safe_parent_allow, are_within,
  is_log_directory,
}
use ligament_apps.DebugLog.Refine.{IsGuarded, check_handle-IsGuarded}
use ligament_apps.DebugLog.File.{
  max_bytes, call_status, write_from, write_all, RotateIo, Files, AppendIo, open_status,
  opened_status, write_line, append, run_calls, Moved,
}
use ligament_apps.DebugLog.Appended.{Appended, append-Appended}
use ligament_apps.DebugLog.Line.{
  Fields, ZoneState, line_of, line_prefix, padded, zone_offset, resolved_level, valid_fields,
}
use ligament_apps.DebugLog.State.{
  Log, LogMode, Registry, Surroundings, write, append_fields, read_enabled, event_only,
}
use ligament_apps.DebugLog.Written.{AreLines, write-AreLines}

abbrev context : Text
context = codes "attempt=2 state=open"

accepted : valid_context context ≡ true
unfolding valid_context valid_tokens valid_token valid_context_value valid_number eq_text
accepted = refl

valid_context_iff_example : (valid_context context ≡ true) ↔ (
    (fs : List (Text × Text)) × (length context ≤ 4096)
    × (length fs ≤ 64)
    × (context ≡ render fs)
    × (all_valid fs ≡ true))
valid_context_iff_example = valid_context_iff context

abbrev system_sid : Text
system_sid = codes "S-1-5-18"

abbrev admin_sid : Text
admin_sid = codes "S-1-5-32-544"

abbrev sids : WellKnown
sids = inr (system_sid, admin_sid)

-- An entry that allows everything.
abbrev full : Text → Ace
full sid = record {
  ace_type = 0;
  flags = 3;
  size = 24;
  mask = 2032127;
  sid_size = 16;
  sid_valid = true;
  sid = sid;
}

abbrev guarded : Bool → Object
guarded directory = record {
  information = inr (false, directory, 1);
  security_status = 0;
  security = record {
    descriptor_valid = true;
    dacl_present = true;
    dacl_protected = true;
    acl = some (some (full system_sid) ∷ some (full admin_sid) ∷ []);
    owner = some system_sid;
  };
}

handle_accepted : check_handle sids true SecurityUse.log_file (guarded false) none ≡ error_success
unfolding check_handle check_once check_security check_owner decide_security audit_acl audit_ace
    safe_parent_allow are_within eq_text
handle_accepted = refl

check_handle-IsGuarded_example :
    IsGuarded sids SecurityUse.log_file (guarded false)
    ⊎ ((r : Repair) × (none ≡ some r)
        × (is_log_directory SecurityUse.log_file ≡ true)
        × IsGuarded sids SecurityUse.log_file r.1)
check_handle-IsGuarded_example =
    check_handle-IsGuarded sids SecurityUse.log_file (guarded false) none handle_accepted

-- Each call succeeds, and one moves all that is left.
abbrev moving : ℕ → Moved
moving call = inr 4096

abbrev rotating : RotateIo
rotating = record {
  backup = inr (guarded false);
  seek_backup = none;
  truncate_backup = none;
  seek_current = none;
  reads = moving;
  writes = λ _. moving;
  flush_backup = none;
  seek_start = none;
  truncate_current = none;
}

abbrev appending : AppendIo
appending = record {
  has_paths = true;
  convert_descriptor = none;
  has_dacl = true;
  create_app = none;
  app = inr (guarded true);
  create_directory = none;
  directory = inr (guarded true);
  repair = (0, guarded true);
  current = inr (guarded false);
  get_size = none;
  rotate_io = rotating;
  seek_end = none;
  writes = moving;
  flush = none;
}

abbrev empty_files : Files
empty_files = record { current = []; backup = [] }

append-Appended_example :
    Appended (codes "line") empty_files (append sids true appending (codes "line") empty_files)
append-Appended_example = append-Appended sids true appending (codes "line") empty_files

abbrev log : Log
log = record {
  log_mode = LogMode.link_host;
  initialized = true;
  base_path = codes "C:";
  file_name = codes "link-debug.log";
  log_path = codes "C:\\Ligament\\Logs\\link-debug.log";
}

-- The log is switched on for the machine.
abbrev registry : Registry
registry root key = some 1

abbrev surroundings : Surroundings
surroundings = record {
  well_known = sids;
  io = appending;
  now = record {
    year = 2026;
    month = 1;
    day = 2;
    hour = 3;
    minute = 4;
    second = 5;
    milliseconds = 6;
    zone_state = ZoneState.unknown;
    bias = pos 0;
    daylight_bias = pos 0;
    standard_bias = pos 0;
    pid = 7;
    tid = 8;
  };
  version = none;
}

abbrev start_event : Fields
start_event = event_only (codes "link.started")

done : (write log registry none surroundings start_event empty_files).0 ≡ error_success
unfolding write read_enabled append_fields append run_calls open_status opened_status call_status
    check_handle check_once check_security check_owner decide_security audit_acl audit_ace
    safe_parent_allow are_within write_line write_all write_from line_of line_prefix padded
    zone_offset resolved_level decimal valid_context valid_tokens eq_text
done = refl

write-AreLines_example :
    (valid_fields start_event ≡ true)
    × (read_enabled log registry none ≡ true)
    × AreLines (write log registry none surroundings start_event empty_files).1.current
    × (length (write log registry none surroundings start_event empty_files).1.current ≤ max_bytes)
write-AreLines_example =
    write-AreLines log registry none surroundings start_event empty_files AreLines.no_lines done
