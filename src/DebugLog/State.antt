-- ===== src/DebugLog/State.antt =====
-- The state of the debug log and the calls on it: `Initialize`, `GetState`, `IsWorker`, `SetEnabled`
-- and `Write` of windows/runner/debug_log.cpp. The registry, the token of the session's user and the
-- known folders are parameters.
use ligament_apps.Common.{
  ℕ, ◌*◌, Bool, true, false, ◌&&◌, ◌||◌, Option, none, some, [], ◌++◌, ltb, ◌==◌, if◌then◌else◌,
  not, empty,
}
use ligament_apps.Common.Text.{Text, codes}
use ligament_apps.DebugLog.Access.{WellKnown, error_success, error_access_denied}
use ligament_apps.DebugLog.File.{AppendIo, Files, append}
use ligament_apps.DebugLog.Line.{Clock, Fields, line_of, valid_fields}

pub data LogMode : Type 0 where
  gui link_host : LogMode

abbrev pub is_worker_mode : LogMode → Bool
is_worker_mode LogMode.gui = false
is_worker_mode LogMode.link_host = true

-- The variables of the module. A path that is not known is empty.
pub record Log : Type 0 where
  pub log_mode : LogMode
  pub initialized : Bool
  pub base_path : Text
  pub file_name : Text
  pub log_path : Text

pub data Root : Type 0 where
  local_machine current_user users : Root

-- `RegGetValueW` for the DWORD `DebugLogsEnabled`, by the key's root and path.
abbrev pub Registry : Type 0
Registry = Root → Text → Option ℕ

-- The token of the session's user: the room that it asks for and its user's SID as text, where the
-- calls succeed.
pub record Token : Type 0 where
  pub need : ℕ
  pub sid : Option Text

abbrev pub settings_key : Text
settings_key = codes "Software\\Ligament\\2FA"

-- `ReadRegistry(root, key)`.
abbrev pub read_registry : Registry → Root → Text → Bool
read_registry registry root key = elim (registry root key) [ none ↦ false | some n ↦ n == 1 ]

-- `ReadEnabled`, with the token that `WTSQueryUserToken` gives.
unfoldable pub read_enabled : Log → Registry → Option Token → Bool
read_enabled log registry token =
    if not log.initialized
    then false
    else if read_registry registry Root.local_machine settings_key
    then true
    else if not (is_worker_mode log.log_mode)
    then read_registry registry Root.current_user settings_key
    else elim token [
      | none ↦ false
      | some t ↦ if t.need == 0 || ltb (64 * 1024) t.need then false else elim t.sid [
        | none ↦ false
        | some sid ↦ read_registry registry Root.users (sid ++ (codes "\\" ++ settings_key))
      ]
    ]

-- `Initialize(mode)`; `folder` is `SHGetKnownFolderPath` of the folder for the mode.
unfoldable pub initialize_log : (LogMode → Option Text) → LogMode → Log → Log
initialize_log folder mode log =
    let file_name = if is_worker_mode mode then codes "link-debug.log" else codes "app-debug.log" in
    let unplaced : Log = record {
      log_mode = mode;
      initialized = true;
      base_path = [];
      file_name = file_name;
      log_path = [];
    } in
    elim (folder mode) [
      | none ↦ unplaced
      | some base ↦ record unplaced {
        base_path = base;
        log_path = base ++ (codes "\\Ligament\\Logs\\" ++ file_name);
      }
    ]

-- `GetState()`: the switch, and the path by a conversion to UTF-8.
unfoldable pub get_state : (Text → Text) → Log → Registry → Option Token → Bool × Text
unfolding read_enabled
get_state to_utf8 log registry token = (read_enabled log registry token, to_utf8 log.log_path)

unfoldable pub is_worker : Log → Bool
is_worker log = is_worker_mode log.log_mode

abbrev pub error_invalid_parameter : ℕ
error_invalid_parameter = 87

abbrev pub error_not_ready : ℕ
error_not_ready = 21

-- What a call of `Append` has of its surroundings. Its test of the paths is that of the log's.
pub record Surroundings : Type 0 where
  pub well_known : WellKnown
  pub io : AppendIo
  pub now : Clock
  pub version : Option Text

abbrev pub placed_io : Log → AppendIo → AppendIo
placed_io log io = record io { has_paths = not (empty log.base_path || empty log.log_path) }

unfoldable pub append_fields : Log → Surroundings → Fields → Files → ℕ × Files
unfolding append line_of
append_fields log s fields f =
    append s.well_known (is_worker_mode log.log_mode) (placed_io log s.io)
      (line_of s.now s.version fields) f

-- `Write`, its diagnostic code; the call's result is whether that is a success.
unfoldable pub write : Log → Registry → Option Token → Surroundings → Fields → Files → ℕ × Files
unfolding read_enabled append_fields
write log registry token s fields f =
    if not (valid_fields fields)
    then (error_invalid_parameter, f)
    else if not (read_enabled log registry token)
    then (error_not_ready, f)
    else append_fields log s fields f

-- The record of an event with no other argument.
abbrev pub event_only : Text → Fields
event_only event = record {
  event = event;
  error_type = [];
  error_code = [];
  os_error = none;
  context = [];
  level = [];
}

-- The registry after `DebugLogsEnabled` of the current user is set.
abbrev pub with_setting : Registry → ℕ → Registry
with_setting registry n Root.current_user key = some n
with_setting registry n root key = registry root key

pub record SetResult : Type 0 where
  pub status : ℕ
  pub registry : Registry
  pub files : Files

-- `SetEnabled(enabled)`, by the statuses of creating the key and of setting the value.
unfoldable pub set_enabled :
    Log → Registry → Option Token → Surroundings → Bool → ℕ → ℕ → Files → SetResult
unfolding read_enabled append_fields
set_enabled log registry token s enabled create_status set_status f =
    let after = with_setting registry (if enabled then 1 else 0) in
    let previously_enabled = read_enabled log registry token in
    let refused : ℕ → SetResult =
      λ status. record { status = status; registry = registry; files = f } in
    if not log.initialized || is_worker_mode log.log_mode
    then refused error_access_denied
    else if not (create_status == error_success)
    then refused create_status
    else if not (set_status == error_success)
    then refused set_status
    else record {
      status = error_success;
      registry = after;
      files =
          if enabled && read_enabled log after token
          then (append_fields log s (event_only (codes "debug.enabled")) f).1
          else if not enabled && previously_enabled
          then (append_fields log s (event_only (codes "debug.disabled")) f).1
          else f;
    }
