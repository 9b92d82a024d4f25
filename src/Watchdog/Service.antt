-- ===== src/Watchdog/Service.antt =====
-- What the loop of windows/service/service.cpp asks in a round: `PolicyAllowExit`, `InstalledAppPath`,
-- `AppRunningInSession` and `LaunchAppInSession`.
use ligament_apps.Common.{
  ℕ, ◌+◌, Bool, true, false, ◌&&◌, ◌||◌, Option, none, some, List, [], ◌++◌, ltb, leb, ◌==◌,
  if◌then◌else◌, not, length, take, empty, any,
}
use ligament_apps.Common.Text.{Text, codes, eq_icase, find_last_if}
use ligament_apps.Watchdog.{Session}

-- The value `AllowExit` of a key that is opened, where it is read: its type and its number.
abbrev pub PolicyKey : Type 0
PolicyKey = Option (Option (ℕ × ℕ))

-- The number of a value of the type REG_DWORD, which is 4.
unfoldable pub dword_of : PolicyKey → Option ℕ
dword_of none = none
dword_of (some none) = none
dword_of (some (some (kind, value))) = if kind == 4 then some value else none

-- The policy's key first, then the local one; no value allows the exit.
unfoldable pub policy_allow_exit : PolicyKey → PolicyKey → Bool
unfolding dword_of
policy_allow_exit policy_key local_key = elim (dword_of policy_key) [
  | some value ↦ not (value == 0)
  | none ↦ elim (dword_of local_key) [ some value ↦ not (value == 0) | none ↦ true ]
]

-- `kAppExe`.
abbrev pub app_exe : Text
app_exe = codes "ligament_authenticator.exe"

-- What `GetModuleFileNameW` gives, if it is known, is shorter than MAX_PATH and has a backslash: the
-- application beside it. `none` where it does not fit in MAX_PATH, which ends the service.
unfoldable pub installed_app_path : Text → Option Text
installed_app_path exe_path =
    if empty exe_path || leb 260 (length exe_path)
    then some []
    else elim (find_last_if (λ c. c == 92) exe_path) [
      | none ↦ some []
      | some slash ↦
          let app_path = take (slash + 1) exe_path ++ app_exe in
          if ltb (length app_path) 260 then some app_path else none
    ]

-- A process of the snapshot: its file's name, its session, and the path of its image, where Windows
-- opens the process and tells.
pub record Process : Type 0 where
  pub exe_file : Text
  pub session : Option ℕ
  pub image_path : Option Text

abbrev in_session : ℕ → Option ℕ → Bool
in_session id none = false
in_session id (some n) = n == id

abbrev at_path : (ℕ → ℕ) → Text → Option Text → Bool
at_path fold path none = false
at_path fold path (some image) = eq_icase fold image path

-- The process is the installed application, in this session. `fold` is the C runtime's case folding.
unfoldable pub is_installed_app : (ℕ → ℕ) → Text → ℕ → Process → Bool
is_installed_app fold path id p =
    eq_icase fold p.exe_file app_exe && (in_session id p.session && at_path fold path p.image_path)

-- Windows, as a visit of a session meets it: no snapshot is `none`.
pub record Machine : Type 0 where
  pub exe_path : Text
  pub snapshot : Option (List Process)
  pub has_token : Bool
  pub created : Bool
  pub fold : ℕ → ℕ

-- Where nothing is known, the application counts as running.
unfoldable pub app_running_in_session : Machine → ℕ → Option Bool
unfolding installed_app_path is_installed_app
app_running_in_session m id = elim (installed_app_path m.exe_path) [
  | none ↦ none
  | some path ↦ if empty path then some true else elim m.snapshot [
    | none ↦ some true
    | some ps ↦ some (any (is_installed_app m.fold path id) ps)
  ]
]

-- The command line of the new process, and whether it was made; `none` where none is tried.
unfoldable pub launch_app_in_session : Machine → Option (Text × Bool)
unfolding installed_app_path
launch_app_in_session m = if not m.has_token then none else elim (installed_app_path m.exe_path) [
  | none ↦ none
  | some path ↦
      if empty path then none else some (codes "\"" ++ (path ++ codes "\" --minimized"), m.created)
]

-- A session as the loop sees it, where the service is not ended.
unfoldable pub seen_session : Machine → ℕ → Bool → ℕ → Option Session
unfolding app_running_in_session
seen_session m id is_active now = elim (app_running_in_session m id) [
  | none ↦ none
  | some running ↦
      some (record { id = id; is_active = is_active; app_running = running; now = now })
]
