-- ===== src/Watchdog.antt =====
-- The loop of the service that keeps the client running, windows/service/service.cpp: `WorkerLoop`.
pub mod Service
pub mod Absent
pub mod Control
pub mod Cooldown
pub mod Ending
pub mod Stops
pub mod Samples
use ligament_apps.Common.{
  ℕ, zero, suc, ◌+◌, ◌-◌, ◌*◌, ◌/◌, ◌%◌, ◌^◌, ◌≤◌, ◌<◌, String, ◌≡◌, refl, sym, ap, ◌∙◌, ◌≢◌, ◌↔◌,
  ◌⊎◌, inl, inr, Bool, true, false, ◌&&◌, ◌||◌, Option, none, some, List, [], ◌∷◌, ◌++◌, map, arith,
  ltb, leb, ◌==◌, if◌then◌else◌, not, is_some, Bool-cases, Option-cases, length, take, drop,
  get_elem?, empty, any, all,
}

-- One session of `WTSEnumerateSessionsW`, with what the loop asks when it comes to it:
-- `AppRunningInSession` and `GetTickCount64`.
pub record Session : Type 0 where
  pub id : ℕ
  pub is_active : Bool
  pub app_running : Bool
  pub now : ℕ

-- What one round finds: `PolicyAllowExit`, the time and the age stamp of `upgrading.lock` where the
-- folder is known and the file is there (in units of 100 ns), and the sessions if they are listed.
pub record Round : Type 0 where
  pub allow_exit : Bool
  pub file_now : ℕ
  pub lock_written : Option ℕ
  pub sessions : Option (List Session)

-- `last_launch` is the map of the loop, 0 where it has no entry. `launches` are the calls of
-- `LaunchAppInSession` with their ticks, newest first; `locks_removed` counts those of `DeleteFileW`.
pub record Watchdog : Type 0 where
  pub last_launch : ℕ → ℕ
  pub launches : List (ℕ × ℕ)
  pub locks_removed : ℕ

unfoldable pub started : Watchdog
started = record { last_launch = λ _. 0; launches = []; locks_removed = 0 }

-- `kRelaunchCooldownMs`.
abbrev pub relaunch_cooldown : ℕ
relaunch_cooldown = 60000

-- `now - last` of two unsigned 64-bit ticks.
abbrev pub elapsed : ℕ → ℕ → ℕ
elapsed now last = (now + 2 ^ 64 - last) % 2 ^ 64

unfoldable pub visit : Session → Watchdog → Watchdog
visit s w =
    let last = w.last_launch s.id in
    if not s.is_active || (s.id == 0 || s.app_running)
    then w
    else if not (last == 0) && ltb (elapsed s.now last) relaunch_cooldown
    then w
    else record w {
      last_launch = λ id. if id == s.id then s.now else w.last_launch id;
      launches = (s.id, s.now) ∷ w.launches;
    }

unfoldable pub visit_all : List Session → Watchdog → Watchdog
visit_all [] w = w
visit_all (s ∷ ss) w = visit_all ss (visit s w)

-- `kMaxLockAge100ns`.
abbrev pub max_lock_age : ℕ
max_lock_age = 9000000000

abbrev pub listed : Option (List Session) → List Session
listed none = []
listed (some ss) = ss

-- One round of the loop: nothing where the client may be left, or while an update holds its lock.
unfoldable pub run_round : Round → Watchdog → Watchdog
run_round r w = if r.allow_exit then w else elim r.lock_written [
  | none ↦ visit_all (listed r.sessions) w
  | some written ↦
      if ltb written r.file_now && ltb max_lock_age (r.file_now - written)
      then visit_all (listed r.sessions) (record w { locks_removed = w.locks_removed + 1 })
      else w
]

unfoldable pub worker_loop : List Round → Watchdog → Watchdog
worker_loop [] w = w
worker_loop (r ∷ rs) w = worker_loop rs (run_round r w)
