-- ===== src/Watchdog/Samples.antt =====
-- Three rounds with a session whose client is missing.
use ligament_apps.Common.{ℕ, ◌≡◌, refl, true, false, none, some, List, [], ◌∷◌, arith, inl, ◌↔◌}
use ligament_apps.Common.{◌+◌, ◌≤◌, ◌&&◌, leb, if◌then◌else◌}
use ligament_apps.Common.Text.{codes, eq_icase}
use ligament_apps.Watchdog.Service.{
  Machine, app_running_in_session, launch_app_in_session, seen_session, policy_allow_exit,
}
use ligament_apps.Watchdog.Control.{
  System, Service, Event, main_step, handler_step, arrives, stop, waiting, done, idle, is_running,
  start_pending, open_event, not_started, tell, svc_main, service_step, run_service,
}
use ligament_apps.Watchdog.Stops.{run_service-done}
use ligament_apps.Watchdog.Absent.{IsDue, seen_session-IsDue}
use ligament_apps.Watchdog.{Session, Round, started, worker_loop, run_round, visit_all, visit}
use ligament_apps.Watchdog.Cooldown.{AreSpaced, worker_loop-AreSpaced}

abbrev round_at : ℕ → Round
round_at now = record {
  allow_exit = false;
  file_now = 0;
  lock_written = none;
  sessions = some (record { id = 2; is_active = true; app_running = false; now = now } ∷ []);
}

abbrev rounds : List Round
rounds = round_at 15000 ∷ round_at 30000 ∷ round_at 90000 ∷ []

rounds_launch : (worker_loop rounds started).launches ≡ (2, 90000) ∷ (2, 15000) ∷ []
unfolding worker_loop run_round visit_all visit started
rounds_launch = refl

worker_loop-AreSpaced_example : AreSpaced (worker_loop rounds started).launches
worker_loop-AreSpaced_example = worker_loop-AreSpaced rounds (
  (omega arith, omega arith, tt),
  ((omega arith, omega arith, tt), ((omega arith, omega arith, tt), tt)),
)

-- The session has the client of another user only.
abbrev folded : ℕ → ℕ
folded c = if leb b'A' c && leb c b'Z' then c + 32 else c

abbrev machine : Machine
machine = record {
  exe_path = codes "C:\\L\\service.exe";
  snapshot = some (
      record {
        exe_file = codes "Ligament_Authenticator.exe";
        session = some 1;
        image_path = some (codes "c:\\l\\ligament_authenticator.exe");
      }
      ∷ []);
  has_token = true;
  created = true;
  fold = folded;
}

running_in_its_session : app_running_in_session machine 1 ≡ some true
unfolding app_running_in_session eq_icase
running_in_its_session = refl

launched_with :
    launch_app_in_session machine
    ≡ some (codes "\"C:\\L\\ligament_authenticator.exe\" --minimized", true)
unfolding launch_app_in_session
launched_with = refl

abbrev seen : Session
seen = record { id = 2; is_active = true; app_running = false; now = 15000 }

seen_now : seen_session machine 2 true 15000 ≡ some seen
unfolding seen_session eq_icase
seen_now = refl

seen_launches : (visit seen started).launches ≡ (2, 15000) ∷ started.launches
unfolding visit started
seen_launches = refl

seen_session-IsDue_example :
    (s : Session) × (seen_session machine 2 true 15000 ≡ some s)
    × (((visit s started).launches ≡ (2, 15000) ∷ started.launches)
        ↔ IsDue machine (codes "C:\\L") 2 true 15000 started)
seen_session-IsDue_example =
    seen_session-IsDue machine (codes "C:\\L") (codes "service.exe") 2 15000 true started refl refl
      (omega arith) (omega arith)

-- Without a value in the policy's key the local one counts.
local_forbids : policy_allow_exit (some none) (some (some (4, 0))) ≡ false
unfolding policy_allow_exit
local_forbids = refl

-- The service is started, and is stopped while its loop waits.
abbrev system : System
system = record { registers = true; makes_event = true }

abbrev serving : Service
serving = record {
  place = waiting;
  handling = idle;
  state = is_running;
  event = open_event false;
  told = is_running ∷ start_pending ∷ [];
  rounds = 0;
}

abbrev six : List Event
six = main_step ∷ main_step ∷ main_step ∷ main_step ∷ main_step ∷ main_step ∷ []

started_serves : run_service system six not_started ≡ serving
unfolding run_service service_step svc_main tell
started_serves = refl

abbrev handled : List Event
handled = handler_step ∷ main_step ∷ handler_step ∷ handler_step ∷ []

run_service-done_example :
    ((run_service system six (run_service system (arrives stop ∷ handled) serving)).place ≡ done)
    × ((run_service system six (run_service system (arrives stop ∷ handled) serving)).rounds
        ≤ (run_service system (arrives stop ∷ handled) serving).rounds + 1)
run_service-done_example =
    run_service-done system serving stop handled six (refl, omega arith, omega arith, refl)
      (inl refl) (omega arith) (omega arith)
