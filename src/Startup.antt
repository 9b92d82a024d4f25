-- ===== src/Startup.antt =====
-- The start of the desktop application, windows/runner/main.cpp: its arguments, the single instance,
-- and the way to the message loop. Windows is the record `Windows`.
pub mod Single
pub mod Kills
pub mod Samples
use ligament_apps.Common.{
  ℕ, zero, suc, ◌+◌, ◌-◌, ◌*◌, ◌/◌, ◌%◌, ◌^◌, ◌≤◌, ◌<◌, String, ◌≡◌, refl, sym, ap, ◌∙◌, ◌≢◌, ◌↔◌,
  ◌⊎◌, inl, inr, Bool, true, false, ◌&&◌, ◌||◌, Option, none, some, List, [], ◌∷◌, ◌++◌, map, arith,
  ltb, leb, ◌==◌, if◌then◌else◌, not, is_some, Bool-cases, Option-cases, length, take, drop,
  get_elem?, empty, any, all,
}
use ligament_apps.Common.Text.{Text, codes, eq_text, eq_icase, starts_with, find_text}

-- What the arguments ask for.
pub record Options : Type 0 where
  pub link_host_worker : Bool
  pub start_minimized : Bool
  pub autoshare : Bool

abbrev link_host_argument : Text → Bool
link_host_argument a = starts_with (codes "--link-host=") a

abbrev autoshare_argument : Text → Bool
autoshare_argument a = starts_with (codes "--autoshare=") a

unfoldable pub read_options : List Text → Options
unfolding eq_text
read_options arguments = record {
  link_host_worker = any link_host_argument arguments;
  start_minimized = any (λ a. eq_text a (codes "--minimized") || autoshare_argument a) arguments;
  autoshare = any autoshare_argument arguments;
}

-- A top-level window: its handle, class and title.
pub record Window : Type 0 where
  pub handle : ℕ
  pub class_name : Text
  pub title : Text

-- A process of the snapshot, and whether Windows opens it to end it.
pub record Process : Type 0 where
  pub exe_file : Text
  pub id : ℕ
  pub opens : Bool

-- What `CreateMutexW` makes, and the last error behind it; 183 is ERROR_ALREADY_EXISTS.
pub record MutexResult : Type 0 where
  pub made : Bool
  pub error : ℕ

-- Windows, in the order of the calls. `titled` and `old_titled` are what `FindWindowW` finds; `ended` is
-- what ends the message loop, 0 or -1.
pub record Windows : Type 0 where
  pub com_ready : Bool
  pub first_mutex : MutexResult
  pub titled : Option ℕ
  pub old_titled : Option ℕ
  pub windows : List Window
  pub responds : Bool
  pub current_pid : ℕ
  pub snapshot : Option (List Process)
  pub second_mutex : MutexResult
  pub window_made : Bool
  pub loop_failed : Bool
  pub fold : ℕ → ℕ

pub data Effect : Type 0 where
  writes : Text → Effect
  takes_mutex : Effect
  closes_mutex : Effect
  activates : ℕ → Effect
  terminates : ℕ → Effect
  makes_window : Effect
  uninitializes : Effect

-- The windows class of the application.
abbrev pub window_class : Text
window_class = codes "FLUTTER_RUNNER_WIN32_WINDOW"

abbrev is_app_window : Window → Bool
is_app_window w =
    eq_text w.class_name window_class && is_some (find_text (codes "Ligament") w.title)

unfoldable pub first_window : List Window → Option ℕ
unfolding eq_text
first_window [] = none
first_window (w ∷ ws) = if is_app_window w then some w.handle else first_window ws

unfoldable pub find_existing_app_window : Windows → Option ℕ
unfolding first_window
find_existing_app_window w = elim w.titled [
  | some h ↦ some h
  | none ↦ elim w.old_titled [ some h ↦ some h | none ↦ first_window w.windows ]
]

-- `kAppExe` of the service: the name of the application's file.
abbrev pub app_exe : Text
app_exe = codes "ligament_authenticator.exe"

unfoldable pub terminated : (ℕ → ℕ) → ℕ → List Process → List ℕ
unfolding eq_icase
terminated fold current [] = []
terminated fold current (p ∷ ps) =
    let rest = terminated fold current ps in
    if eq_icase fold p.exe_file app_exe && (not (p.id == current) && p.opens)
    then p.id ∷ rest
    else rest

abbrev termination : List ℕ → List Effect
termination [] = []
termination (id ∷ ids) =
    writes (codes "startup.orphaned_process.terminate") ∷ terminates id ∷ termination ids

unfoldable pub terminate_orphaned_instances : Windows → List Effect
unfolding terminated
terminate_orphaned_instances w = elim w.snapshot [
  | none ↦ []
  | some ps ↦ termination (terminated w.fold w.current_pid ps)
]

-- How the search for another instance ends: this one ends, or it goes on, with the mutex or without.
pub record Instance : Type 0 where
  pub effects : List Effect
  pub ends : Bool
  pub has_mutex : Bool

abbrev mutex_written : MutexResult → List Effect
mutex_written m =
    if m.made
    then writes (codes "startup.mutex.created") ∷ []
    else writes (codes "startup.mutex.failed") ∷ []

abbrev found_written : Option ℕ → Effect
found_written found =
    writes (if is_some found then codes "startup.window.found" else codes "startup.window.missing")

-- With a mutex that was there already.
unfoldable pub meet_existing : Windows → Bool → Instance
unfolding find_existing_app_window terminate_orphaned_instances
meet_existing w minimized =
    let found = find_existing_app_window w in
    let again = w.second_mutex in
    let cleaned : Instance = record {
      effects =
          takes_mutex
            ∷ writes (codes "startup.mutex.existing")
            ∷ found_written found
            ∷ writes (codes "startup.stale_instance.cleanup")
            ∷ closes_mutex
            ∷ terminate_orphaned_instances w
          ++ ((if again.made then takes_mutex ∷ [] else []) ++ mutex_written again);
      ends = false;
      has_mutex = again.made;
    } in
    elim found [
      | none ↦ cleaned
      | some window ↦
          if w.responds
          then record {
            effects =
                takes_mutex
                  ∷ writes (codes "startup.mutex.existing")
                  ∷ found_written (some window)
                  ∷ (if minimized then [] else activates window ∷ [])
                ++ closes_mutex ∷ writes (codes "startup.single_instance.exit") ∷ [];
            ends = true;
            has_mutex = false;
          }
          else cleaned
    ]

unfoldable pub single_instance : Windows → Options → Instance
unfolding meet_existing
single_instance w o =
    if o.link_host_worker || o.autoshare
    then record { effects = []; ends = false; has_mutex = false }
    else if w.first_mutex.made && w.first_mutex.error == 183
    then meet_existing w o.start_minimized
    else record {
      effects =
          (if w.first_mutex.made then takes_mutex ∷ [] else []) ++ mutex_written w.first_mutex;
      ends = false;
      has_mutex = w.first_mutex.made;
    }

abbrev when : Bool → Effect → List Effect
when true e = e ∷ []
when false e = []

-- The records of the log before the search.
abbrev opening : Windows → Options → List Effect
opening w o =
    writes (if o.link_host_worker then codes "startup.mode.link_host" else codes "startup.mode.gui")
      ∷ when o.start_minimized (writes (codes "startup.minimized"))
    ++ when o.autoshare (writes (codes "startup.autoshare"))
    ++ when (not w.com_ready) (writes (codes "startup.com.failed"))

-- The window, the message loop and the end of a process that goes on: the effects and whether it
-- returns EXIT_SUCCESS.
unfoldable pub run_window : Windows → Bool → List Effect × Bool
run_window w has_mutex =
    let closing = when has_mutex closes_mutex ++ when w.com_ready uninitializes in
    if not w.window_made
    then (
      writes (codes "window.create.begin") ∷ writes (codes "window.create.failed") ∷ closing,
      false,
    )
    else (
      writes (codes "window.create.begin")
          ∷ makes_window
          ∷ writes (codes "window.create.ready")
          ∷ writes
              (if w.loop_failed then codes "message_loop.failed" else codes "message_loop.exit")
          ∷ closing,
      not w.loop_failed,
    )

unfoldable pub main : Windows → List Text → List Effect × Bool
unfolding read_options single_instance run_window
main w arguments =
    let o = read_options arguments in
    let i = single_instance w o in
    if i.ends
    then (opening w o ++ (i.effects ++ when w.com_ready uninitializes), true)
    else (opening w o ++ (i.effects ++ (run_window w i.has_mutex).0), (run_window w i.has_mutex).1)
