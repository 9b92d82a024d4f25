-- ===== src/Startup/Single.antt =====
-- One instance of the application, windows/runner/main.cpp.
use ligament_apps.Common.{
  ℕ, ◌≡◌, refl, ap, ◌∙◌, inl, inr, Bool, true, false, ◌&&◌, List, [], ◌∷◌, ◌++◌, arith,
  if◌then◌else◌, not, Bool-cases, Option-cases, empty,
}
use mathlib.Core.List.{append_assoc}
use ligament_apps.Common.Text.{Text}
use ligament_apps.Startup.{
  Options, read_options, MutexResult, Windows, Effect, writes, takes_mutex, closes_mutex, activates,
  terminates, makes_window, uninitializes, find_existing_app_window, terminated,
  terminate_orphaned_instances, meet_existing, single_instance, run_window, main, termination,
  opening, mutex_written, when,
}

-- The mutex is closed exactly where it is taken, and at the end COM is left exactly where it was entered,
-- as the last effect. The flags are whether the mutex is held, and whether COM was entered.
abbrev pub leaves_all : Bool → Bool → List Effect → Bool
leaves_all held entered [] = not held && not entered
leaves_all held entered (takes_mutex ∷ es) = not held && leaves_all true entered es
leaves_all held entered (closes_mutex ∷ es) = held && leaves_all false entered es
leaves_all held entered (uninitializes ∷ es) = not held && (entered && empty es)
leaves_all held entered (writes t ∷ es) = leaves_all held entered es
leaves_all held entered (activates n ∷ es) = leaves_all held entered es
leaves_all held entered (terminates n ∷ es) = leaves_all held entered es
leaves_all held entered (makes_window ∷ es) = leaves_all held entered es

termination-leaves_all :
    (ids : List ℕ) (held entered : Bool) (rest : List Effect)
    → leaves_all held entered (termination ids ++ rest) ≡ leaves_all held entered rest
termination-leaves_all [] held entered rest = refl
termination-leaves_all (id ∷ ids) held entered rest = termination-leaves_all ids held entered rest

orphans-leaves_all :
    (w : Windows) (held entered : Bool) (rest : List Effect)
    → leaves_all held entered (terminate_orphaned_instances w ++ rest)
      ≡ leaves_all held entered rest
unfolding terminate_orphaned_instances
orphans-leaves_all w held entered rest = elim (Option-cases w.snapshot) [
  | inl e ↦ rw e
  | inr (ps, e) ↦
      rw e (termination-leaves_all (terminated w.fold w.current_pid ps) held entered rest)
]

-- What is done with the second mutex.
abbrev restarted : MutexResult → List Effect
restarted m = (if m.made then takes_mutex ∷ [] else []) ++ mutex_written m

-- Behind the search, the mutex is held where the instance says so, and not where it ends.
meet_existing-leaves_all :
    (w : Windows) (minimized entered : Bool) (rest : List Effect)
    → leaves_all false entered ((meet_existing w minimized).effects ++ rest)
      ≡ leaves_all (meet_existing w minimized).has_mutex entered rest
unfolding meet_existing
meet_existing-leaves_all w minimized entered rest =
    let orphans = terminate_orphaned_instances w in
    let again = restarted w.second_mutex in
    let cleaned = ap (leaves_all false entered) (append_assoc orphans again rest) in
    elim (Option-cases (find_existing_app_window w)) [
      | inl e ↦ ground (arith, e, cleaned, orphans-leaves_all w false entered (again ++ rest))
      | inr (window, e) ↦
          ground (arith, e, cleaned, orphans-leaves_all w false entered (again ++ rest))
    ]

single_instance-leaves_all :
    (w : Windows) (o : Options) (entered : Bool) (rest : List Effect)
    → leaves_all false entered ((single_instance w o).effects ++ rest)
      ≡ leaves_all (single_instance w o).has_mutex entered rest
unfolding single_instance
single_instance-leaves_all w o entered rest =
    ground (arith, meet_existing-leaves_all w o.start_minimized entered rest)

single_instance-ends :
    (w : Windows) (o : Options)
    → (single_instance w o).ends ≡ true
    → (single_instance w o).has_mutex ≡ false
unfolding single_instance meet_existing
single_instance-ends w o h = ground (arith, h)

run_window-leaves_all :
    (w : Windows) (held : Bool) → leaves_all held w.com_ready (run_window w held).0 ≡ true
unfolding run_window
run_window-leaves_all w held = ground arith

opening-leaves_all :
    (w : Windows) (o : Options) (held entered : Bool) (rest : List Effect)
    → leaves_all held entered (opening w o ++ rest) ≡ leaves_all held entered rest
opening-leaves_all w o held entered rest = ground arith

ended :
    (held entered : Bool)
    → held ≡ false
    → leaves_all held entered (when entered uninitializes) ≡ true
ended held true h = ground (arith, h)
ended held false h = ground (arith, h)

-- On every path through `wWinMain` the mutex that was taken is closed once, and COM is left exactly
-- where it was entered, as the last effect.
pub main-leaves_all :
    (w : Windows) (arguments : List Text) → leaves_all false w.com_ready (main w arguments).0 ≡ true
unfolding main
main-leaves_all w arguments =
    let o = read_options arguments in
    let i = single_instance w o in
    let entered = w.com_ready in
    let leaving = when entered uninitializes in
    let last = (run_window w i.has_mutex).0 in
    elim (Bool-cases i.ends) [
      | inl e ↦ rw e (
          opening-leaves_all w o false entered (i.effects ++ leaving)
          ∙ single_instance-leaves_all w o entered leaving
          ∙ ended i.has_mutex entered (single_instance-ends w o e))
      | inr e ↦ rw e (
          opening-leaves_all w o false entered (i.effects ++ last)
          ∙ single_instance-leaves_all w o entered last
          ∙ run_window-leaves_all w i.has_mutex)
    ]
