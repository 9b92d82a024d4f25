-- ===== src/Startup/Kills.antt =====
-- Which processes a start of the application terminates, windows/runner/main.cpp.
use ligament_apps.Common.{
  ℕ, ◌≡◌, ◌≢◌, refl, sym, ap, ◌∙◌, ◌⊎◌, inl, inr, Bool, true, false, ◌&&◌, ◌||◌, none, some, List,
  [], ◌∷◌, ◌++◌, arith, ◌==◌, not, if◌then◌else◌, Bool-cases, Option-cases,
}
use mathlib.Core.Path.{subst}
use mathlib.Core.List.{append-nil}
use ligament_apps.Common.Text.{Text, codes, eq_icase}
use ligament_apps.Startup.{
  Options, read_options, Process, Windows, Effect, writes, takes_mutex, closes_mutex, activates,
  terminates, makes_window, uninitializes, find_existing_app_window, terminated, app_exe,
  terminate_orphaned_instances, meet_existing, single_instance, run_window, main, termination,
  opening, mutex_written, when,
}

-- The processes that are terminated, in order.
abbrev pub kills : List Effect → List ℕ
kills [] = []
kills (terminates id ∷ es) = id ∷ kills es
kills (takes_mutex ∷ es) = kills es
kills (closes_mutex ∷ es) = kills es
kills (uninitializes ∷ es) = kills es
kills (writes t ∷ es) = kills es
kills (activates n ∷ es) = kills es
kills (makes_window ∷ es) = kills es

kills-append : (es fs : List Effect) → kills (es ++ fs) ≡ kills es ++ kills fs
kills-append [] fs = refl
kills-append (terminates id ∷ es) fs = ap (◌∷◌ id) (kills-append es fs)
kills-append (takes_mutex ∷ es) fs = kills-append es fs
kills-append (closes_mutex ∷ es) fs = kills-append es fs
kills-append (uninitializes ∷ es) fs = kills-append es fs
kills-append (writes t ∷ es) fs = kills-append es fs
kills-append (activates n ∷ es) fs = kills-append es fs
kills-append (makes_window ∷ es) fs = kills-append es fs

-- An instance that is neither a worker nor a forwarder meets the mutex of another, of which no window
-- answers.
pub record IsStale (w : Windows) (o : Options) : Type 0 where
  pub not_worker : o.link_host_worker ≡ false
  pub not_autoshare : o.autoshare ≡ false
  pub existed : (w.first_mutex.made ≡ true) × (w.first_mutex.error ≡ 183)
  pub no_answer : (find_existing_app_window w ≡ none) ⊎ (w.responds ≡ false)

kills-termination : (ids : List ℕ) → kills (termination ids) ≡ ids
kills-termination [] = refl
kills-termination (id ∷ ids) = ap (◌∷◌ id) (kills-termination ids)

opening-kills :
    (w : Windows) (o : Options) (es : List Effect) → kills (opening w o ++ es) ≡ kills es
opening-kills w o es = ground arith

run_window-kills : (w : Windows) (held : Bool) → kills (run_window w held).0 ≡ []
unfolding run_window
run_window-kills w held = ground arith

-- A process of the application that can be opened, other than this one.
pub record IsOrphan (w : Windows) (p : Process) : Type 0 where
  pub is_named : eq_icase w.fold p.exe_file (codes "ligament_authenticator.exe") ≡ true
  pub is_other : p.id ≢ w.current_pid
  pub can_open : p.opens ≡ true

-- These are the identifiers of the orphans among the processes, in their order, and of no others.
pub data AreOrphans (w : Windows) : List Process → List ℕ → Type 0 where
  nothing : AreOrphans w [] []
  orphan :
      (p : Process) (ps : List Process) (ids : List ℕ)
      → IsOrphan w p
      → AreOrphans w ps ids
      → AreOrphans w (p ∷ ps) (p.id ∷ ids)
  spared :
      (p : Process) (ps : List Process) (ids : List ℕ)
      → ¬ IsOrphan w p
      → AreOrphans w ps ids
      → AreOrphans w (p ∷ ps) ids

terminated-AreOrphans :
    (w : Windows) (ps : List Process) → AreOrphans w ps (terminated w.fold w.current_pid ps)
unfolding terminated
terminated-AreOrphans w [] = nothing
terminated-AreOrphans w (p ∷ ps) =
    let named = eq_icase w.fold p.exe_file app_exe in
    elim (Bool-cases (named && (not (p.id == w.current_pid) && p.opens))) [
      | inl e ↦ rw e (
          orphan p ps (terminated w.fold w.current_pid ps)
            (record {
              is_named = ground (arith, e);
              is_other = ground (arith, e);
              can_open = ground (arith, e);
            })
            (terminated-AreOrphans w ps))
      | inr e ↦ rw e (
          spared p ps (terminated w.fold w.current_pid ps)
            (λ o. ground (arith, e, o.is_named, o.is_other, o.can_open))
            (terminated-AreOrphans w ps))
    ]

-- Nothing is terminated, or this instance meets a stale one, and what is terminated are the orphans of
-- the snapshot.
abbrev pub Terminates : Windows → Options → List ℕ → Type 0
Terminates w o ids =
    (ids ≡ [])
    ⊎ (IsStale w o × ((ps : List Process) × (w.snapshot ≡ some ps) × AreOrphans w ps ids))

orphans-kills :
    (w : Windows)
    → (kills (terminate_orphaned_instances w) ≡ [])
      ⊎ ((ps : List Process) × (w.snapshot ≡ some ps)
          × (kills (terminate_orphaned_instances w) ≡ terminated w.fold w.current_pid ps))
unfolding terminate_orphaned_instances
orphans-kills w = elim (Option-cases w.snapshot) [
  | inl e ↦ inl (rw e)
  | inr (ps, e) ↦ inr (ps, e, rw e (kills-termination (terminated w.fold w.current_pid ps)))
]

behind_none : (es fs : List Effect) → kills fs ≡ [] → kills (es ++ fs) ≡ kills es
behind_none es fs e = kills-append es fs ∙ ap (λ l. kills es ++ l) e ∙ append-nil (kills es)

meet_existing-kills :
    (w : Windows) (minimized : Bool)
    → (kills (meet_existing w minimized).effects ≡ [])
      ⊎ ((kills (meet_existing w minimized).effects ≡ kills (terminate_orphaned_instances w))
          × ((find_existing_app_window w ≡ none) ⊎ (w.responds ≡ false)))
unfolding meet_existing
meet_existing-kills w minimized =
    let orphans = terminate_orphaned_instances w in
    let again : List Effect =
      (if w.second_mutex.made then takes_mutex ∷ [] else []) ++ mutex_written w.second_mutex in
    let none_again : kills again ≡ [] = ground arith in
    let whole : kills (orphans ++ again) ≡ kills orphans = behind_none orphans again none_again in
    elim (Option-cases (find_existing_app_window w)) [
      | inl e ↦ inr (ground (arith, e, whole), inl e)
      | inr (window, e) ↦ elim (Bool-cases w.responds) [
        | inl r ↦ inl (ground (arith, e, r))
        | inr r ↦ inr (ground (arith, e, r, whole), inr r)
      ]
    ]

stale :
    (w : Windows) (o : Options)
    → (o.link_host_worker || o.autoshare) ≡ false
    → (w.first_mutex.made && w.first_mutex.error == 183) ≡ true
    → (find_existing_app_window w ≡ none) ⊎ (w.responds ≡ false)
    → IsStale w o
stale w o alone existed no_answer = record {
  not_worker = ground (arith, alone);
  not_autoshare = ground (arith, alone);
  existed = ground (arith, existed);
  no_answer = no_answer;
}

single_instance-kills :
    (w : Windows) (o : Options) → Terminates w o (kills (single_instance w o).effects)
unfolding single_instance
single_instance-kills w o = elim (Bool-cases (o.link_host_worker || o.autoshare)) [
  | inl apart ↦ inl (ground (arith, apart))
  | inr alone ↦ elim (Bool-cases (w.first_mutex.made && w.first_mutex.error == 183)) [
    | inr first ↦ inl (ground (arith, alone, first))
    | inl existed ↦
        rw (alone, existed)
          (elim (meet_existing-kills w o.start_minimized) [
            | inl e ↦ inl e
            | inr (e, no_answer) ↦ elim (orphans-kills w) [
              | inl f ↦ inl (e ∙ f)
              | inr (ps, listed, f) ↦ inr (
                stale w o alone existed no_answer,
                (ps, listed, subst (AreOrphans w ps) (sym (e ∙ f)) (terminated-AreOrphans w ps)),
              )
            ]
          ])
  ]
]

-- A start of the application terminates nothing, or it is neither a worker nor a forwarder and
-- meets the mutex of another instance of which no window answers, and it terminates, in the order
-- of the snapshot, exactly the processes in it that bear the application's file name up to case,
-- can be opened and have another identifier than its own.
pub main-Terminates :
    (w : Windows) (arguments : List Text)
    → Terminates w (read_options arguments) (kills (main w arguments).0)
unfolding main
main-Terminates w arguments =
    let o = read_options arguments in
    let i = single_instance w o in
    let leaving = when w.com_ready uninitializes in
    let last = (run_window w i.has_mutex).0 in
    subst (Terminates w o)
      (elim (Bool-cases i.ends) [
        | inl e ↦ rw e (
            sym (
              opening-kills w o (i.effects ++ leaving)
              ∙ behind_none i.effects leaving (ground arith)))
        | inr e ↦ rw e (
            sym (
              opening-kills w o (i.effects ++ last)
              ∙ behind_none i.effects last (run_window-kills w i.has_mutex)))
      ])
      (single_instance-kills w o)
