-- ===== src/InputBlock/Scope.antt =====
-- Where the thread of windows/runner/input_block.cpp injects input, over its rounds.
use ligament_apps.Common.{
  ℕ, ◌+◌, ◌≡◌, refl, ◌⊎◌, inl, inr, Bool, true, false, ◌&&◌, Option, none, some, List, [], ◌∷◌,
  ◌++◌, arith, leb, if◌then◌else◌, not, Bool-cases, Option-cases, empty, any, all,
}
use Prim.{Unit, tt}
use mathlib.Core.Path.{subst}
use ligament_apps.Common.Text.{Text, eq_text, eq_of_eq_text}
use ligament_apps.InputBlock.{NativeInputTask}
use ligament_apps.InputBlock.Worker.{
  Desktops, Worker, started_at, is_secure_desktop, find_active_input_desktop, attach_to,
  attach_current_input_desktop, is_receiving, Effect, Keyboard, release_keys, release_modifier_keys,
  execute, WorkerRound, enqueue_all, check_desktop, is_awake_due, handle_task, pop_front,
  worker_round, modifier_keys,
}

-- Injects nothing of a task.
abbrev pub is_harmless : Effect → Bool
is_harmless Effect.keep_alive = true
is_harmless (Effect.release_key _ _) = true
is_harmless _ = false

abbrev pub is_sas : Effect → Bool
is_sas Effect.inject_sas = true
is_sas _ = false

-- The name of the desktop that the thread is attached to.
abbrev pub attached_name : (ℕ → Text) → Worker → Text
attached_name names w = elim w.active_desk [ none ↦ [] | some desk ↦ names desk ]

-- The effects of a round with the thread as it is then.
pub record IsPermitted (names : ℕ → Text) (fold : ℕ → ℕ) (r : WorkerRound) (w : Worker)
    (effects : List Effect) : Type 0 where
  pub in_scope :
      (all (λ (e : Effect). is_harmless e) effects ≡ true)
      ⊎ ((r.allowed ≡ true) ⊎ (is_secure_desktop fold (attached_name names w) ≡ false))
  pub sas_in_scope : (any (λ (e : Effect). is_sas e) effects ≡ false) ⊎ (r.allowed_later ≡ true)

-- Rounds one after the other.
abbrev pub ArePermitted :
    (ℕ → Text) → (ℕ → ℕ) → List WorkerRound → List NativeInputTask → Worker → Type 0
ArePermitted names fold [] queue w = Unit
ArePermitted names fold (r ∷ rounds) queue w =
    let (effects, rest, after) = worker_round names fold r queue w in
    IsPermitted names fold r after effects × ArePermitted names fold rounds rest after

-- The remembered name is that of the desktop.
abbrev IsNamed : (ℕ → Text) → Worker → Type 0
IsNamed names w = w.last_desktop_name ≡ attached_name names w

module _ (names : ℕ → Text) (named : (desk : ℕ) → empty (names desk) ≡ false) where
  remembered :
      (target : ℕ) (last : Text)
      → (if not (empty (names target)) && not (eq_text (names target) last)
          then names target
          else last)
        ≡ names target
  remembered target last = elim (Bool-cases (eq_text (names target) last)) [
    | inl e ↦ ground (arith, e, named target, eq_of_eq_text (names target) last e)
    | inr e ↦ ground (arith, e, named target)
  ]

  attach_to-IsNamed :
      (d : Desktops) (target : ℕ) (w : Worker)
      → IsNamed names w
      → IsNamed names (attach_to names d target w)
  unfolding attach_to
  attach_to-IsNamed d target w h = elim (Bool-cases (d.can_attach target)) [
    | inl e ↦ rw (e, attach_to) (remembered target w.last_desktop_name)
    | inr e ↦ rw (e, attach_to) h
  ]

  attach-IsNamed :
      (d : Desktops) (w : Worker)
      → IsNamed names w
      → IsNamed names (attach_current_input_desktop names d w)
  unfolding attach_current_input_desktop
  attach-IsNamed d w h = elim (Bool-cases (is_receiving d w.active_desk)) [
    | inl e ↦ rw (e, attach_current_input_desktop) h
    | inr e ↦ elim (Option-cases (find_active_input_desktop d).0) [
      | inl f ↦ rw (e, f, attach_current_input_desktop) h
      | inr (target, f) ↦
          rw (e, f, attach_current_input_desktop)
            (attach_to-IsNamed d target
              (record w { closed = w.closed ++ (find_active_input_desktop d).1 }) h)
    ]
  ]

  check_desktop-IsNamed :
      (r : WorkerRound) (w : Worker) → IsNamed names w → IsNamed names (check_desktop names r w)
  unfolding check_desktop
  check_desktop-IsNamed r w h = elim (Bool-cases (leb (w.last_desktop_check + 250) r.now)) [
    | inl e ↦
        rw (e, check_desktop)
          (attach-IsNamed r.desktops (record w { last_desktop_check = r.now }) h)
    | inr e ↦ rw (e, check_desktop) h
  ]

release_keys-harmless :
    (k : Keyboard) (keys : List ℕ)
    → (all (λ (e : Effect). is_harmless e) (release_keys k keys) ≡ true)
      × (any (λ (e : Effect). is_sas e) (release_keys k keys) ≡ false)
unfolding release_keys
release_keys-harmless k [] = (refl, refl)
release_keys-harmless k (vk ∷ keys) = ground (arith, release_keys-harmless k keys)

execute-sas :
    (k : Keyboard) (allowed : Bool) (t : NativeInputTask)
    → (any (λ (e : Effect). is_sas e) (execute k allowed t) ≡ false) ⊎ (allowed ≡ true)
unfolding execute
execute-sas k allowed t = ground arith

handle_task-IsPermitted :
    (names : ℕ → Text) (fold : ℕ → ℕ) (r : WorkerRound) (w : Worker) (t : Option NativeInputTask)
    → IsNamed names w
    → IsPermitted names fold r w (handle_task fold r w t)
unfolding handle_task release_modifier_keys
handle_task-IsPermitted names fold r w none h = record {
  in_scope = inl refl;
  sas_in_scope = inl refl;
}
handle_task-IsPermitted names fold r w (some t) h =
    elim (Bool-cases (is_secure_desktop fold w.last_desktop_name && not r.allowed)) [
      | inl e ↦
          rw (e, handle_task)
            (record {
              in_scope = inl (release_keys-harmless r.keyboard modifier_keys).0;
              sas_in_scope = inl (release_keys-harmless r.keyboard modifier_keys).1;
            })
      | inr e ↦
          rw (e, handle_task)
            (record {
              in_scope = inr (scope (Bool-cases r.allowed) e);
              sas_in_scope = execute-sas r.keyboard r.allowed_later t;
            })
    ]
  where
    scope :
        (r.allowed ≡ true) ⊎ (r.allowed ≡ false)
        → (is_secure_desktop fold w.last_desktop_name && not r.allowed) ≡ false
        → (r.allowed ≡ true) ⊎ (is_secure_desktop fold (attached_name names w) ≡ false)
    scope (inl a) e = inl a
    scope (inr a) e = inr (subst (λ n. is_secure_desktop fold n ≡ false) h (ground (arith, a, e)))

awake-IsPermitted :
    (names : ℕ → Text) (fold : ℕ → ℕ) (r : WorkerRound) (w : Worker) (effects : List Effect)
    → IsPermitted names fold r w effects
    → IsPermitted names fold r (record w { last_awake_tick = r.now }) (Effect.keep_alive ∷ effects)
awake-IsPermitted names fold r w effects p = record {
  in_scope = p.in_scope;
  sas_in_scope = p.sas_in_scope;
}

-- A round keeps the name, and does what is permitted.
worker_round-IsPermitted :
    (names : ℕ → Text) (fold : ℕ → ℕ) (r : WorkerRound) (queue : List NativeInputTask) (w : Worker)
    → ((desk : ℕ) → empty (names desk) ≡ false)
    → IsNamed names w
    → let (effects, rest, after) = worker_round names fold r queue w in
      IsPermitted names fold r after effects × IsNamed names after
unfolding worker_round
worker_round-IsPermitted names fold r queue w named h =
    elim (Bool-cases (is_awake_due r attached)) [
      | inl e ↦ rw (e, worker_round) (awake-IsPermitted names fold r attached _ permitted, h')
      | inr e ↦ rw (e, worker_round) (permitted, h')
    ]
  where
    attached : Worker
    attached = check_desktop names r w

    h' : IsNamed names attached
    h' = check_desktop-IsNamed names named r w h

    permitted :
        IsPermitted names fold r attached
          (handle_task fold r attached (pop_front (enqueue_all r.arrivals queue)).0)
    permitted =
        handle_task-IsPermitted names fold r attached (pop_front (enqueue_all r.arrivals queue)).0
          h'

rounds-ArePermitted :
    (names : ℕ → Text) (fold : ℕ → ℕ) (rounds : List WorkerRound) (queue : List NativeInputTask)
    (w : Worker)
    → ((desk : ℕ) → empty (names desk) ≡ false)
    → IsNamed names w
    → ArePermitted names fold rounds queue w
rounds-ArePermitted names fold [] queue w named h = tt
rounds-ArePermitted names fold (r ∷ rounds) queue w named h =
    let p = worker_round-IsPermitted names fold r queue w named h in
    let after = worker_round names fold r queue w in
    (p.0, rounds-ArePermitted names fold rounds after.1 after.2 named p.1)

-- Where Windows tells the name of every desktop, in any rounds of the thread from its start, with
-- any tasks, desktops and scopes, a round injects something of a task only where the scope of the
-- system's console is set or the desktop that the thread is attached to is not Winlogon or
-- Screen-saver, and it injects SAS only where that scope is set.
pub started-ArePermitted :
    (names : ℕ → Text) (fold : ℕ → ℕ) (rounds : List WorkerRound) (queue : List NativeInputTask)
    (now : ℕ)
    → ((desk : ℕ) → empty (names desk) ≡ false)
    → ArePermitted names fold rounds queue (started_at now)
started-ArePermitted names fold rounds queue now named =
    rounds-ArePermitted names fold rounds queue (started_at now) named refl
