-- ===== src/Watchdog/Cooldown.antt =====
-- The ticks of the launches that `WorkerLoop` of windows/service/service.cpp makes.
use ligament_apps.Common.{
  ℕ, ◌+◌, ◌-◌, ◌^◌, ◌≤◌, ◌<◌, ◌≡◌, refl, sym, ◌⊎◌, inl, inr, ◌&&◌, List, [], ◌∷◌, arith, ltb, ◌==◌,
  if◌then◌else◌, Bool-cases, Option-cases,
}
use mathlib.Core.Path.{subst}
use ligament_apps.Watchdog.{
  Session, Round, Watchdog, started, visit, visit_all, run_round, worker_loop, max_lock_age,
  relaunch_cooldown, elapsed, listed,
}

-- The tick of the newest launch in a session, 0 where there was none.
abbrev pub newest : ℕ → List (ℕ × ℕ) → ℕ
newest id [] = 0
newest id ((session, tick) ∷ launches) = if session == id then tick else newest id launches

-- Each launch comes at least a cooldown after the one before it in its session.
abbrev pub AreSpaced : List (ℕ × ℕ) → Type 0
AreSpaced [] = Unit
AreSpaced ((session, tick) ∷ launches) =
    ((newest session launches ≡ 0) ⊎ (newest session launches + relaunch_cooldown ≤ tick))
    × AreSpaced launches

-- The ticks of these sessions do not go back, from `clock` on, and fit in 64 bits.
abbrev pub Ticks : ℕ → List Session → Type 0
Ticks clock [] = Unit
Ticks clock (s ∷ ss) = (clock ≤ s.now) × (s.now < 2 ^ 64) × Ticks s.now ss

-- The tick of the last of these sessions, or `clock`.
abbrev pub last_tick : ℕ → List Session → ℕ
last_tick clock [] = clock
last_tick clock (s ∷ ss) = last_tick s.now ss

abbrev pub RoundTicks : ℕ → List Round → Type 0
RoundTicks clock [] = Unit
RoundTicks clock (r ∷ rs) =
    Ticks clock (listed r.sessions) × RoundTicks (last_tick clock (listed r.sessions)) rs

-- At a time: the map holds the newest launches, none is ahead of the time, and they are spaced.
pub record Inv (clock : ℕ) (w : Watchdog) : Type 0 where
  pub map_newest : (id : ℕ) → w.last_launch id ≡ newest id w.launches
  pub not_ahead : (id : ℕ) → newest id w.launches ≤ clock
  pub spaced : AreSpaced w.launches

Inv-later : (clock later : ℕ) (w : Watchdog) → clock ≤ later → Inv clock w → Inv later w
Inv-later clock later w l v = record {
  map_newest = v.map_newest;
  not_ahead = λ id. omega (arith, v.not_ahead id);
  spaced = v.spaced;
}

elapsed_lem : (now last : ℕ) → last ≤ now → now < 2 ^ 64 → elapsed now last ≡ now - last
elapsed_lem now last l b = omega arith

-- A visit launches nothing, or launches the client after a cooldown.
visit-cases :
    (s : Session) (w : Watchdog)
    → ((visit s w).launches ≡ w.launches)
      ⊎ (((visit s w).launches ≡ (s.id, s.now) ∷ w.launches)
          × ((w.last_launch s.id ≡ 0) ⊎ (relaunch_cooldown ≤ elapsed s.now (w.last_launch s.id))))
unfolding visit
visit-cases s w = ground arith

visit-Inv :
    (clock : ℕ) (s : Session) (w : Watchdog)
    → clock ≤ s.now
    → s.now < 2 ^ 64
    → Inv clock w
    → Inv s.now (visit s w)
unfolding visit
visit-Inv clock s w l b v = record {
  map_newest = λ id. ground (arith, v.map_newest id);
  not_ahead = λ id. ground (arith, v.not_ahead id);
  spaced = elim (visit-cases s w) [
    | inl e ↦ subst AreSpaced (sym e) v.spaced
    | inr (e, due) ↦ subst AreSpaced (sym e) (
      ground
          (arith, due, v.map_newest s.id, v.not_ahead s.id, elapsed_lem s.now (w.last_launch s.id)),
      v.spaced,
    )
  ];
}

visit_all-Inv :
    (clock : ℕ) (ss : List Session) (w : Watchdog)
    → Ticks clock ss
    → Inv clock w
    → Inv (last_tick clock ss) (visit_all ss w)
unfolding visit_all
visit_all-Inv clock [] w t v = v
visit_all-Inv clock (s ∷ ss) w t v =
    visit_all-Inv s.now ss (visit s w) t.2 (visit-Inv clock s w t.0 t.1 v)

last_tick_le : (clock : ℕ) (ss : List Session) → Ticks clock ss → clock ≤ last_tick clock ss
last_tick_le clock [] t = omega arith
last_tick_le clock (s ∷ ss) t = omega (arith, t.0, last_tick_le s.now ss t.2)

run_round-cases :
    (r : Round) (w : Watchdog)
    → (run_round r w ≡ w)
      ⊎ ((n : ℕ) × (run_round r w ≡ visit_all (listed r.sessions) (record w { locks_removed = n })))
unfolding run_round
run_round-cases r w = elim (Bool-cases r.allow_exit) [
  | inl e ↦ inl (ground (arith, e))
  | inr e ↦ elim (Option-cases r.lock_written) [
    | inl unlocked ↦ inr (w.locks_removed, ground (arith, e, unlocked))
    | inr (written, locked) ↦
        elim (Bool-cases (ltb written r.file_now && ltb max_lock_age (r.file_now - written))) [
          | inl stale ↦ inr (w.locks_removed + 1, ground (arith, e, locked, stale))
          | inr fresh ↦ inl (ground (arith, e, locked, fresh))
        ]
  ]
]

run_round-Inv :
    (clock : ℕ) (r : Round) (w : Watchdog)
    → Ticks clock (listed r.sessions)
    → Inv clock w
    → Inv (last_tick clock (listed r.sessions)) (run_round r w)
run_round-Inv clock r w t v = elim (run_round-cases r w) [
  | inl e ↦ subst (Inv (last_tick clock (listed r.sessions))) (sym e) (
      Inv-later clock (last_tick clock (listed r.sessions)) w
        (last_tick_le clock (listed r.sessions) t) v)
  | inr (n, e) ↦ subst (Inv (last_tick clock (listed r.sessions))) (sym e) (
      visit_all-Inv clock (listed r.sessions) (record w { locks_removed = n }) t
        (record { map_newest = v.map_newest; not_ahead = v.not_ahead; spaced = v.spaced }))
]

worker_loop-spaced :
    (clock : ℕ) (rs : List Round) (w : Watchdog)
    → RoundTicks clock rs
    → Inv clock w
    → AreSpaced (worker_loop rs w).launches
unfolding worker_loop
worker_loop-spaced clock [] w t v = v.spaced
worker_loop-spaced clock (r ∷ rs) w t v =
    worker_loop-spaced (last_tick clock (listed r.sessions)) rs (run_round r w) t.1
      (run_round-Inv clock r w t.0 v)

-- Where the ticks that the rounds read are positive, below 2 ^ 64 and never go back, each launch
-- of the client comes at least the cooldown after the one before it in its session.
pub worker_loop-AreSpaced :
    (rs : List Round) → RoundTicks 1 rs → AreSpaced (worker_loop rs started).launches
unfolding started
worker_loop-AreSpaced rs t =
    worker_loop-spaced 1 rs started t
      (record { map_newest = λ id. refl; not_ahead = λ id. omega arith; spaced = tt })
