-- ===== src/Watchdog/Ending.antt =====
-- The service of windows/service/service.cpp from the setting of its stop event on: it ends.
use ligament_apps.Common.{
  ℕ, zero, suc, ◌+◌, ◌≤◌, ◌≡◌, refl, ◌∙◌, Bool, true, false, ◌||◌, List, [], ◌∷◌, arith,
}
use ligament_apps.Watchdog.Control.{
  Place, registering, setting_pending, telling_pending, making_event, setting_running,
  telling_running, waiting, in_round, setting_stopped, telling_stopped, closing, done, Handling,
  idle, setting_stop_pending, telling_stop_pending, signalling, telling_state, StopEvent, no_event,
  open_event, closed_event, Service, System, Event, main_step, handler_step, arrives, tell, wait,
  close_event, svc_main, set_event, svc_handler, hand_over, service_step, run_service,
}

abbrev pub is_set : StopEvent → Bool
is_set no_event = false
is_set (open_event b) = b
is_set (closed_event b) = b

abbrev pub is_open : StopEvent → Bool
is_open no_event = false
is_open (open_event b) = true
is_open (closed_event b) = false

-- The statements of `SvcMain` that are left once the event is set; 7 before the event is made.
abbrev pub left : Place → ℕ
left registering = 7
left setting_pending = 7
left telling_pending = 7
left making_event = 7
left setting_running = 6
left telling_running = 5
left in_round = 5
left waiting = 4
left setting_stopped = 3
left telling_stopped = 2
left closing = 1
left done = 0

-- The round that is under way.
abbrev pub owed : Place → ℕ
owed registering = 0
owed setting_pending = 0
owed telling_pending = 0
owed making_event = 0
owed setting_running = 0
owed telling_running = 0
owed in_round = 1
owed waiting = 0
owed setting_stopped = 0
owed telling_stopped = 0
owed closing = 0
owed done = 0

-- The event is set, at most k statements are left, and at most m rounds are made in all.
abbrev pub IsEnding : ℕ → ℕ → Service → Type 0
IsEnding m k s = (is_set s.event ≡ true) × (left s.place ≤ k) × (s.rounds + owed s.place ≤ m)

wait-set : (e : StopEvent) → is_set e ≡ true → wait e ≡ setting_stopped
unfolding wait
wait-set no_event h = refl
wait-set (open_event true) h = refl
wait-set (open_event false) h = absurd (ground (arith, h))
wait-set (closed_event b) h = refl

close_event-set : (e : StopEvent) → is_set (close_event e) ≡ is_set e
close_event-set no_event = refl
close_event-set (open_event b) = refl
close_event-set (closed_event b) = refl

pub svc_main-IsEnding :
    (w : System) (p : Place) (s : Service) (m k : ℕ)
    → k ≤ 5
    → s.place ≡ p
    → is_set s.event ≡ true
    → left p ≤ suc k
    → s.rounds + owed p ≤ m
    → IsEnding m k (svc_main w p s)
unfolding svc_main tell
svc_main-IsEnding w registering s m k b e h l r = absurd (omega (arith, b, l))
svc_main-IsEnding w setting_pending s m k b e h l r = absurd (omega (arith, b, l))
svc_main-IsEnding w telling_pending s m k b e h l r = absurd (omega (arith, b, l))
svc_main-IsEnding w making_event s m k b e h l r = absurd (omega (arith, b, l))
svc_main-IsEnding w setting_running s m k b e h l r = (h, omega (arith, l), r)
svc_main-IsEnding w telling_running s m k b e h l r = (h, omega (arith, l), r)
svc_main-IsEnding w waiting s m k b e h l r = rw (wait-set s.event h) (h, omega (arith, l), r)
svc_main-IsEnding w in_round s m k b e h l r = (h, omega (arith, l), omega (arith, r))
svc_main-IsEnding w setting_stopped s m k b e h l r = (h, omega (arith, l), r)
svc_main-IsEnding w telling_stopped s m k b e h l r = (h, omega (arith, l), r)
svc_main-IsEnding w closing s m k b e h l r = (close_event-set s.event ∙ h, omega arith, r)
svc_main-IsEnding w done s m k b e h l r = (h, rw e (omega arith), rw e r)

pub set_event-set : (e : StopEvent) → (is_open e || is_set e) ≡ true → is_set (set_event e) ≡ true
set_event-set no_event h = h
set_event-set (open_event b) h = refl
set_event-set (closed_event b) h = h

pub svc_handler-IsEnding :
    (h : Handling) (s : Service) (m k : ℕ) → IsEnding m k s → IsEnding m k (svc_handler h s)
unfolding svc_handler tell
svc_handler-IsEnding idle s m k i = i
svc_handler-IsEnding setting_stop_pending s m k i = i
svc_handler-IsEnding telling_stop_pending s m k i = i
svc_handler-IsEnding signalling s m k i = (set_event-set s.event (ground (arith, i)), i.1, i.2)
svc_handler-IsEnding telling_state s m k i = i

abbrev pub main_steps : List Event → ℕ
main_steps [] = 0
main_steps (main_step ∷ es) = suc (main_steps es)
main_steps (handler_step ∷ es) = main_steps es
main_steps (arrives c ∷ es) = main_steps es

abbrev pub handler_steps : List Event → ℕ
handler_steps [] = 0
handler_steps (main_step ∷ es) = handler_steps es
handler_steps (handler_step ∷ es) = suc (handler_steps es)
handler_steps (arrives c ∷ es) = handler_steps es

pub run_service-IsEnding :
    (w : System) (es : List Event) (s : Service) (m k : ℕ)
    → k ≤ 6
    → k ≤ main_steps es
    → IsEnding m k s
    → IsEnding m 0 (run_service w es s)
unfolding run_service service_step
run_service-IsEnding w [] s m k b l i = (i.0, omega (arith, l, i.1), i.2)
run_service-IsEnding w (main_step ∷ es) s m zero b l i =
    run_service-IsEnding w es (svc_main w s.place s) m 0 (omega arith) (omega arith)
      (svc_main-IsEnding w s.place s m 0 (omega arith) refl i.0 (omega (arith, i.1)) i.2)
run_service-IsEnding w (main_step ∷ es) s m (suc k) b l i =
    run_service-IsEnding w es (svc_main w s.place s) m k (omega (arith, b)) (omega (arith, l))
      (svc_main-IsEnding w s.place s m k (omega (arith, b)) refl i.0 i.1 i.2)
run_service-IsEnding w (handler_step ∷ es) s m k b l i =
    run_service-IsEnding w es (svc_handler s.handling s) m k b l
      (svc_handler-IsEnding s.handling s m k i)
run_service-IsEnding w (arrives c ∷ es) s m k b l i =
    run_service-IsEnding w es (record s { handling = hand_over c s.handling s.place }) m k b l i
