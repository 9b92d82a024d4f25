-- ===== src/Watchdog/Stops.antt =====
-- How the service of windows/service/service.cpp ends after a stop: its handler sets the event.
use ligament_apps.Common.{
  ℕ, zero, suc, ◌+◌, ◌≤◌, ◌≡◌, refl, ◌⊎◌, inl, inr, true, false, List, [], ◌∷◌, arith, Bool-cases,
  ap,
}
use ligament_apps.Watchdog.Control.{
  Place, registering, setting_pending, telling_pending, making_event, setting_running,
  telling_running, waiting, in_round, setting_stopped, telling_stopped, closing, done, Handling,
  idle, setting_stop_pending, telling_stop_pending, signalling, telling_state, StopEvent, no_event,
  open_event, closed_event, Service, System, Control, Event, main_step, handler_step, arrives, tell,
  wait, svc_main, svc_handler, handling_of, hand_over, service_step, run_service, stop, shutdown,
}
use ligament_apps.Watchdog.Ending.{
  is_set, is_open, left, owed, svc_main-IsEnding, svc_handler-IsEnding, set_event-set, main_steps,
  handler_steps, run_service-IsEnding,
}

-- The statements of `SvcHandler` that are left until the event is set.
abbrev pub to_set : Handling → ℕ
to_set idle = 0
to_set setting_stop_pending = 3
to_set telling_stop_pending = 2
to_set signalling = 1
to_set telling_state = 0

-- The event is there, and it is set, or `SvcMain` is about to wait for it while the handler is about to
-- set it within j statements.
-- `SERVICE_CONTROL_STOP` or `SERVICE_CONTROL_SHUTDOWN`.
abbrev pub IsStopping : ℕ → Service → Type 0
IsStopping j s =
    ((is_set s.event ≡ true) × (left s.place ≤ 6))
    ⊎ ((is_open s.event ≡ true)
        × (4 ≤ left s.place)
        × (left s.place ≤ 6)
        × (1 ≤ to_set s.handling)
        × (to_set s.handling ≤ j))

hand_over-to_set : (c : Control) (h : Handling) (p : Place) → 1 ≤ to_set h → hand_over c h p ≡ h
hand_over-to_set c h registering l = refl
hand_over-to_set c idle p l = absurd (omega (arith, l))
hand_over-to_set c setting_stop_pending p l = refl
hand_over-to_set c telling_stop_pending p l = refl
hand_over-to_set c signalling p l = refl
hand_over-to_set c telling_state p l = absurd (omega (arith, l))

wait-unset : (e : StopEvent) → is_open e ≡ true → is_set e ≡ false → wait e ≡ in_round
unfolding wait
wait-unset (open_event false) o h = refl
wait-unset (open_event true) o h = absurd (ground (arith, h))
wait-unset no_event o h = absurd (ground (arith, o))
wait-unset (closed_event b) o h = absurd (ground (arith, o))

svc_main-set :
    (w : System) (p : Place) (s : Service) (j : ℕ)
    → s.place ≡ p
    → is_set s.event ≡ true
    → left p ≤ 6
    → IsStopping j (svc_main w p s)
svc_main-set w p s j e h l =
    let i = svc_main-IsEnding w p s (s.rounds + owed p) 5 (omega arith) e h l (omega arith) in
    inl (i.0, omega (arith, i.1))

svc_main-IsStopping :
    (w : System) (p : Place) (s : Service) (j : ℕ)
    → s.place ≡ p
    → is_open s.event ≡ true
    → 4 ≤ left p
    → left p ≤ 6
    → 1 ≤ to_set s.handling
    → to_set s.handling ≤ j
    → IsStopping j (svc_main w p s)
unfolding svc_main tell
svc_main-IsStopping w setting_running s j e o a b h l = inr (o, omega arith, omega arith, h, l)
svc_main-IsStopping w telling_running s j e o a b h l = inr (o, omega arith, omega arith, h, l)
svc_main-IsStopping w in_round s j e o a b h l = inr (o, omega arith, omega arith, h, l)
svc_main-IsStopping w waiting s j e o a b h l = elim (Bool-cases (is_set s.event)) [
  | inl t ↦ svc_main-set w waiting s j e t b
  | inr f ↦ inr (
    o,
    rw (wait-unset s.event o f) (omega arith),
    rw (wait-unset s.event o f) (omega arith),
    h,
    l,
  )
]
svc_main-IsStopping w registering s j e o a b h l = absurd (omega (arith, b))
svc_main-IsStopping w setting_pending s j e o a b h l = absurd (omega (arith, b))
svc_main-IsStopping w telling_pending s j e o a b h l = absurd (omega (arith, b))
svc_main-IsStopping w making_event s j e o a b h l = absurd (omega (arith, b))
svc_main-IsStopping w setting_stopped s j e o a b h l = absurd (omega (arith, a))
svc_main-IsStopping w telling_stopped s j e o a b h l = absurd (omega (arith, a))
svc_main-IsStopping w closing s j e o a b h l = absurd (omega (arith, a))
svc_main-IsStopping w done s j e o a b h l = absurd (omega (arith, a))

svc_handler-IsStopping :
    (h : Handling) (s : Service) (j : ℕ)
    → is_open s.event ≡ true
    → 4 ≤ left s.place
    → left s.place ≤ 6
    → 1 ≤ to_set h
    → to_set h ≤ suc j
    → IsStopping j (svc_handler h s)
unfolding svc_handler tell
svc_handler-IsStopping idle s j o a b g l = absurd (omega (arith, g))
svc_handler-IsStopping telling_state s j o a b g l = absurd (omega (arith, g))
svc_handler-IsStopping setting_stop_pending s j o a b g l =
    inr (o, a, b, omega arith, omega (arith, l))
svc_handler-IsStopping telling_stop_pending s j o a b g l =
    inr (o, a, b, omega arith, omega (arith, l))
svc_handler-IsStopping signalling s j o a b g l = inl (set_event-set s.event (ground (arith, o)), b)

main_step-IsStopping :
    (w : System) (s : Service) (j : ℕ) → IsStopping j s → IsStopping j (svc_main w s.place s)
main_step-IsStopping w s j (inl (h, l)) = svc_main-set w s.place s j refl h l
main_step-IsStopping w s j (inr (o, a, b, g, l)) = svc_main-IsStopping w s.place s j refl o a b g l

handler_step-IsStopping :
    (s : Service) (j : ℕ) → IsStopping (suc j) s → IsStopping j (svc_handler s.handling s)
handler_step-IsStopping s j (inl (h, l)) =
    let i = svc_handler-IsEnding s.handling s (s.rounds + owed s.place) 6 (h, l, omega arith) in
    inl (i.0, i.1)
handler_step-IsStopping s j (inr (o, a, b, g, l)) = svc_handler-IsStopping s.handling s j o a b g l

arrives-IsStopping :
    (c : Control) (s : Service) (j : ℕ)
    → IsStopping j s
    → IsStopping j (record s { handling = hand_over c s.handling s.place })
arrives-IsStopping c s j (inl i) = inl i
arrives-IsStopping c s j (inr (o, a, b, g, l)) = inr (
  o,
  a,
  b,
  rw (hand_over-to_set c s.handling s.place g) g,
  rw (hand_over-to_set c s.handling s.place g) l,
)

-- After no more statements the event is set.
set_at_zero : (s : Service) → IsStopping 0 s → (is_set s.event ≡ true) × (left s.place ≤ 6)
set_at_zero s (inl i) = i
set_at_zero s (inr (o, a, b, g, l)) = absurd (omega (arith, g, l))

run_service-set :
    (w : System) (es : List Event) (s : Service) (j : ℕ)
    → j ≤ handler_steps es
    → IsStopping j s
    → (is_set (run_service w es s).event ≡ true) × (left (run_service w es s).place ≤ 6)
unfolding run_service service_step
run_service-set w [] s zero l i = set_at_zero s i
run_service-set w [] s (suc j) l i = absurd (omega (arith, l))
run_service-set w (main_step ∷ es) s j l i =
    run_service-set w es (svc_main w s.place s) j l (main_step-IsStopping w s j i)
run_service-set w (handler_step ∷ es) s zero l i =
    run_service-set w es (svc_handler s.handling s) 0 (omega arith)
      (handler_step-IsStopping s 0 (inl (set_at_zero s i)))
run_service-set w (handler_step ∷ es) s (suc j) l i =
    run_service-set w es (svc_handler s.handling s) j (omega (arith, l))
      (handler_step-IsStopping s j i)
run_service-set w (arrives c ∷ es) s j l i =
    run_service-set w es (record s { handling = hand_over c s.handling s.place }) j l
      (arrives-IsStopping c s j i)

done_at_zero : (p : Place) → left p ≤ 0 → p ≡ done
done_at_zero done l = refl
done_at_zero p l = absurd (omega (arith, l))

owed-bound : (p : Place) → owed p ≤ 1
owed-bound in_round = omega arith
owed-bound p = omega arith

one_more : (a b c d : ℕ) → a + b ≤ c + d → d ≤ 1 → a ≤ c + 1
one_more a b c d h l = omega (arith, h, l)

-- The event is made, the loop is not left, and the handler waits for a control.
abbrev pub IsServing : Service → Type 0
IsServing s =
    (is_open s.event ≡ true) × (4 ≤ left s.place) × (left s.place ≤ 6) × (s.handling ≡ idle)

-- `SERVICE_CONTROL_STOP` or `SERVICE_CONTROL_SHUTDOWN`.
abbrev pub IsStop : Control → Type 0
IsStop c = (c ≡ stop) ⊎ (c ≡ shutdown)

handed_over :
    (c : Control) (p : Place) → IsStop c → left p ≤ 6 → hand_over c idle p ≡ setting_stop_pending
handed_over c registering h l = absurd (omega (arith, l))
handed_over c p (inl e) l = ap handling_of e
handed_over c p (inr e) l = ap handling_of e

arrives-begins :
    (w : System) (s : Service) (c : Control)
    → IsServing s
    → IsStop c
    → IsStopping 3 (service_step w (arrives c) s)
unfolding service_step
arrives-begins w s c (o, a, b, i) h =
    rw i (rw (handed_over c s.place h b) (inr (o, a, b, omega arith, omega arith)))

-- Where the event is made, the loop is not left and the handler waits for a control, a stop or a
-- shutdown ends the service: after the three statements of the handler, in any order with
-- statements of SvcMain and further controls, six statements of SvcMain end it, in any order with
-- what else happens, with at most one more round.
pub run_service-done :
    (w : System) (s : Service) (c : Control) (xs ys : List Event)
    → IsServing s
    → IsStop c
    → 3 ≤ handler_steps xs
    → 6 ≤ main_steps ys
    → ((run_service w ys (run_service w (arrives c ∷ xs) s)).place ≡ done)
      × ((run_service w ys (run_service w (arrives c ∷ xs) s)).rounds
          ≤ (run_service w (arrives c ∷ xs) s).rounds + 1)
unfolding run_service
run_service-done w s c xs ys i h l k =
    let begun = service_step w (arrives c) s in
    let t = run_service w xs begun in
    let stopped_by = run_service-set w xs begun 3 l (arrives-begins w s c i h) in
    let ended =
      run_service-IsEnding w ys t (t.rounds + owed t.place) 6 (omega arith) k
        (stopped_by.0, stopped_by.1, omega arith) in
    (
      done_at_zero (run_service w ys t).place ended.1,
      one_more (run_service w ys t).rounds (owed (run_service w ys t).place) t.rounds (owed t.place)
          ended.2 (owed-bound t.place),
    )
