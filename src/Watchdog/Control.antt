-- ===== src/Watchdog/Control.antt =====
-- The service and its control, windows/service/service.cpp: `SvcMain` beside `SvcHandler`, statement by
-- statement. The calls of `Log` are left out.
use ligament_apps.Common.{ℕ, ◌+◌, Bool, true, false, List, [], ◌∷◌, if◌then◌else◌}

-- `dwCurrentState`; `unset` is the 0 that it starts with.
pub data ServiceState : Type 0 where
  unset : ServiceState
  start_pending : ServiceState
  is_running : ServiceState
  stop_pending : ServiceState
  stopped : ServiceState

-- The next statement of `SvcMain`; `waiting` and `in_round` are in `WorkerLoop`.
pub data Place : Type 0 where
  registering : Place
  setting_pending : Place
  telling_pending : Place
  making_event : Place
  setting_running : Place
  telling_running : Place
  waiting : Place
  in_round : Place
  setting_stopped : Place
  telling_stopped : Place
  closing : Place
  done : Place

-- The next statement of `SvcHandler`.
pub data Handling : Type 0 where
  idle : Handling
  setting_stop_pending : Handling
  telling_stop_pending : Handling
  signalling : Handling
  telling_state : Handling

-- `g_hStop`: null, a handle with its event, which may be set, or a handle that was closed.
pub data StopEvent : Type 0 where
  no_event : StopEvent
  open_event : Bool → StopEvent
  closed_event : Bool → StopEvent

-- `told` are the states told to Windows, newest first; `rounds` counts the rounds of `WorkerLoop`.
pub record Service : Type 0 where
  pub place : Place
  pub handling : Handling
  pub state : ServiceState
  pub event : StopEvent
  pub told : List ServiceState
  pub rounds : ℕ

-- Whether Windows registers the handler and makes the event.
pub record System : Type 0 where
  pub registers : Bool
  pub makes_event : Bool

pub data Control : Type 0 where
  stop : Control
  shutdown : Control
  other : Control

-- A step of either thread, or a control that the dispatcher hands to the handler.
pub data Event : Type 0 where
  main_step : Event
  handler_step : Event
  arrives : Control → Event

abbrev pub not_started : Service
not_started = record {
  place = registering;
  handling = idle;
  state = unset;
  event = no_event;
  told = [];
  rounds = 0;
}

unfoldable pub tell : Service → Service
tell s = record s { told = s.state ∷ s.told }

-- `WaitForSingleObject` times out only on an open event that is not set.
unfoldable pub wait : StopEvent → Place
wait no_event = setting_stopped
wait (open_event true) = setting_stopped
wait (open_event false) = in_round
wait (closed_event is_set) = setting_stopped

abbrev pub close_event : StopEvent → StopEvent
close_event no_event = no_event
close_event (open_event is_set) = closed_event is_set
close_event (closed_event is_set) = closed_event is_set

unfoldable pub svc_main : System → Place → Service → Service
unfolding tell wait
svc_main w registering s = record s { place = if w.registers then setting_pending else done }
svc_main w setting_pending s = record s { state = start_pending; place = telling_pending }
svc_main w telling_pending s = record (tell s) { place = making_event }
svc_main w making_event s = record s {
  event = if w.makes_event then open_event false else no_event;
  place = setting_running;
}
svc_main w setting_running s = record s { state = is_running; place = telling_running }
svc_main w telling_running s = record (tell s) { place = waiting }
svc_main w waiting s = record s { place = wait s.event }
svc_main w in_round s = record s { rounds = s.rounds + 1; place = waiting }
svc_main w setting_stopped s = record s { state = stopped; place = telling_stopped }
svc_main w telling_stopped s = record (tell s) { place = closing }
svc_main w closing s = record s { event = close_event s.event; place = done }
svc_main w done s = s

abbrev pub set_event : StopEvent → StopEvent
set_event no_event = no_event
set_event (open_event is_set) = open_event true
set_event (closed_event is_set) = closed_event is_set

unfoldable pub svc_handler : Handling → Service → Service
unfolding tell
svc_handler idle s = s
svc_handler setting_stop_pending s = record s {
  state = stop_pending;
  handling = telling_stop_pending;
}
svc_handler telling_stop_pending s = record (tell s) { handling = signalling }
svc_handler signalling s = record s { event = set_event s.event; handling = idle }
svc_handler telling_state s = record (tell s) { handling = idle }

abbrev pub handling_of : Control → Handling
handling_of stop = setting_stop_pending
handling_of shutdown = setting_stop_pending
handling_of other = telling_state

-- The dispatcher hands over one control at a time, and none before the handler is registered.
abbrev pub hand_over : Control → Handling → Place → Handling
hand_over c h registering = h
hand_over c idle p = handling_of c
hand_over c h p = h

unfoldable pub service_step : System → Event → Service → Service
unfolding svc_main svc_handler
service_step w main_step s = svc_main w s.place s
service_step w handler_step s = svc_handler s.handling s
service_step w (arrives c) s = record s { handling = hand_over c s.handling s.place }

unfoldable pub run_service : System → List Event → Service → Service
unfolding service_step
run_service w [] s = s
run_service w (e ∷ es) s = run_service w es (service_step w e s)
