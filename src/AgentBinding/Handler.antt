-- ===== src/AgentBinding/Handler.antt =====
-- The method channel of windows/runner/link_agent_binding_bridge.cpp: what `bindHost` accepts, and the
-- flag that lets one binding run at a time, with the thread of each binding as steps.
use ligament_apps.Common.{
  ℕ, zero, suc, Bool, true, false, ◌||◌, Option, none, some, List, [], ◌∷◌, ltb, if◌then◌else◌, not,
  length, empty,
}
use ligament_apps.Common.Text.{Text, codes, eq_text}
use ligament_apps.AgentBinding.{Outcome, bound, thrown}
use ligament_apps.AgentBinding.Exchange.{is_hex_token}

-- `enrollment_token` and `server_url` of the arguments, where they are there and texts.
pub record Request : Type 0 where
  pub method : Text
  pub token : Option Text
  pub server_url : Option Text

-- What a call of the channel is answered.
pub data Answer : Type 0 where
  not_implemented : Answer
  success : (fingerprint : Text) → Answer
  failure : (code message : Text) → Answer

-- A thread stands in `BindOverNamedPipe`, or between the reset of the flag and its answer.
pub data Job : Type 0 where
  binding : (server_url token : Text) → Job
  answering : Answer → Job

-- The flag, the threads that have not answered, and the answers so far, newest first.
pub record Bridge : Type 0 where
  pub busy : Bool
  pub jobs : List Job
  pub answers : List Answer

unfoldable pub new_bridge : Bridge
new_bridge = record { busy = false; jobs = []; answers = [] }

-- The arguments of a request that the handler takes.
unfoldable pub valid_request : Request → Option (Text × Text)
unfolding is_hex_token
valid_request r = elim r.token [
  | none ↦ none
  | some token ↦ elim r.server_url [
    | none ↦ none
    | some server_url ↦
        if not (is_hex_token token) || (empty server_url || ltb 2048 (length server_url))
        then none
        else some (server_url, token)
  ]
]

abbrev pub answer : Answer → Bridge → Bridge
answer a b = record b { answers = a ∷ b.answers }

-- The handler of a call. `compare_exchange_strong` fails where the flag is set.
unfoldable pub on_call : Request → Bridge → Bridge
unfolding valid_request
on_call r b =
    if not (eq_text r.method (codes "bindHost"))
    then answer not_implemented b
    else elim (valid_request r) [
      | none ↦
          answer
            (failure (codes "invalid_binding_request") (codes "Invalid Link host binding request"))
            b
      | some (server_url, token) ↦
          if b.busy
          then answer
              (failure (codes "binding_in_progress")
                (codes "A Link host binding is already in progress"))
              b
          else record b { busy = true; jobs = binding server_url token ∷ b.jobs }
    ]

-- What the thread answers; `none` is an exception that is no `BindingException`.
abbrev pub answer_of : Option Outcome → Answer
answer_of none =
    failure (codes "link_agent_binding_failed") (codes "Windows Link host binding failed")
answer_of (some (bound fingerprint)) = success fingerprint
answer_of (some (thrown code message)) = failure code message

-- The thread at this place ends its binding: it resets the flag, and then it will answer.
unfoldable pub ends_binding : ℕ → Option Outcome → List Job → Option (List Job)
ends_binding i o [] = none
ends_binding zero o (binding url token ∷ js) = some (answering (answer_of o) ∷ js)
ends_binding zero o (answering a ∷ js) = none
ends_binding (suc i) o (j ∷ js) = elim (ends_binding i o js) [
  | none ↦ none
  | some js' ↦ some (j ∷ js')
]

-- The thread at this place answers and ends.
unfoldable pub takes_answer : ℕ → List Job → Option (Answer × List Job)
takes_answer i [] = none
takes_answer zero (binding url token ∷ js) = none
takes_answer zero (answering a ∷ js) = some (a, js)
takes_answer (suc i) (j ∷ js) = elim (takes_answer i js) [
  | none ↦ none
  | some (a, js') ↦ some (a, j ∷ js')
]

-- A call of the channel, or a step of one of the threads.
pub data Event : Type 0 where
  call : Request → Event
  ends : ℕ → Option Outcome → Event
  answers_at : ℕ → Event

-- A step that no thread can make leaves all as it is.
unfoldable pub bridge_step : Event → Bridge → Bridge
unfolding on_call ends_binding takes_answer
bridge_step (call r) b = on_call r b
bridge_step (ends i o) b = elim (ends_binding i o b.jobs) [
  | none ↦ b
  | some jobs ↦ record b { busy = false; jobs = jobs }
]
bridge_step (answers_at i) b = elim (takes_answer i b.jobs) [
  | none ↦ b
  | some (a, jobs) ↦ answer a (record b { jobs = jobs })
]

unfoldable pub run_bridge : List Event → Bridge → Bridge
run_bridge [] b = b
run_bridge (e ∷ es) b = run_bridge es (bridge_step e b)
