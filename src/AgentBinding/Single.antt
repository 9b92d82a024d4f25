-- ===== src/AgentBinding/Single.antt =====
-- One binding at a time, and one answer to each call: the channel of
-- windows/runner/link_agent_binding_bridge.cpp over any events.
use ligament_apps.Common.{
  ℕ, zero, suc, ◌+◌, ◌≤◌, ◌<◌, ◌≡◌, inl, inr, true, Option, none, some, List, [], ◌∷◌, arith,
  if◌then◌else◌, Option-cases, length,
}
use mathlib.Core.Path.{subst}
use ligament_apps.Common.Text.{Text}
use ligament_apps.AgentBinding.{Outcome}
use ligament_apps.AgentBinding.Exchange.{is_hex_token}
use ligament_apps.AgentBinding.Handler.{
  Request, Answer, Job, binding, answering, Bridge, new_bridge, valid_request, on_call,
  ends_binding, takes_answer, Event, call, ends, answers_at, bridge_step, run_bridge,
}

-- The threads that stand in `BindOverNamedPipe`.
abbrev pub bindings : List Job → List (Text × Text)
bindings [] = []
bindings (binding url token ∷ js) = (url, token) ∷ bindings js
bindings (answering a ∷ js) = bindings js

abbrev pub calls : List Event → ℕ
calls [] = 0
calls (call r ∷ es) = suc (calls es)
calls (ends i o ∷ es) = calls es
calls (answers_at i ∷ es) = calls es

-- A binding runs only for a token of 64 hexadecimal digits and a URL of 1 to 2048 bytes.
abbrev pub AllValid : List Job → Type 0
AllValid [] = Unit
AllValid (binding url token ∷ js) =
    (is_hex_token token ≡ true) × (0 < length url) × (length url ≤ 2048) × AllValid js
AllValid (answering a ∷ js) = AllValid js

-- After so many calls: the flag is set exactly where one binding runs, and none runs else; each call
-- has its answer or a thread that will give it.
pub record Inv (n : ℕ) (b : Bridge) : Type 0 where
  pub single : length (bindings b.jobs) ≡ (if b.busy then 1 else 0)
  pub counted : length b.answers + length b.jobs ≡ n
  pub valid : AllValid b.jobs

valid_request-lem :
    (r : Request) (url token : Text)
    → valid_request r ≡ some (url, token)
    → (is_hex_token token ≡ true) × (0 < length url) × (length url ≤ 2048)
unfolding valid_request
valid_request-lem r url token h = valid_parts r.token r.server_url h
  where
    valid_parts :
        (t u : Option Text)
        → valid_request (record { method = r.method; token = t; server_url = u })
          ≡ some (url, token)
        → (is_hex_token token ≡ true) × (0 < length url) × (length url ≤ 2048)
    valid_parts none u h = cc
    valid_parts (some t) none h = cc
    valid_parts (some t) (some []) h = absurd (ground (arith, h))
    valid_parts (some t) (some (c ∷ u)) h = ground (arith, h)

on_call-Inv : (n : ℕ) (r : Request) (b : Bridge) → Inv n b → Inv (n + 1) (on_call r b)
unfolding on_call
on_call-Inv n r b v = elim (Option-cases (valid_request r)) [
  | inl e ↦ ground (arith, e)
  | inr ((url, token), e) ↦ ground (arith, e, valid_request-lem r url token e)
]

ends_binding-lem :
    (i : ℕ) (o : Option Outcome) (js js' : List Job)
    → ends_binding i o js ≡ some js'
    → AllValid js
    → (length (bindings js) ≡ suc (length (bindings js'))) × (length js' ≡ length js) × AllValid js'
unfolding ends_binding
ends_binding-lem i o [] js' h v = cc
ends_binding-lem zero o (binding url token ∷ js) js' h v = ground (arith, h)
ends_binding-lem zero o (answering a ∷ js) js' h v = cc
ends_binding-lem (suc i) o (binding url token ∷ js) js' h v =
    elim (Option-cases (ends_binding i o js)) [
      | inl e ↦ absurd (ground (arith, h, e))
      | inr (js2, e) ↦ ground (arith, h, e, ends_binding-lem i o js js2 e v.3)
    ]
ends_binding-lem (suc i) o (answering a ∷ js) js' h v = elim (Option-cases (ends_binding i o js)) [
  | inl e ↦ absurd (ground (arith, h, e))
  | inr (js2, e) ↦ ground (arith, h, e, ends_binding-lem i o js js2 e v)
]

takes_answer-lem :
    (i : ℕ) (js js' : List Job) (a : Answer)
    → takes_answer i js ≡ some (a, js')
    → AllValid js
    → (length (bindings js) ≡ length (bindings js')) × (length js ≡ suc (length js')) × AllValid js'
unfolding takes_answer
takes_answer-lem i [] js' a h v = cc
takes_answer-lem zero (binding url token ∷ js) js' a h v = cc
takes_answer-lem zero (answering b ∷ js) js' a h v = ground (arith, h)
takes_answer-lem (suc i) (binding url token ∷ js) js' a h v =
    elim (Option-cases (takes_answer i js)) [
      | inl e ↦ absurd (ground (arith, h, e))
      | inr ((b, js2), e) ↦ ground (arith, h, e, takes_answer-lem i js js2 b e v.3)
    ]
takes_answer-lem (suc i) (answering c ∷ js) js' a h v = elim (Option-cases (takes_answer i js)) [
  | inl e ↦ absurd (ground (arith, h, e))
  | inr ((b, js2), e) ↦ ground (arith, h, e, takes_answer-lem i js js2 b e v)
]

bridge_step-Inv :
    (n : ℕ) (e : Event) (b : Bridge) → Inv n b → Inv (n + calls (e ∷ [])) (bridge_step e b)
unfolding bridge_step
bridge_step-Inv n (call r) b v = on_call-Inv n r b v
bridge_step-Inv n (ends i o) b v = elim (Option-cases (ends_binding i o b.jobs)) [
  | inl e ↦ ground (arith, e)
  | inr (js, e) ↦ ground (arith, e, ends_binding-lem i o b.jobs js e v.valid)
]
bridge_step-Inv n (answers_at i) b v = elim (Option-cases (takes_answer i b.jobs)) [
  | inl e ↦ ground (arith, e)
  | inr ((a, js), e) ↦ ground (arith, e, takes_answer-lem i b.jobs js a e v.valid)
]

run_bridge-from :
    (n : ℕ) (es : List Event) (b : Bridge) → Inv n b → Inv (n + calls es) (run_bridge es b)
unfolding run_bridge
run_bridge-from n [] b v = subst (λ m. Inv m b) (omega arith) v
run_bridge-from n (e ∷ es) b v =
    subst (λ m. Inv m (run_bridge (e ∷ es) b)) (counts e)
      (run_bridge-from (n + calls (e ∷ [])) es (bridge_step e b) (bridge_step-Inv n e b v))
  where
    counts : (e : Event) → (n + calls (e ∷ [])) + calls es ≡ n + calls (e ∷ es)
    counts (call r) = omega arith
    counts (ends i o) = omega arith
    counts (answers_at i) = omega arith

-- In any order of calls of the channel and steps of its threads, a binding runs exactly where the
-- flag is set, and then one only, each has a token of 64 hexadecimal digits and a URL of 1 to 2048
-- bytes, and the answers given and the threads that will answer are as many as the calls.
pub run_bridge-Inv : (es : List Event) → Inv (calls es) (run_bridge es new_bridge)
unfolding new_bridge
run_bridge-Inv es =
    subst (λ m. Inv m (run_bridge es new_bridge)) (omega arith)
      (run_bridge-from 0 es new_bridge (omega arith))
