-- ===== src/AgentBinding/Trust.antt =====
-- Whom the binding of windows/runner/link_agent_binding_bridge.cpp tells its token.
use ligament_apps.Common.{
  ℕ, ◌≡◌, ◌⊎◌, inl, inr, true, ◌&&◌, none, some, List, [], ◌∷◌, ◌++◌, arith, Bool-cases,
  Option-cases,
}
use ligament_apps.Common.{and_left, and_right}
use ligament_apps.AgentBinding.Calls.{Asked-cases, identify-calls}
use ligament_apps.Common.Text.{Text, codes, eq_icase}
use ligament_apps.AgentBinding.{
  LinkService, given, Call, opens, closes, writes, reads, asks, wipes, Handle, token_text, url_text,
  identify, inspect, check_status, check_account, check_link_pipe_session,
}
use ligament_apps.AgentBinding.Exchange.{bind_over_named_pipe, exchange, bind_request, read_reply}

-- What was written to the pipe, in order.
abbrev pub sent : List Call → List Text
sent [] = []
sent (writes s ∷ cs) = s ∷ sent cs
sent (opens _ ∷ cs) = sent cs
sent (closes _ ∷ cs) = sent cs
sent (reads ∷ cs) = sent cs
sent (asks ∷ cs) = sent cs
sent (wipes _ ∷ cs) = sent cs

-- The pipe was reached, and the process behind it is that of the running service, which is configured
-- to run as LocalSystem, and serves the pipe from session 0.
pub record IsLinkAgent (s : LinkService) : Type 0 where
  pub reached : (s.waited ≡ true) × (s.opened ≡ true)
  pub pid : ℕ
  pub serves : s.server_pid ≡ given pid
  pub running : s.status ≡ given (4, pid)
  pub account : Text
  pub configured : s.account ≡ given (some account)
  pub is_system : eq_icase s.fold account (codes "LocalSystem") ≡ true
  pub in_session_0 : s.session ≡ given 0

check_account-trusted :
    (s : LinkService)
    → (check_account s).refusal ≡ none
    → (account : Text) × (s.account ≡ given (some account))
      × (eq_icase s.fold account (codes "LocalSystem") ≡ true)
      × (s.session ≡ given 0)
unfolding check_account check_link_pipe_session
check_account-trusted s h = elim (Asked-cases s.account) [
  | inl (e, p) ↦ absurd (ground (arith, h, p))
  | inr (none, p) ↦ absurd (ground (arith, h, p))
  | inr (some account, p) ↦ (account, p, ground (arith, h, p), ground (arith, h, p))
]

check_status-trusted :
    (s : LinkService) (pid : ℕ)
    → (check_status s pid).refusal ≡ none
    → (s.status ≡ given (4, pid)) × ((check_account s).refusal ≡ none)
unfolding check_status
check_status-trusted s pid h = elim (Asked-cases s.status) [
  | inl (e, p) ↦ absurd (ground (arith, h, p))
  | inr ((state, process), p) ↦ ground (arith, h, p)
]

identify-trusted :
    (s : LinkService)
    → (identify s).refusal ≡ none
    → (pid : ℕ) × (s.server_pid ≡ given pid) × ((check_status s pid).refusal ≡ none)
unfolding identify inspect
identify-trusted s h = elim (Asked-cases s.server_pid) [
  | inl (e, p) ↦ absurd (ground (arith, h, p))
  | inr (pid, p) ↦ (pid, p, ground (arith, h, p))
]

agent :
    (s : LinkService) → (s.waited && s.opened) ≡ true → (identify s).refusal ≡ none → IsLinkAgent s
agent s f e =
    let (pid, serves, checked) = identify-trusted s e in
    let (running, accepted) = check_status-trusted s pid checked in
    let (account, configured, is_system, in_session_0) = check_account-trusted s accepted in
    record {
      reached = (and_left s.waited s.opened f, and_right s.waited s.opened f);
      pid = pid;
      serves = serves;
      running = running;
      account = account;
      configured = configured;
      is_system = is_system;
      in_session_0 = in_session_0;
    }

exchange-sent :
    (s : LinkService) (server_url token : Text)
    → sent (exchange s server_url token).calls ≡ bind_request server_url token ∷ []
unfolding exchange read_reply
exchange-sent s server_url token = ground arith

-- The checks of the service write nothing.
identify-sent : (s : LinkService) (cs : List Call) → sent ((identify s).calls ++ cs) ≡ sent cs
identify-sent s cs = elim (identify-calls s) [
  | inl e ↦ rw e
  | inr (inl e) ↦ rw e
  | inr (inr (inl e)) ↦ rw e
  | inr (inr (inr e)) ↦ rw e
]

-- A binding writes nothing, or only its one request, and that only over a pipe that it reached,
-- whose server is the process of the running service, where the service is configured as
-- LocalSystem and serves the pipe from session 0.
pub sent-IsLinkAgent :
    (s : LinkService) (server_url token : Text)
    → (sent (bind_over_named_pipe s server_url token).calls ≡ [])
      ⊎ ((sent (bind_over_named_pipe s server_url token).calls ≡ bind_request server_url token ∷ [])
          × IsLinkAgent s)
unfolding bind_over_named_pipe
sent-IsLinkAgent s server_url token = elim (Option-cases (identify s).refusal) [
  | inr ((code, message), e) ↦ inl (
      ground
        (arith, e, identify-sent s (closes Handle.pipe ∷ wipes token_text ∷ wipes url_text ∷ [])))
  | inl e ↦ elim (Bool-cases (s.waited && s.opened)) [
    | inr f ↦ inl (ground (arith, e, f))
    | inl f ↦ inr (
      ground (
        arith,
        e,
        f,
        identify-sent s (exchange s server_url token).calls,
        exchange-sent s server_url token,
      ),
      agent s f e,
    )
  ]
]
