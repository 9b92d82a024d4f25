-- ===== src/AgentBinding/Calls.antt =====
-- The calls that the checks of the service make, in windows/runner/link_agent_binding_bridge.cpp.
use ligament_apps.Common.{ℕ, ◌≡◌, refl, ◌⊎◌, inl, inr, List, [], ◌∷◌, ◌++◌, arith}
use ligament_apps.AgentBinding.{
  LinkService, Asked, denied, given, Call, opens, closes, asks, Handle, LinkPipeSessionResult,
  asking, check_session, identify, inspect, check_status, check_account, check_link_pipe_session,
}

pub Asked-cases :
    {A : Type 0} (a : Asked A) → ((e : ℕ) × (a ≡ denied e)) ⊎ ((x : A) × (a ≡ given x))
Asked-cases (denied e) = inl (e, refl)
Asked-cases (given x) = inr (x, refl)

abbrev AskedOrNot : List Call → Type 0
AskedOrNot cs = (cs ≡ []) ⊎ (cs ≡ asks ∷ [])

check_session-calls : (r : LinkPipeSessionResult) → (asking (check_session r)).calls ≡ asks ∷ []
check_session-calls r = ground arith

check_account-calls : (s : LinkService) → AskedOrNot (check_account s).calls
unfolding check_account
check_account-calls s = ground (arith, check_session-calls (check_link_pipe_session s.session))

check_status-calls : (s : LinkService) (pid : ℕ) → AskedOrNot (check_status s pid).calls
unfolding check_status
check_status-calls s pid = ground (arith, check_account-calls s)

abbrev with_manager : List Call → List Call
with_manager cs = opens Handle.manager ∷ cs ++ closes Handle.manager ∷ []

abbrev with_service : List Call → List Call
with_service cs = opens Handle.service ∷ cs ++ closes Handle.service ∷ []

inspect-calls :
    (s : LinkService) (pid : ℕ)
    → ((inspect s pid).calls ≡ [])
      ⊎ (((inspect s pid).calls ≡ with_service [])
          ⊎ ((inspect s pid).calls ≡ with_service (asks ∷ [])))
unfolding inspect
inspect-calls s pid = ground (arith, check_status-calls s pid)

-- The checks ask for the pipe's process, and open nothing more, the service manager, or the service in
-- it, where they may ask for the pipe's session; they close what they open.
pub identify-calls :
    (s : LinkService)
    → ((identify s).calls ≡ asks ∷ [])
      ⊎ (((identify s).calls ≡ asks ∷ with_manager [])
          ⊎ (((identify s).calls ≡ asks ∷ with_manager (with_service []))
              ⊎ ((identify s).calls ≡ asks ∷ with_manager (with_service (asks ∷ [])))))
unfolding identify
identify-calls s = elim (Asked-cases s.server_pid) [
  | inl (e, p) ↦ inl (rw p)
  | inr (pid, p) ↦ elim (Asked-cases s.manager) [
    | inl (e, q) ↦ inl (rw (p, q))
    | inr (_, q) ↦ inr (elim (inspect-calls s pid) [
      | inl r ↦ inl (ground (arith, p, q, r))
      | inr (inl r) ↦ inr (inl (ground (arith, p, q, r)))
      | inr (inr r) ↦ inr (inr (ground (arith, p, q, r)))
    ])
  ]
]
