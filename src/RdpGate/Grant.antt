-- ===== src/RdpGate/Grant.antt =====
-- The worker of windows/credential_provider/LigamentCredential.cpp with the gate of rdp_gate.cpp as
-- its phase 0.
use ligament_apps.Common.{◌≡◌, ap, ◌∙◌, true, false, ◌&&◌, ◌||◌, arith, not}
use ligament_apps.Common.Text.{Text}
use ligament_apps.Http.{Request}
use ligament_apps.Credential.{Credential, Task, Reply, gate}
use ligament_apps.Credential.Worker.{worker_step}
use ligament_apps.Credential.Grants.{worker_step-authenticated, grants}
use ligament_apps.RdpGate.{System, check_rdp_mfa_satisfied}
use ligament_apps.RdpGate.Verdict.{IsAsked, IsGranted, satisfied-IsAsked}

-- The answer that the worker takes from the gate for a task.
unfoldable pub gate_reply : System → Text → Credential → Task → Reply → Reply
gate_reply sys computer_name c task r = record r {
  gate_satisfied =
      (check_rdp_mfa_satisfied sys c.config.server_url task.user computer_name
        c.config.allow_self_signed c.config.allow_http).satisfied;
}

-- A worker at the gate that takes its answer from it, with the factor not confirmed before,
-- confirms the factor by its step only where no stop is requested, the gate asks with all that it
-- needs for the task's user, over https unless http is allowed, and the server grants.
pub gate_grants :
    (sys : System) (computer_name : Text) (task : Task) (r : Reply) (c : Credential)
    → c.pc ≡ gate task
    → c.authenticated ≡ false
    → (worker_step (gate_reply sys computer_name c task r) c).authenticated ≡ true
    → (c.worker.stop ≡ false)
      × ((request : Request) × (headers : Text) × IsAsked sys c.config.server_url task.user
            computer_name c.config.allow_self_signed c.config.allow_http request headers
          × IsGranted sys request headers)
unfolding gate_reply
gate_grants sys computer_name task r c at e h = (
  ground (arith, granted, e, h),
  satisfied-IsAsked sys c.config.server_url task.user computer_name c.config.allow_self_signed
      c.config.allow_http (ground (arith, granted, e, h)),
)
  where
    granted : (worker_step (gate_reply sys computer_name c task r) c).authenticated ≡ (
        c.authenticated
        || not c.worker.stop && (gate_reply sys computer_name c task r).gate_satisfied)
    granted =
        worker_step-authenticated (gate_reply sys computer_name c task r) c
        ∙ ap
            (λ q.
              c.authenticated
              || not c.worker.stop && grants q (gate_reply sys computer_name c task r))
            at
