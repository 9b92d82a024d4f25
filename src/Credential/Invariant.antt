-- ===== src/Credential/Invariant.antt =====
-- The invariant of the tile between two steps of its worker (`RunAsyncJob` of
-- windows/credential_provider/LigamentCredential.cpp): when a thread is running, what its published
-- results mean, and with which password it asks.
use ligament_apps.Common.{◌≡◌, refl, Bool, true, false, [], arith}
use ligament_apps.Credential.{
  Factor, fido2, push, otp, WorkerJob, start_push, webauthn_begin, verify_otp, Pc, absent, starting,
  gate, begin, waiting, polling, finished, is_running, Credential, Reply, approved, timeout,
}
use ligament_apps.Common.Text.{eq_text}
use ligament_apps.Credential.Worker.{worker_step, run_at}

-- The job whose factor the tile's mode is.
abbrev pub job_of : Factor → WorkerJob
job_of fido2 = webauthn_begin
job_of push = start_push
job_of otp = verify_otp

abbrev pub is_otp : Factor → Bool
is_otp otp = true
is_otp _ = false

-- The job and the password of a running thread are the tile's; a code is never polled for.
abbrev pub IsOwn : Pc → Credential → Type 0
IsOwn absent c = Unit {0}
IsOwn starting c = (c.job ≡ job_of c.current_mode) × (c.job_pass ≡ c.password)
IsOwn (gate task) c = (task.job ≡ job_of c.current_mode) × (task.pass ≡ c.password)
IsOwn (begin task) c = (task.job ≡ job_of c.current_mode) × (task.pass ≡ c.password)
IsOwn (waiting task _ _ _) c =
    (task.job ≡ job_of c.current_mode) × (task.pass ≡ c.password) × (is_otp c.current_mode ≡ false)
IsOwn (polling task _ _ _) c =
    (task.job ≡ job_of c.current_mode) × (task.pass ≡ c.password) × (is_otp c.current_mode ≡ false)
IsOwn finished c = Unit {0}

pub record Inv (c : Credential) : Type 0 where
  pub confirmed_ended : c.authenticated ≡ true → is_running c.pc ≡ false
  pub done_ended : c.worker.done ≡ true → is_running c.pc ≡ false
  pub failed_ended :
      c.worker.begin_done ≡ true → c.worker.begin_ok ≡ false → is_running c.pc ≡ false
  pub code_accepted :
      is_otp c.current_mode ≡ true
      → c.worker.done ≡ true
      → c.worker.begin_ok ≡ true
      → c.authenticated ≡ true
  pub approval_accepted : eq_text c.worker.status approved ≡ true → c.authenticated ≡ true
  pub own : IsOwn c.pc c

pub timeout-ne-approved : eq_text timeout approved ≡ false
unfolding eq_text
timeout-ne-approved = refl

pub nil-ne-approved : eq_text [] approved ≡ false
unfolding eq_text
nil-ne-approved = refl

run_at-Inv : (p : Pc) (r : Reply) (c : Credential) → c.pc ≡ p → Inv c → Inv (run_at p r c)
unfolding run_at
run_at-Inv absent r c e v = v
run_at-Inv starting r c e v = ground arith
run_at-Inv (gate task) r c e v = ground arith
run_at-Inv (begin task) r c e v = ground arith
run_at-Inv (waiting task challenge round errors) r c e v = ground (arith, timeout-ne-approved)
run_at-Inv (polling task challenge round errors) r c e v = ground arith
run_at-Inv finished r c e v = v

-- Every step of the worker, whatever it is answered, keeps the invariant.
pub worker_step-Inv : (r : Reply) {c : Credential} → Inv c → Inv (worker_step r c)
unfolding worker_step
worker_step-Inv r {c} v = run_at-Inv c.pc r c refl v
