-- ===== src/Credential/Thread.antt =====
-- The life of the worker thread as LogonUI's thread sees it: `StartWorkerJob`, `StopPollThread`,
-- `JoinPollThread` and `ResetAuthState` of windows/credential_provider/LigamentCredential.cpp.
use ligament_apps.Common.{
  ℕ, zero, suc, ◌+◌, ◌-◌, ◌*◌, Bool, true, false, List, [], ◌∷◌, if◌then◌else◌,
}
use ligament_apps.Credential.{
  WorkerJob, no_job, verify_otp, Status, fresh_worker, Pc, absent, starting, gate, begin, waiting,
  polling, finished, is_running, Credential, Reply, max_polls,
}
use ligament_apps.Credential.Worker.{worker_step}

-- What surrounds one call of LogonUI. `fold` is the C runtime's case folding; `race` are the answers
-- to the steps that the worker makes while `ResetAuthState` has cleared the result and has not yet
-- set the stop flag; `answers` are those to its steps while LogonUI waits for it to end;
-- `thread_created` and `packed` say whether `CreateThread` and the serialization succeed.
pub record Host : Type 0 where
  pub fold : ℕ → ℕ
  pub race : List Reply
  pub answers : ℕ → Reply
  pub thread_created : Bool
  pub packed : Bool

-- The steps of the worker for given answers.
unfoldable pub run_worker : List Reply → Credential → Credential
run_worker [] c = c
run_worker (r ∷ rs) c = run_worker rs (worker_step r c)

-- `WaitForSingleObject(m_hPollThread, INFINITE)`: the worker runs until it has returned.
unfoldable pub drain : ℕ → (ℕ → Reply) → Credential → Credential
drain zero answers c = c
drain (suc fuel) answers c = elim (is_running c.pc) [
  | true ↦ drain fuel (λ n. answers (suc n)) (worker_step (answers 0) c)
  | false ↦ c
]

-- The steps that a worker can still make, at most.
abbrev pub steps_left : ℕ → Pc → ℕ
steps_left rounds absent = 0
steps_left rounds starting = 2 * rounds + 4
steps_left rounds (gate task) = 2 * rounds + 3
steps_left rounds (begin task) = 2 * rounds + 2
steps_left rounds (waiting task challenge round errors) = 2 * (rounds - round) + 1
steps_left rounds (polling task challenge round errors) = 2 * (rounds - (round + 1)) + 2
steps_left rounds finished = 0

-- The members that `JoinPollThread` clears once the thread has ended.
clear_job : Credential → Credential
clear_job c = record c {
  pc = absent;
  job = no_job;
  job_user = [];
  job_domain = [];
  job_pass = [];
  job_otp = [];
  worker = fresh_worker;
}

unfoldable pub join_poll_thread : (ℕ → Reply) → Credential → Credential
unfolding clear_job
join_poll_thread answers c = clear_job (drain (steps_left (max_polls c.config) c.pc) answers c)

unfoldable pub set_stop : Credential → Credential
set_stop c = record c { worker = record c.worker { stop = true } }

unfoldable pub stop_poll_thread : (ℕ → Reply) → Credential → Credential
unfolding set_stop
stop_poll_thread answers c = join_poll_thread answers (set_stop c)

abbrev is_otp_job : WorkerJob → Bool
is_otp_job verify_otp = true
is_otp_job _ = false

-- The job as `StartWorkerJob` stores it for the worker, which starts.
unfoldable pub post_job : WorkerJob → Status → Credential → Credential
post_job job status c = record c {
  worker = fresh_worker;
  job = job;
  job_user = c.username;
  job_domain = c.domain;
  job_pass = c.password;
  job_otp = if is_otp_job job then c.otp_code else c.job_otp;
  status_text = status;
  begin_applied = false;
  pc = starting;
}

unfoldable pub start_worker_job : Host → WorkerJob → Status → Credential → Credential × Bool
unfolding clear_job
start_worker_job host job status c =
    let posted = post_job job status (stop_poll_thread host.answers c) in
    if host.thread_created then (posted, true) else (clear_job posted, false)

-- What `ResetAuthState` clears before it stops the worker.
unfoldable pub clear_result : Credential → Credential
clear_result c = record c {
  authenticated = false;
  number_match = [];
  begin_applied = false;
  qr_bmp = false;
  otp_code = [];
}

unfoldable pub reset_auth_state : Host → Credential → Credential
reset_auth_state host c = stop_poll_thread host.answers (run_worker host.race (clear_result c))
