-- ===== src/Http/FailOpen.antt =====
-- The worker with the client as its server: when a failed start of a job lets a logon through.
use ligament_apps.Common.{◌≡◌, refl, sym, ◌∙◌, ◌≢◌, ◌⊎◌, Bool, true, false, [], arith}
use ligament_apps.Common.Text.{eq_of_eq_text}
use ligament_apps.Http.{Platform, Client}
use ligament_apps.Http.Calls.{
  CallResult, no_result, start_push, verify_combined, web_authn_begin, start_request,
  combined_request, verify_request, begin_request,
}
use ligament_apps.Http.Answers.{
  IsUnanswered, SaysError, start_push-network_error, web_authn_begin-network_error,
  verify_combined-network_error,
}
use ligament_apps.Credential.{Credential, Task, WorkerJob, no_job, Reply, begin, network_error}
use ligament_apps.Credential.Worker.{worker_step, run_at}
use ligament_apps.Credential.Serialize.{fails_open}

-- The call that `RunAsyncJob` makes for a job.
unfoldable pub job_call : Platform → Client → Task → CallResult
job_call p client task = elim task.job [
  | WorkerJob.no_job ↦ no_result
  | WorkerJob.start_push ↦ start_push p client task.user task.pass
  | WorkerJob.webauthn_begin ↦ web_authn_begin p client task.user task.pass
  | WorkerJob.verify_otp ↦ verify_combined p client task.user task.pass task.otp
]

-- What the worker takes of its result; `drawn` is what `CreateQrBitmap` gives.
unfoldable pub reply_of : Platform → Bool → WorkerJob → CallResult → Reply
reply_of p drawn job r = record {
  gate_satisfied = false;
  ok = r.ok;
  error = r.error;
  retry_after = r.retry_after;
  challenge_id = elim job [
    | WorkerJob.webauthn_begin ↦ p.to_wide r.challenge_id
    | _ ↦ r.challenge_id
  ];
  number_match = r.number_match;
  handle = p.to_wide r.handle;
  qr_drawn = drawn;
  status = [];
  sso_ticket = [];
}

-- No answer came to the request of a job, or one that gives this error itself.
abbrev pub JobUnanswered : Platform → Client → Task → WorkerJob → Type 0
JobUnanswered p client task WorkerJob.no_job = ⊥
JobUnanswered p client task WorkerJob.start_push =
    IsUnanswered p (start_request p client task.user task.pass)
JobUnanswered p client task WorkerJob.webauthn_begin =
    IsUnanswered p (begin_request p client task.user task.pass)
JobUnanswered p client task WorkerJob.verify_otp =
    IsUnanswered p (combined_request p client task.user task.pass task.otp)
    ⊎ SaysError p (verify_request p client task.user task.pass task.otp) network_error

job_call-network_error :
    (p : Platform) (client : Client) (task : Task) (job : WorkerJob)
    → task.job ≡ job
    → (job_call p client task).error ≡ network_error
    → JobUnanswered p client task job
unfolding job_call
job_call-network_error p client task WorkerJob.no_job e h = ground (arith, e)
job_call-network_error p client task WorkerJob.start_push e h =
    start_push-network_error p client task.user task.pass (ground (arith, e))
job_call-network_error p client task WorkerJob.webauthn_begin e h =
    web_authn_begin-network_error p client task.user task.pass (ground (arith, e))
job_call-network_error p client task WorkerJob.verify_otp e h =
    verify_combined-network_error p client task.user task.pass task.otp (ground (arith, e))

-- Where the worker has begun a job, is not stopped and takes its answer from the client, the test
-- that lets a logon through without the factor holds after the step only under a fail-open policy,
-- and only where the job's request got no answer or an answer that gives network_error itself (for
-- a code, also such an answer of the relay).
pub fail_open_unanswered :
    (p : Platform) (client : Client) (drawn : Bool) (task : Task) (c : Credential)
    → c.pc ≡ begin task
    → c.worker.stop ≡ false
    → task.job ≢ no_job
    → fails_open (worker_step (reply_of p drawn task.job (job_call p client task)) c) ≡ true
    → (c.config.fail_close ≡ false) × JobUnanswered p client task task.job
unfolding worker_step reply_of
fail_open_unanswered p client drawn task c at s j h = (
  ground (arith, facts),
  job_call-network_error p client task task.job refl
      (sym facts.0 ∙ eq_of_eq_text d.worker.begin_error network_error (ground (arith, h))),
)
  where
    d : Credential
    d = worker_step (reply_of p drawn task.job (job_call p client task)) c

    facts :
        (d.worker.begin_error ≡ (job_call p client task).error)
        × (d.config.fail_close ≡ c.config.fail_close)
    facts = rw (at, run_at) (ground (arith, s, j))
