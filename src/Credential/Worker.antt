-- ===== src/Credential/Worker.antt =====
-- `LigamentCredential::RunAsyncJob` (windows/credential_provider/LigamentCredential.cpp) as steps of
-- the worker thread. A step is what the thread does up to and with its next critical section or its
-- next test of the stop flag. The answer of the call that the step makes is an argument.
use ligament_apps.Common.{
  ℕ, ◌+◌, Bool, true, false, ◌&&◌, ◌||◌, [], ◌∷◌, ◌++◌, ltb, if◌then◌else◌, not, empty,
}
use ligament_apps.Common.Text.{Text, codes, eq_text}
use ligament_apps.Credential.{
  is_credui, WorkerJob, no_job, start_push, webauthn_begin, verify_otp, Status, literal, described,
  Task, Pc, absent, starting, gate, begin, waiting, polling, finished, Credential, Reply, max_polls,
  network_error, approved, denied, expired, timeout,
}

abbrev pub has_job : WorkerJob → Bool
has_job no_job = false
has_job _ = true

abbrev pub is_passkey : WorkerJob → Bool
is_passkey webauthn_begin = true
is_passkey _ = false

-- Takes the job and wipes the members that hold its secrets; the gate is for a remote logon.
take_job : Credential → Credential
take_job c = record c {
  job = no_job;
  job_user = [];
  job_domain = [];
  job_pass = [];
  job_otp = [];
  pc =
      if c.is_remote_session && not (is_credui c.cpus) && has_job c.job
      then gate task
      else begin task;
}
  where
    task : Task
    task = record {
      job = c.job;
      user = c.job_user;
      domain = c.job_domain;
      pass = c.job_pass;
      otp = c.job_otp;
    }

-- Phase 0: the RDP gate. An unsatisfied gate leads to the usual factors.
run_gate : Reply → Task → Credential → Credential
run_gate r task c =
    if not r.gate_satisfied
    then record c { pc = begin task }
    else if c.worker.stop
    then record c { pc = finished }
    else record c {
      worker = record c.worker { begin_done = true; begin_ok = true; done = true };
      authenticated = true;
      status_text = literal "✅ Вход подтверждён через шлюз Ligament, выполняется вход...";
      pc = finished;
    }

-- The text that announces a push, with or without a number to match.
abbrev pub push_sent : Text → Status
push_sent number =
    if not (empty number)
    then literal "Подтвердите вход в приложении:\nВведите контрольное число:"
    else literal "Push отправлен! Подтвердите вход в приложении/Telegram..."

-- Phase 1, `JobStartPush`.
begin_push : Reply → Task → Credential → Credential
begin_push r task c =
    let w = record c.worker {
      begin_done = true;
      begin_ok = r.ok;
      begin_error = r.error;
      retry_after_sec = r.retry_after;
    } in
    if c.worker.stop
    then record c { pc = finished }
    else if r.ok
    then record c {
      worker = record w { number_match = r.number_match };
      number_match = r.number_match;
      status_text = push_sent r.number_match;
      pc = waiting task r.challenge_id 0 0;
    }
    else record c { worker = w; pc = finished }

-- Phase 1, `JobWebAuthnBegin`.
begin_webauthn : Reply → Task → Credential → Credential
begin_webauthn r task c =
    let w = record c.worker {
      begin_done = true;
      begin_ok = r.ok;
      begin_error = r.error;
      retry_after_sec = r.retry_after;
    } in
    if c.worker.stop
    then record c { pc = finished }
    else if r.ok
    then record c {
      worker = record w {
        qr_url = c.config.server_url ++ codes "/auth/passkey?handle=" ++ r.handle;
      };
      qr_bmp = r.qr_drawn;
      status_text = literal "Отсканируйте QR-код камерой телефона (Face ID / Touch ID)";
      pc = waiting task r.challenge_id 0 0;
    }
    else record c {
      worker = w;
      qr_bmp = false;
      status_text = described "Ошибка Passkey: " r.error r.retry_after;
      pc = finished;
    }

-- Phase 1, `JobVerifyOtp`: there is no second phase.
begin_otp : Reply → Credential → Credential
begin_otp r c =
    let w = record c.worker {
      begin_done = true;
      begin_ok = r.ok;
      begin_error = r.error;
      retry_after_sec = r.retry_after;
      done = true;
    } in
    if c.worker.stop
    then record c { pc = finished }
    else if r.ok
    then record c {
      worker = w;
      authenticated = true;
      status_text = literal "✅ Код подтверждён! Выполняется вход в систему...";
      pc = finished;
    }
    else record c {
      worker = w;
      status_text = described "❌ Вход отклонён: " r.error r.retry_after;
      pc = finished;
    }

begin_job : WorkerJob → Reply → Task → Credential → Credential
unfolding begin_push begin_webauthn begin_otp
begin_job no_job r task c = record c { pc = finished }
begin_job start_push r task c = begin_push r task c
begin_job webauthn_begin r task c = begin_webauthn r task c
begin_job verify_otp r task c = begin_otp r c

-- The head of the polling loop: the bound, then the stop flag; past the bound, the timeout.
run_waiting : Task → Text → ℕ → ℕ → Credential → Credential
run_waiting task challenge round errors c =
    if c.worker.stop
    then record c { pc = finished }
    else if ltb round (max_polls c.config)
    then record c { pc = polling task challenge round errors }
    else record c {
      worker = record c.worker { status = timeout; done = true };
      status_text = literal (
          if is_passkey task.job
          then "⌛ Время ожидания Passkey истекло"
          else "⌛ Время ожидания подтверждения истекло");
      qr_bmp = false;
      number_match = [];
      pc = finished;
    }

abbrev pub is_terminal : Text → Bool
is_terminal status = eq_text status approved || eq_text status denied || eq_text status expired

-- The text for a terminal status of the challenge.
abbrev verdict_text : WorkerJob → Text → Status
verdict_text job status =
    if eq_text status approved
    then literal "✅ Вход подтверждён! Выполняется вход в систему..."
    else if eq_text status denied
    then literal (
        if is_passkey job
        then "❌ Вход по Passkey отклонён на телефоне"
        else "❌ Вход отклонён пользователем")
    else literal (
        if is_passkey job
        then "⌛ Срок действия QR-кода истёк, повторите попытку"
        else "⌛ Срок действия подтверждения истёк, повторите попытку")

-- A terminal status is published unless a stop was requested; the ticket is written after it.
publish_verdict : Reply → Task → Credential → Credential
publish_verdict r task c = if c.worker.stop then record c { pc = finished } else record c {
  worker = record c.worker { status = r.status; done = true };
  authenticated = eq_text r.status approved || c.authenticated;
  status_text = verdict_text task.job r.status;
  qr_bmp = false;
  number_match = [];
  tickets =
      if eq_text r.status approved && not (empty r.sso_ticket)
      then record { domain = task.domain; user = task.user; ticket = r.sso_ticket } ∷ c.tickets
      else c.tickets;
  pc = finished;
}

-- `PollStatus` and what follows it in one round.
run_polling : Reply → Task → Text → ℕ → ℕ → Credential → Credential
unfolding publish_verdict
run_polling r task challenge round errors c =
    if r.ok
    then (if is_terminal r.status
        then publish_verdict r task c
        else record c { pc = waiting task challenge (round + 1) 0 })
    else record c {
      pc =
          waiting task challenge (round + 1)
            (if eq_text r.error network_error then errors + 1 else errors);
    }

unfoldable pub run_at : Pc → Reply → Credential → Credential
unfolding take_job run_gate begin_job run_waiting run_polling
run_at absent r c = c
run_at starting r c = take_job c
run_at (gate task) r c = run_gate r task c
run_at (begin task) r c = begin_job task.job r task c
run_at (waiting task challenge round errors) r c = run_waiting task challenge round errors c
run_at (polling task challenge round errors) r c = run_polling r task challenge round errors c
run_at finished r c = c

-- One step of the worker thread.
unfoldable pub worker_step : Reply → Credential → Credential
unfolding run_at
worker_step r c = run_at c.pc r c
