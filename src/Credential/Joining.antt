-- ===== src/Credential/Joining.antt =====
-- Waiting for the worker, `JoinPollThread` of windows/credential_provider/LigamentCredential.cpp: its
-- end, what a stopped worker publishes, and what a worker only reads.
use ligament_apps.Common.{
  ℕ, zero, suc, ◌≤◌, ◌<◌, ◌≡◌, refl, ◌∙◌, inl, inr, true, false, arith, Bool-cases,
}
use ligament_apps.Credential.{
  Pc, absent, starting, gate, begin, waiting, polling, finished, is_running, Credential, Reply,
  max_polls,
}
use ligament_apps.Credential.Worker.{worker_step, run_at}
use ligament_apps.Credential.Thread.{drain, steps_left}

-- What the worker only reads.
pub record SameInput (c d : Credential) : Type 0 where
  pub same_config : d.config ≡ c.config
  pub same_remote : d.is_remote_session ≡ c.is_remote_session
  pub same_cpus : d.cpus ≡ c.cpus
  pub same_mode : d.current_mode ≡ c.current_mode
  pub same_username : d.username ≡ c.username
  pub same_domain : d.domain ≡ c.domain
  pub same_username_raw : d.username_raw ≡ c.username_raw
  pub same_password : d.password ≡ c.password
  pub same_otp_code : d.otp_code ≡ c.otp_code
  pub same_stop : d.worker.stop ≡ c.worker.stop

SameInput-refl : (c : Credential) → SameInput c c
SameInput-refl c = ground arith

SameInput-trans : {c d e : Credential} → SameInput c d → SameInput d e → SameInput c e
SameInput-trans p q = ground arith

run_at-SameInput : (p : Pc) (r : Reply) (c : Credential) → SameInput c (run_at p r c)
unfolding run_at
run_at-SameInput absent r c = ground arith
run_at-SameInput starting r c = ground arith
run_at-SameInput (gate task) r c = ground arith
run_at-SameInput (begin task) r c = ground arith
run_at-SameInput (waiting task challenge round errors) r c = ground arith
run_at-SameInput (polling task challenge round errors) r c = ground arith
run_at-SameInput finished r c = ground arith

pub worker_step-SameInput : (r : Reply) (c : Credential) → SameInput c (worker_step r c)
unfolding worker_step
worker_step-SameInput r c = run_at-SameInput c.pc r c

pub drain-SameInput :
    (fuel : ℕ) (answers : ℕ → Reply) (c : Credential) → SameInput c (drain fuel answers c)
unfolding drain
drain-SameInput zero answers c = SameInput-refl c
drain-SameInput (suc fuel) answers c = elim (Bool-cases (is_running c.pc)) [
  | inl more ↦
      rw (more, drain)
        (SameInput-trans (worker_step-SameInput (answers 0) c)
          (drain-SameInput fuel (λ n. answers (suc n)) (worker_step (answers 0) c)))
  | inr over ↦ rw (over, drain) (SameInput-refl c)
]

-- A step of the worker uses one up of the steps that it has left.
run_at-steps :
    (p : Pc) (r : Reply) (c : Credential)
    → is_running p ≡ true
    → c.pc ≡ p
    → steps_left (max_polls c.config) (run_at p r c).pc < steps_left (max_polls c.config) p
unfolding run_at
run_at-steps absent r c h e = cc
run_at-steps starting r c h e = ground arith
run_at-steps (gate task) r c h e = ground arith
run_at-steps (begin task) r c h e = ground arith
run_at-steps (waiting task challenge round errors) r c h e = ground arith
run_at-steps (polling task challenge round errors) r c h e = ground arith
run_at-steps finished r c h e = cc

-- With the steps that a worker has left as fuel, waiting for the worker leaves a thread that is
-- not running: joining it always ends.
pub drain-ended :
    (fuel : ℕ) (answers : ℕ → Reply) (c : Credential)
    → steps_left (max_polls c.config) c.pc ≤ fuel
    → is_running (drain fuel answers c).pc ≡ false
unfolding drain worker_step
drain-ended zero answers c h = elim (Bool-cases (is_running c.pc)) [
  | inl more ↦ absurd (omega (arith, run_at-steps c.pc (answers 0) c more refl))
  | inr over ↦ over
]
drain-ended (suc fuel) answers c h = elim (Bool-cases (is_running c.pc)) [
  | inl more ↦
      rw (more, drain)
        (drain-ended fuel (λ n. answers (suc n)) (worker_step (answers 0) c)
          (rw ((worker_step-SameInput (answers 0) c).same_config)
            (omega (arith, run_at-steps c.pc (answers 0) c more refl))))
  | inr over ↦ rw (over, drain) over
]

-- A thread that is not running is not waited for.
pub drain_idle :
    (fuel : ℕ) (answers : ℕ → Reply) (c : Credential)
    → is_running c.pc ≡ false
    → drain fuel answers c ≡ c
unfolding drain
drain_idle zero answers c h = refl
drain_idle (suc fuel) answers c h = rw (h, drain)

-- What a worker publishes.
pub record SameResult (c d : Credential) : Type 0 where
  pub same_authenticated : d.authenticated ≡ c.authenticated
  pub same_tickets : d.tickets ≡ c.tickets
  pub same_worker : d.worker ≡ c.worker
  pub same_status : d.status_text ≡ c.status_text
  pub same_number : d.number_match ≡ c.number_match
  pub same_qr : d.qr_bmp ≡ c.qr_bmp

SameResult-trans : {c d e : Credential} → SameResult c d → SameResult d e → SameResult c e
SameResult-trans p q = ground arith

run_at_stopped :
    (p : Pc) (r : Reply) (c : Credential) → c.worker.stop ≡ true → SameResult c (run_at p r c)
unfolding run_at
run_at_stopped absent r c h = ground arith
run_at_stopped starting r c h = ground arith
run_at_stopped (gate task) r c h = ground arith
run_at_stopped (begin task) r c h = ground arith
run_at_stopped (waiting task challenge round errors) r c h = ground arith
run_at_stopped (polling task challenge round errors) r c h = ground arith
run_at_stopped finished r c h = ground arith

-- Once the stop flag is set, no answer makes the worker publish a result, a status text, a number,
-- a QR code or a ticket.
pub drain_stopped :
    (fuel : ℕ) (answers : ℕ → Reply) (c : Credential)
    → c.worker.stop ≡ true
    → SameResult c (drain fuel answers c)
unfolding drain worker_step
drain_stopped zero answers c h = ground arith
drain_stopped (suc fuel) answers c h = elim (Bool-cases (is_running c.pc)) [
  | inl more ↦
      rw (more, drain)
        (SameResult-trans (run_at_stopped c.pc (answers 0) c h) (
          drain_stopped fuel (λ n. answers (suc n)) (worker_step (answers 0) c)
            ((worker_step-SameInput (answers 0) c).same_stop ∙ h)))
  | inr over ↦ rw (over, drain) (ground arith)
]
