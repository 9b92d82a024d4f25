-- ===== src/Credential/Kept.antt =====
-- The invariant under the calls that start, stop and edit the tile, of
-- windows/credential_provider/LigamentCredential.cpp.
use ligament_apps.Common.{ℕ, ◌≡◌, refl, false, arith, if◌then◌else◌}
use ligament_apps.Credential.{
  Factor, fido2, push, otp, WorkerJob, webauthn_begin, Status, literal, fresh_worker, absent,
  Credential, Reply, max_polls,
}
use ligament_apps.Common.Text.{Text, eq_of_eq_text}
use ligament_apps.Credential.Thread.{
  Host, steps_left, join_poll_thread, stop_poll_thread, start_worker_job, reset_auth_state,
  set_stop, post_job, run_worker, clear_result,
}
use ligament_apps.Credential.Tile.{
  FieldId, username, password, otp_code, set_string_value, set_username, set_password,
  trigger_fido2_auth, switch_to_mode, show_mode, command_link_clicked, set_deselected,
  report_result, fido2_btn, switch_factor_btn, same_factor,
}
use ligament_apps.Credential.Invariant.{Inv, nil-ne-approved, job_of}
use ligament_apps.Credential.Joining.{drain-SameInput, drain_stopped}

-- A joined tile has no thread and no result left to read.
pub join_poll_thread-Inv : (answers : ℕ → Reply) (c : Credential) → Inv (join_poll_thread answers c)
unfolding join_poll_thread
join_poll_thread-Inv answers c = ground (arith, nil-ne-approved)

pub join_poll_thread-pc :
    (answers : ℕ → Reply) (c : Credential) → (join_poll_thread answers c).pc ≡ absent
unfolding join_poll_thread
join_poll_thread-pc answers c = refl

pub stop_poll_thread-Inv : (answers : ℕ → Reply) (c : Credential) → Inv (stop_poll_thread answers c)
unfolding stop_poll_thread
stop_poll_thread-Inv answers c = join_poll_thread-Inv answers (set_stop c)

pub reset_auth_state-Inv : (host : Host) (c : Credential) → Inv (reset_auth_state host c)
unfolding reset_auth_state
reset_auth_state-Inv host c =
    stop_poll_thread-Inv host.answers (run_worker host.race (clear_result c))

pub reset_auth_state-pc : (host : Host) (c : Credential) → (reset_auth_state host c).pc ≡ absent
unfolding reset_auth_state stop_poll_thread
reset_auth_state-pc host c = join_poll_thread-pc host.answers _

-- Stopping the worker leaves the typed input and the result alone.
pub stop_poll_thread_lem :
    (answers : ℕ → Reply) (c : Credential)
    → let d = stop_poll_thread answers c in
      (d.pc ≡ absent)
      × (d.worker ≡ fresh_worker)
      × (d.authenticated ≡ c.authenticated)
      × (d.username ≡ c.username)
      × (d.password ≡ c.password)
      × (d.current_mode ≡ c.current_mode)
unfolding stop_poll_thread join_poll_thread set_stop
stop_poll_thread_lem answers c = ground (
  arith,
  drain-SameInput (steps_left (max_polls c.config) c.pc) answers (set_stop c),
  drain_stopped (steps_left (max_polls c.config) c.pc) answers (set_stop c) refl,
)

-- A new job is the tile's own: its password is the typed one.
pub start_worker_job-Inv :
    (host : Host) (job : WorkerJob) (status : Status) (c : Credential)
    → job ≡ job_of c.current_mode
    → c.authenticated ≡ false
    → Inv (start_worker_job host job status c).0
unfolding start_worker_job post_job
start_worker_job-Inv host job status c j h =
    ground (arith, nil-ne-approved, stop_poll_thread_lem host.answers c)

set_username-Inv :
    (host : Host) (text : Text) (c : Credential) → Inv c → Inv (set_username host text c)
unfolding set_username
set_username-Inv host text c v = ground (arith, reset_auth_state-Inv host c)

set_password-Inv :
    (host : Host) (text : Text) (c : Credential) → Inv c → Inv (set_password host text c)
unfolding set_password
set_password-Inv host text c v =
    ground (
      arith,
      reset_auth_state-Inv host c,
      reset_auth_state-pc host c,
      eq_of_eq_text c.password text,
    )

pub set_string_value-Inv :
    (host : Host) (field : FieldId) (text : Text) (c : Credential)
    → Inv c
    → Inv (set_string_value host field text c)
unfolding set_string_value
set_string_value-Inv host username text c v = set_username-Inv host text c v
set_string_value-Inv host password text c v = set_password-Inv host text c v
set_string_value-Inv host otp_code text c v = ground arith
set_string_value-Inv host _ text c v = v

pub trigger_fido2_auth-Inv :
    (host : Host) (c : Credential)
    → c.current_mode ≡ fido2
    → Inv c
    → Inv (trigger_fido2_auth host c)
unfolding trigger_fido2_auth
trigger_fido2_auth-Inv host c m v =
    ground
      (arith, start_worker_job-Inv host webauthn_begin (literal "Генерация сессии Passkey...") c)

show_mode-Inv : (host : Host) (mode : Factor) (c : Credential) → Inv (show_mode host mode c)
unfolding show_mode
show_mode-Inv host mode c = ground (arith, nil-ne-approved, stop_poll_thread_lem host.answers c)

pub show_mode-mode :
    (host : Host) (mode : Factor) (c : Credential) → (show_mode host mode c).current_mode ≡ mode
unfolding show_mode
show_mode-mode host mode c = refl

switch_to_mode-Inv :
    (host : Host) (mode : Factor) (c : Credential) → Inv c → Inv (switch_to_mode host mode c)
unfolding switch_to_mode
switch_to_mode-Inv host fido2 c v = ground (
  arith,
  show_mode-Inv host fido2 c,
  trigger_fido2_auth-Inv host (show_mode host fido2 c) (show_mode-mode host fido2 c),
)
switch_to_mode-Inv host push c v = ground (arith, show_mode-Inv host push c)
switch_to_mode-Inv host otp c v = ground (arith, show_mode-Inv host otp c)

pub command_link_clicked-Inv :
    (host : Host) (field : FieldId) (c : Credential)
    → Inv c
    → Inv (command_link_clicked host field c)
unfolding command_link_clicked
command_link_clicked-Inv host fido2_btn c v =
    switch_to_mode-Inv host (if same_factor c.current_mode push then fido2 else push) c v
command_link_clicked-Inv host switch_factor_btn c v =
    switch_to_mode-Inv host (if same_factor c.current_mode otp then fido2 else otp) c v
command_link_clicked-Inv host _ c v = v

pub set_deselected-Inv : (host : Host) (c : Credential) → Inv c → Inv (set_deselected host c)
unfolding set_deselected
set_deselected-Inv host c v = ground (arith, reset_auth_state-Inv host c)

pub report_result-Inv : (host : Host) (c : Credential) → Inv (report_result host c)
unfolding report_result
report_result-Inv host c = reset_auth_state-Inv host _
