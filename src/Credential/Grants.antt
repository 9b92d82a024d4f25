-- ===== src/Credential/Grants.antt =====
-- What each call of windows/credential_provider/LigamentCredential.cpp does to the confirmed second
-- factor: the steps of the worker and the calls of LogonUI.
use ligament_apps.Common.{ℕ, ◌≡◌, refl, Bool, true, false, ◌&&◌, ◌||◌, [], arith, not}
use ligament_apps.Credential.{
  Factor, fido2, push, otp, WorkerJob, start_push, verify_otp, literal, fresh_worker, Pc, absent,
  starting, gate, begin, waiting, polling, finished, is_running, Credential, Reply, max_polls,
  approved,
}
use ligament_apps.Common.Text.{Text, eq_text}
use ligament_apps.Credential.Worker.{worker_step, run_at}
use ligament_apps.Credential.Thread.{
  Host, steps_left, join_poll_thread, reset_auth_state, run_worker, clear_result,
}
use ligament_apps.Credential.Tile.{
  FieldId, username, password, otp_code, fido2_btn, switch_factor_btn, set_string_value,
  set_username, set_password, command_link_clicked, switch_to_mode, show_mode, set_deselected,
  report_result, update_field_states,
}
use ligament_apps.Credential.Serialize.{
  get_serialization, serialize_by, serialize_otp, push_result, passkey_result, apply_passkey,
  apply_push,
}
use ligament_apps.Credential.Invariant.{Inv}
use ligament_apps.Credential.Joining.{drain_idle}
use ligament_apps.Credential.Kept.{stop_poll_thread_lem}
use ligament_apps.Credential.Safety.{
  start_worker_job-authenticated, trigger_fido2_auth-authenticated, apply_passkey-authenticated,
}

abbrev is_otp_job : WorkerJob → Bool
is_otp_job verify_otp = true
is_otp_job _ = false

-- The answers that confirm the second factor, by the place where the worker stands.
abbrev pub grants : Pc → Reply → Bool
grants (gate task) r = r.gate_satisfied
grants (begin task) r = is_otp_job task.job && r.ok
grants (polling task challenge round errors) r = r.ok && eq_text r.status approved
grants _ r = false

run_at-authenticated :
    (p : Pc) (r : Reply) (c : Credential)
    → (run_at p r c).authenticated ≡ (c.authenticated || not c.worker.stop && grants p r)
unfolding run_at
run_at-authenticated absent r c = ground arith
run_at-authenticated starting r c = ground arith
run_at-authenticated (gate task) r c = ground arith
run_at-authenticated (begin task) r c = ground arith
run_at-authenticated (waiting task challenge round errors) r c = ground arith
run_at-authenticated (polling task challenge round errors) r c = ground arith
run_at-authenticated finished r c = ground arith

-- A step of the worker confirms the factor exactly where it was confirmed before, or no stop was
-- requested and the answer grants it at the place where the worker stands.
pub worker_step-authenticated :
    (r : Reply) (c : Credential)
    → (worker_step r c).authenticated ≡ (c.authenticated || not c.worker.stop && grants c.pc r)
unfolding worker_step
worker_step-authenticated r c = run_at-authenticated c.pc r c

-- A worker that has returned is joined with no step of its own.
join_poll_thread-authenticated :
    (answers : ℕ → Reply) (c : Credential)
    → is_running c.pc ≡ false
    → (join_poll_thread answers c).authenticated ≡ c.authenticated
unfolding join_poll_thread
join_poll_thread-authenticated answers c h =
    ground (arith, drain_idle (steps_left (max_polls c.config) c.pc) answers c h)

-- Without a race, ResetAuthState leaves no confirmed factor, no thread and no result of a worker.
pub reset_auth_state_clears :
    (host : Host) (c : Credential)
    → host.race ≡ []
    → let d = reset_auth_state host c in
      (d.authenticated ≡ false) × (d.pc ≡ absent) × (d.worker ≡ fresh_worker)
unfolding reset_auth_state run_worker clear_result
reset_auth_state_clears host c e =
    rw (e, reset_auth_state, run_worker)
      (ground (arith, stop_poll_thread_lem host.answers (clear_result c)))

module _ (host : Host) (drawn : Bool) (c : Credential) (v : Inv c) where
  apply_push-keeps : ((apply_push c).authenticated ≡ c.authenticated) × ((apply_push c).pc ≡ c.pc)
  unfolding apply_push
  apply_push-keeps = ground arith

  apply_passkey-pc : (apply_passkey drawn c).pc ≡ c.pc
  unfolding apply_passkey update_field_states
  apply_passkey-pc = ground arith

  serialize_otp-authenticated :
      c.current_mode ≡ otp → (serialize_otp host c).0.authenticated ≡ c.authenticated
  unfolding serialize_otp
  serialize_otp-authenticated m = ground (
    arith,
    start_worker_job-authenticated host verify_otp (literal "Проверка кода...") c,
    join_poll_thread-authenticated host.answers c,
  )

  push_result-authenticated : (push_result host c).0.authenticated ≡ c.authenticated
  unfolding push_result
  push_result-authenticated = ground (
    arith,
    apply_push-keeps,
    join_poll_thread-authenticated host.answers c,
    join_poll_thread-authenticated host.answers (apply_push c),
  )

  passkey_result-authenticated : (passkey_result host drawn c).0.authenticated ≡ c.authenticated
  unfolding passkey_result
  passkey_result-authenticated = ground (
    arith,
    apply_passkey-authenticated drawn c,
    apply_passkey-pc,
    join_poll_thread-authenticated host.answers c,
    join_poll_thread-authenticated host.answers (apply_passkey drawn c),
  )

  serialize_by-authenticated :
      (mode : Factor)
      → c.current_mode ≡ mode
      → (serialize_by mode host drawn c).0.authenticated ≡ c.authenticated
  unfolding serialize_by
  serialize_by-authenticated otp m = serialize_otp-authenticated m
  serialize_by-authenticated push m = ground (
    arith,
    push_result-authenticated,
    start_worker_job-authenticated host start_push (literal "Отправка Push...") c,
  )
  serialize_by-authenticated fido2 m =
      ground (arith, passkey_result-authenticated, trigger_fido2_auth-authenticated host c)

-- `GetSerialization` never confirms a factor itself.
pub get_serialization-authenticated :
    (host : Host) (drawn : Bool) (c : Credential)
    → Inv c
    → (get_serialization host drawn c).0.authenticated ≡ c.authenticated
unfolding get_serialization
get_serialization-authenticated host drawn c v = ground (
  arith,
  serialize_by-authenticated host drawn c v c.current_mode refl,
  join_poll_thread-authenticated host.answers c,
)

-- Nor does typing, clicking, leaving the tile or the report of a logon, where nothing races with a
-- reset.
pub set_string_value-authenticated :
    (host : Host) (field : FieldId) (text : Text) (c : Credential)
    → host.race ≡ []
    → (set_string_value host field text c).authenticated ≡ true
    → c.authenticated ≡ true
unfolding set_string_value set_username set_password
set_string_value-authenticated host username text c e h =
    ground (arith, reset_auth_state_clears host c e)
set_string_value-authenticated host password text c e h =
    ground (arith, reset_auth_state_clears host c e)
set_string_value-authenticated host otp_code text c e h = h
set_string_value-authenticated host _ text c e h = h

show_mode-authenticated :
    (host : Host) (mode : Factor) (c : Credential)
    → (show_mode host mode c).authenticated ≡ c.authenticated
unfolding show_mode update_field_states
show_mode-authenticated host mode c = ground (arith, stop_poll_thread_lem host.answers c)

switch_to_mode-authenticated :
    (host : Host) (mode : Factor) (c : Credential)
    → (switch_to_mode host mode c).authenticated ≡ c.authenticated
unfolding switch_to_mode
switch_to_mode-authenticated host mode c = ground (
  arith,
  show_mode-authenticated host mode c,
  trigger_fido2_auth-authenticated host (show_mode host mode c),
)

pub command_link_clicked-authenticated :
    (host : Host) (field : FieldId) (c : Credential)
    → (command_link_clicked host field c).authenticated ≡ c.authenticated
unfolding command_link_clicked
command_link_clicked-authenticated host fido2_btn c = switch_to_mode-authenticated host _ c
command_link_clicked-authenticated host switch_factor_btn c = switch_to_mode-authenticated host _ c
command_link_clicked-authenticated host _ c = refl

pub set_deselected-authenticated :
    (host : Host) (c : Credential)
    → host.race ≡ []
    → (set_deselected host c).authenticated ≡ c.authenticated
unfolding set_deselected
set_deselected-authenticated host c e = ground (arith, reset_auth_state_clears host c e)

pub report_result-authenticated :
    (host : Host) (c : Credential) → host.race ≡ [] → (report_result host c).authenticated ≡ false
unfolding report_result
report_result-authenticated host c e = (reset_auth_state_clears host _ e).0
