-- ===== src/Credential/Safety.antt =====
-- When `GetSerialization` of windows/credential_provider/LigamentCredential.cpp hands credentials to
-- LogonUI.
use ligament_apps.Common.{◌≡◌, refl, ◌≢◌, ◌⊎◌, Bool, true, false, arith}
use ligament_apps.Credential.{
  Factor, fido2, push, otp, WorkerJob, webauthn_begin, Status, literal, Credential, network_error,
}
use ligament_apps.Common.Text.{eq_of_eq_text}
use ligament_apps.Config.Bypass.{is_bypass_account}
use ligament_apps.Credential.Thread.{Host, start_worker_job, post_job}
use ligament_apps.Credential.Tile.{trigger_fido2_auth, update_field_states}
use ligament_apps.Credential.Serialize.{
  get_serialization, return_credential_finished, fails_open, serialize_otp, push_result,
  passkey_result, serialize_by,
}
use ligament_apps.Credential.Invariant.{Inv}
use ligament_apps.Credential.Kept.{stop_poll_thread_lem}
use ligament_apps.Credential.Serialize.{apply_passkey}
use ligament_apps.Credential.Serialize.{apply_push}

pub start_worker_job-authenticated :
    (host : Host) (job : WorkerJob) (status : Status) (c : Credential)
    → (start_worker_job host job status c).0.authenticated ≡ c.authenticated
unfolding start_worker_job post_job
start_worker_job-authenticated host job status c =
    ground (arith, stop_poll_thread_lem host.answers c)

pub trigger_fido2_auth-authenticated :
    (host : Host) (c : Credential) → (trigger_fido2_auth host c).authenticated ≡ c.authenticated
unfolding trigger_fido2_auth
trigger_fido2_auth-authenticated host c = ground (
  arith,
  start_worker_job-authenticated host webauthn_begin (literal "Генерация сессии Passkey...") c,
)

pub apply_passkey-authenticated :
    (drawn : Bool) (c : Credential) → (apply_passkey drawn c).authenticated ≡ c.authenticated
unfolding apply_passkey update_field_states
apply_passkey-authenticated drawn c = ground arith

abbrev FailsOpen : Credential → Type 0
FailsOpen c = (c.config.fail_close ≡ false) × (c.worker.begin_error ≡ network_error)

fails_open-FailsOpen : (c : Credential) → fails_open c ≡ true → FailsOpen c
fails_open-FailsOpen c h = ground (arith, eq_of_eq_text c.worker.begin_error network_error)

module _ (host : Host) (drawn : Bool) (c : Credential) (v : Inv c)
    (unconfirmed : c.authenticated ≡ false) where
  serialize_otp-FailsOpen :
      c.current_mode ≡ otp
      → (serialize_otp host c).1.outcome ≡ return_credential_finished
      → FailsOpen c
  unfolding serialize_otp
  serialize_otp-FailsOpen m h = ground (arith, fails_open-FailsOpen c)

  push_result-FailsOpen : (push_result host c).1.outcome ≡ return_credential_finished → FailsOpen c
  unfolding push_result apply_push
  push_result-FailsOpen h = ground (arith, fails_open-FailsOpen c)

  passkey_result-not_finished : (passkey_result host drawn c).1.outcome ≢ return_credential_finished
  unfolding passkey_result
  passkey_result-not_finished h = ground (arith, apply_passkey-authenticated drawn c)

  serialize_by-FailsOpen :
      (mode : Factor)
      → c.current_mode ≡ mode
      → (serialize_by mode host drawn c).1.outcome ≡ return_credential_finished
      → FailsOpen c
  unfolding serialize_by
  serialize_by-FailsOpen otp m h = serialize_otp-FailsOpen m h
  serialize_by-FailsOpen push m h = ground (arith, push_result-FailsOpen)
  serialize_by-FailsOpen fido2 m h =
      ground (arith, passkey_result-not_finished, trigger_fido2_auth-authenticated host c)

-- In a state that keeps the invariant, GetSerialization returns credentials only for a whitelisted
-- account, with the second factor confirmed, or with network_error as the error of the worker's
-- start under a fail-open policy.
pub get_serialization_confirmed :
    (host : Host) (drawn : Bool) (c : Credential)
    → Inv c
    → (get_serialization host drawn c).1.outcome ≡ return_credential_finished
    → (is_bypass_account host.fold c.config c.username c.domain ≡ true)
      ⊎ (c.authenticated ≡ true)
      ⊎ ((c.config.fail_close ≡ false) × (c.worker.begin_error ≡ network_error))
unfolding get_serialization
get_serialization_confirmed host drawn c v h = ground (
  arith,
  λ (u : c.authenticated ≡ false). serialize_by-FailsOpen host drawn c v u c.current_mode refl,
)
