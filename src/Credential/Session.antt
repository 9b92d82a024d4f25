-- ===== src/Credential/Session.antt =====
-- The invariant under `GetSerialization` of windows/credential_provider/LigamentCredential.cpp.
use ligament_apps.Common.{ℕ, ◌≡◌, refl, Bool, false, arith}
use ligament_apps.Credential.{
  Factor, fido2, push, otp, start_push, verify_otp, literal, fresh_worker, Credential, Reply,
}
use ligament_apps.Credential.Thread.{Host, join_poll_thread}
use ligament_apps.Credential.Tile.{update_field_states}
use ligament_apps.Credential.Serialize.{
  get_serialization, serialize_by, serialize_otp, push_result, passkey_result, apply_passkey,
  apply_push,
}
use ligament_apps.Credential.Invariant.{Inv, nil-ne-approved}
use ligament_apps.Credential.Kept.{
  join_poll_thread-Inv, join_poll_thread-pc, start_worker_job-Inv, trigger_fido2_auth-Inv,
}

join_poll_thread-worker :
    (answers : ℕ → Reply) (c : Credential) → (join_poll_thread answers c).worker ≡ fresh_worker
unfolding join_poll_thread
join_poll_thread-worker answers c = refl

module _ (host : Host) (drawn : Bool) (c : Credential) (v : Inv c)
    (unconfirmed : c.authenticated ≡ false) where
  serialize_otp-Inv : c.current_mode ≡ otp → Inv (serialize_otp host c).0
  unfolding serialize_otp
  serialize_otp-Inv m = ground (
    arith,
    nil-ne-approved,
    start_worker_job-Inv host verify_otp (literal "Проверка кода...") c,
    join_poll_thread-Inv host.answers c,
    join_poll_thread-pc host.answers c,
    join_poll_thread-worker host.answers c,
  )

  apply_push-Inv : Inv (apply_push c)
  unfolding apply_push
  apply_push-Inv = ground arith

  apply_passkey-Inv : Inv (apply_passkey drawn c)
  unfolding apply_passkey update_field_states
  apply_passkey-Inv = ground arith

  push_result-Inv : Inv (push_result host c).0
  unfolding push_result
  push_result-Inv = ground (
    arith,
    nil-ne-approved,
    apply_push-Inv,
    join_poll_thread-pc host.answers c,
    join_poll_thread-worker host.answers c,
    join_poll_thread-pc host.answers (apply_push c),
    join_poll_thread-worker host.answers (apply_push c),
  )

  passkey_result-Inv : Inv (passkey_result host drawn c).0
  unfolding passkey_result
  passkey_result-Inv = ground (
    arith,
    nil-ne-approved,
    apply_passkey-Inv,
    join_poll_thread-pc host.answers c,
    join_poll_thread-worker host.answers c,
    join_poll_thread-pc host.answers (apply_passkey drawn c),
    join_poll_thread-worker host.answers (apply_passkey drawn c),
  )

  serialize_by-Inv :
      (mode : Factor) → c.current_mode ≡ mode → Inv (serialize_by mode host drawn c).0
  unfolding serialize_by
  serialize_by-Inv otp m = serialize_otp-Inv m
  serialize_by-Inv push m =
      ground (
        arith,
        push_result-Inv,
        start_worker_job-Inv host start_push (literal "Отправка Push...") c,
      )
  serialize_by-Inv fido2 m = ground (arith, passkey_result-Inv, trigger_fido2_auth-Inv host c)

pub get_serialization-Inv :
    (host : Host) (drawn : Bool) (c : Credential) → Inv c → Inv (get_serialization host drawn c).0
unfolding get_serialization
get_serialization-Inv host drawn c v = ground (
  arith,
  λ (u : c.authenticated ≡ false). serialize_by-Inv host drawn c v u c.current_mode refl,
  nil-ne-approved,
  join_poll_thread-pc host.answers c,
  join_poll_thread-worker host.answers c,
)
