-- ===== src/Credential/Serialize.antt =====
-- `LigamentCredential::GetSerialization` and `PackAndFinish` of
-- windows/credential_provider/LigamentCredential.cpp: whether LogonUI gets the credentials to log on
-- with, for each factor. The packing itself is Windows'; whether it succeeds is in `Host`.
use ligament_apps.Common.{
  Bool, true, false, ◌&&◌, ◌||◌, Option, none, some, [], if◌then◌else◌, not, empty,
}
use ligament_apps.Credential.{
  Factor, fido2, push, otp, start_push, verify_otp, Status, literal, described, has_thread,
  Credential, network_error, approved, denied, expired,
}
use ligament_apps.Common.Text.{Text, eq_text}
use ligament_apps.Config.Bypass.{is_bypass_account}
use ligament_apps.Credential.Worker.{push_sent}
use ligament_apps.Credential.Thread.{Host, join_poll_thread, start_worker_job}
use ligament_apps.Credential.Tile.{trigger_fido2_auth, update_field_states}

-- `CREDENTIAL_PROVIDER_GET_SERIALIZATION_RESPONSE`, of which two are used.
pub data Outcome : Type 0 where
  not_finished return_credential_finished : Outcome

-- `CREDENTIAL_PROVIDER_STATUS_ICON`.
pub data Icon : Type 0 where
  no_icon error_icon warning_icon : Icon

pub record Response : Type 0 where
  pub outcome : Outcome
  pub text : Option Status
  pub icon : Icon

-- The response as `GetSerialization` presets it.
abbrev pub pending : Response
pending = record { outcome = not_finished; text = none; icon = no_icon }

abbrev refused : Status → Icon → Response
refused text icon = record { outcome = not_finished; text = some text; icon = icon }

-- `PackAndFinish`.
unfoldable pub pack_and_finish : Host → Response
pack_and_finish host =
    if host.packed
    then record { outcome = return_credential_finished; text = none; icon = no_icon }
    else refused (literal "Внутренняя ошибка провайдера, попробуйте еще раз") error_icon

-- A transport failure lets the logon through where the policy is fail-open.
abbrev pub fails_open : Credential → Bool
fails_open c = not c.config.fail_close && eq_text c.worker.begin_error network_error

abbrev waiting_for : Credential → Credential × Response
waiting_for c = (c, pending)

-- Branch 3: a one-time code.
unfoldable pub serialize_otp : Host → Credential → Credential × Response
unfolding pack_and_finish
serialize_otp host c =
    let (started, ok) = start_worker_job host verify_otp (literal "Проверка кода...") c in
    let joined = join_poll_thread host.answers c in
    if empty c.otp_code
    then (c, record pending { text = some (literal "Введите 6 цифр TOTP или коснитесь YubiKey") })
    else if not (has_thread c.pc)
    then (
      started,
      if ok
          then pending
          else refused (literal "Не удалось запустить проверку кода, попробуйте еще раз")
              error_icon,
    )
    else if not c.worker.done
    then waiting_for c
    else if c.worker.begin_done && c.worker.begin_ok
    then (record joined { authenticated = true }, pack_and_finish host)
    else if fails_open c
    then (joined, pack_and_finish host)
    else (
      joined,
      refused (described "Вход отклонен: " c.worker.begin_error c.worker.retry_after_sec)
          error_icon,
    )

-- The number of a successful first phase is put on the tile once.
unfoldable pub apply_push : Credential → Credential
apply_push c =
    if c.worker.begin_done && c.worker.begin_ok && not c.begin_applied
    then record c {
      begin_applied = true;
      number_match = c.worker.number_match;
      status_text = push_sent c.worker.number_match;
    }
    else c

abbrev confirmed : Status
confirmed = literal "✅ Вход подтверждён! Выполняется вход в систему..."

-- The text and the icon for a challenge that ended without approval.
push_refusal : Text → Status × Icon
push_refusal status =
    if eq_text status denied
    then (literal "❌ Вход отклонён пользователем", error_icon)
    else if eq_text status expired
    then (literal "⌛ Срок действия подтверждения истёк, повторите попытку", warning_icon)
    else (literal "⌛ Время ожидания подтверждения истекло", warning_icon)

-- Branch 4, from the point where a worker is there: its result is read and acted on.
unfoldable pub push_result : Host → Credential → Credential × Response
unfolding pack_and_finish push_refusal
push_result host c =
    let failed =
      described "Не удалось отправить Push: " c.worker.begin_error c.worker.retry_after_sec in
    let joined = record (join_poll_thread host.answers c) { number_match = [] } in
    let applied = apply_push c in
    let ended = record (join_poll_thread host.answers applied) { number_match = [] } in
    let (message, icon) = push_refusal c.worker.status in
    if c.worker.begin_done && not c.worker.begin_ok
    then (if fails_open c
        then (joined, pack_and_finish host)
        else (record joined { status_text = failed }, refused failed error_icon))
    else if not c.worker.done
    then waiting_for applied
    else if eq_text c.worker.status approved || applied.authenticated
    then (record ended { authenticated = true; status_text = confirmed }, pack_and_finish host)
    else (record ended { status_text = message }, refused message icon)

-- Branch 4: push.
unfoldable pub serialize_push : Host → Credential → Credential × Response
unfolding push_result
serialize_push host c =
    let (started, ok) = start_worker_job host start_push (literal "Отправка Push...") c in
    if not (has_thread c.pc)
    then (
      started,
      if ok
          then pending
          else refused (literal "Не удалось запустить ожидание Push, попробуйте еще раз")
              error_icon,
    )
    else push_result host c

-- The QR code is drawn from the worker's link once, if the worker has not drawn it.
unfoldable pub apply_passkey : Bool → Credential → Credential
apply_passkey drawn c =
    let shown = update_field_states (record c { begin_applied = true; qr_bmp = drawn }) in
    if c.worker.begin_done && c.worker.begin_ok && not c.begin_applied
    then (if not c.qr_bmp && not (empty c.worker.qr_url)
        then shown
        else record c { begin_applied = true })
    else c

passkey_refusal : Text → Status × Icon
passkey_refusal status =
    if eq_text status denied
    then (literal "❌ Вход по Passkey отклонён на телефоне", error_icon)
    else if eq_text status expired
    then (literal "⌛ Срок действия QR-кода истёк, нажмите для повтора", warning_icon)
    else (literal "⌛ Время ожидания Passkey истекло", warning_icon)

unfoldable pub passkey_result : Host → Bool → Credential → Credential × Response
unfolding pack_and_finish passkey_refusal
passkey_result host drawn c =
    let failed = described "Ошибка Passkey: " c.worker.begin_error c.worker.retry_after_sec in
    let joined = record (join_poll_thread host.answers c) { qr_bmp = false } in
    let applied = apply_passkey drawn c in
    let ended = record (join_poll_thread host.answers applied) { qr_bmp = false } in
    let (message, icon) = passkey_refusal c.worker.status in
    if c.worker.begin_done && not c.worker.begin_ok
    then (record joined { status_text = failed }, refused failed error_icon)
    else if not c.worker.done
    then waiting_for applied
    else if eq_text c.worker.status approved || applied.authenticated
    then (record ended { authenticated = true; status_text = confirmed }, pack_and_finish host)
    else (record ended { status_text = message }, refused message icon)

-- Branch 5: passkey.
unfoldable pub serialize_fido2 : Host → Bool → Credential → Credential × Response
unfolding passkey_result
serialize_fido2 host drawn c =
    let triggered = trigger_fido2_auth host c in
    if not (has_thread c.pc)
    then (triggered, if triggered.authenticated then pack_and_finish host else pending)
    else passkey_result host drawn c

unfoldable pub serialize_by : Factor → Host → Bool → Credential → Credential × Response
unfolding serialize_otp serialize_push serialize_fido2
serialize_by otp host drawn c = serialize_otp host c
serialize_by push host drawn c = serialize_push host c
serialize_by fido2 host drawn c = serialize_fido2 host drawn c

-- `drawn`: whether `CreateQrBitmap` gives a bitmap, where LogonUI's thread calls it.
unfoldable pub get_serialization : Host → Bool → Credential → Credential × Response
unfolding pack_and_finish serialize_by
get_serialization host drawn c =
    let joined = record (join_poll_thread host.answers c) { qr_bmp = false; number_match = [] } in
    if empty c.username || empty c.password
    then (c, record pending { text = some (literal "Введите имя пользователя и пароль") })
    else if is_bypass_account host.fold c.config c.username c.domain
    then (c, pack_and_finish host)
    else if c.authenticated
    then (joined, pack_and_finish host)
    else serialize_by c.current_mode host drawn c
