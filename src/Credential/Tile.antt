-- ===== src/Credential/Tile.antt =====
-- The calls of LogonUI that set the tile up and edit it: `Initialize`, `SetStringValue`,
-- `CommandLinkClicked`, `SetDeselected`, `ReportResult` and the change of factor, of
-- windows/credential_provider/LigamentCredential.cpp.
use ligament_apps.Common.{
  suc, Bool, true, false, ◌&&◌, ◌||◌, none, some, [], ◌∷◌, ◌++◌, ltb, ◌==◌, if◌then◌else◌, not,
  length, take, drop, empty,
}
use ligament_apps.Credential.{
  Scenario, is_credui, Factor, fido2, push, otp, webauthn_begin, Status, literal, has_thread,
  Credential,
}
use ligament_apps.Common.Text.{Text, find_if, eq_text, eq_icase}
use ligament_apps.Config.{Config}
use ligament_apps.Config.Bypass.{backslash}
use ligament_apps.Credential.Thread.{Host, stop_poll_thread, start_worker_job, reset_auth_state}

-- `FIELD_ID`.
pub data FieldId : Type 0 where
  logo large_text username password submit status_text number_match fido2_btn otp_code : FieldId
  switch_factor_btn : FieldId

-- The factor and the text that `Initialize` chooses.
initial_mode : Config → Scenario → Factor × Status
initial_mode cfg cpus =
    if is_credui cpus
    then (if cfg.default_factor == 2
        then (otp, literal "Повышение прав: введите код TOTP или коснитесь YubiKey")
        else (push, literal "Повышение прав: подтвердите вход вторым фактором"))
    else if cfg.default_factor == 1 && cfg.fido2_enabled
    then (fido2, literal "Passkey: введите имя пользователя и пароль для получения QR-кода")
    else if cfg.default_factor == 2
    then (otp, literal "Введите 6 цифр TOTP или коснитесь YubiKey")
    else (push, literal "Вход через приложение Ligament (число) / Telegram")

unfoldable pub initialize : Config → Bool → Scenario → Credential → Credential
unfolding initial_mode
initialize cfg is_remote cpus c = record c {
  config = cfg;
  is_remote_session = is_remote;
  cpus = cpus;
  current_mode = (initial_mode cfg cpus).0;
  status_text = (initial_mode cfg cpus).1;
}

-- `DOMAIN\user`, `user@domain` or a plain name, as (domain, user).
unfoldable pub split_name : Text → Text × Text
split_name raw = elim (find_if (λ c. c == backslash) raw) [
  | some slash ↦ (take slash raw, drop (suc slash) raw)
  | none ↦ elim (find_if (λ c. c == b'@') raw) [
    | none ↦ ([], raw)
    | some at ↦
        if ltb 0 at && ltb (suc at) (length raw)
        then (drop (suc at) raw, take at raw)
        else ([], raw)
  ]
]

-- The name that the tile holds, as it would be typed.
unfoldable pub held_name : Credential → Text
held_name c = if empty c.domain then c.username else c.domain ++ backslash ∷ c.username

unfoldable pub set_username : Host → Text → Credential → Credential
set_username host raw c =
    let base = if eq_icase host.fold raw (held_name c) then c else reset_auth_state host c in
    record base { username_raw = raw; domain = (split_name raw).0; username = (split_name raw).1 }

unfoldable pub set_password : Host → Text → Credential → Credential
set_password host text c =
    let base = if eq_text c.password text then c else reset_auth_state host c in
    record base { password = text }

unfoldable pub set_string_value : Host → FieldId → Text → Credential → Credential
unfolding set_username set_password
set_string_value host username text c = set_username host text c
set_string_value host password text c = set_password host text c
set_string_value host otp_code text c = record c { otp_code = text }
set_string_value host _ text c = c

unfoldable pub fido2_allowed : Credential → Bool
fido2_allowed c = c.config.fido2_enabled && not (is_credui c.cpus)

unfoldable pub trigger_fido2_auth : Host → Credential → Credential
trigger_fido2_auth host c =
    let (started, ok) =
      start_worker_job host webauthn_begin (literal "Генерация сессии Passkey...") c in
    if empty c.username || empty c.password
    then record c { status_text = literal "Passkey: сначала введите имя пользователя и пароль" }
    else if c.authenticated
    then record c { status_text = literal "Passkey уже подтвержден! Нажмите стрелку для входа" }
    else if ok
    then started
    else record started { status_text = literal "Не удалось запустить Passkey, попробуйте еще раз" }

-- The text that `UpdateFieldStates` sets.
mode_text : Factor → Credential → Status
mode_text fido2 c =
    if empty c.username || empty c.password
    then literal "Passkey: введите имя пользователя и пароль для получения QR-кода"
    else if c.qr_bmp
    then literal "Отсканируйте QR-код камерой телефона (Face ID / Touch ID)"
    else literal "Passkey: нажмите стрелку входа [->] для генерации QR-кода"
mode_text push c =
    if empty c.number_match
    then literal "Введите логин и пароль для входа через приложение Ligament / Telegram"
    else literal "Подтвердите вход в приложении Ligament:\nвыберите контрольное число на экране:"
mode_text otp c = literal "Введите 6 цифр из приложения TOTP или коснитесь YubiKey"

unfoldable pub update_field_states : Credential → Credential
unfolding mode_text
update_field_states c = record c { status_text = mode_text c.current_mode c }

abbrev pub is_fido2 : Factor → Bool
is_fido2 fido2 = true
is_fido2 _ = false

abbrev pub same_factor : Factor → Factor → Bool
same_factor fido2 fido2 = true
same_factor push push = true
same_factor otp otp = true
same_factor _ _ = false

-- The part of `SwitchToMode` behind its tests. The text that it sets first goes with the call of
-- `UpdateFieldStates`.
unfoldable pub show_mode : Host → Factor → Credential → Credential
unfolding update_field_states
show_mode host mode c = update_field_states (record (stop_poll_thread host.answers c) {
  qr_bmp = false;
  current_mode = mode;
  number_match = [];
})

unfoldable pub switch_to_mode : Host → Factor → Credential → Credential
switch_to_mode host mode c =
    let shown = show_mode host mode c in
    if is_fido2 mode && not (fido2_allowed c)
    then c
    else if same_factor c.current_mode mode
    then c
    else if is_fido2 mode && not (empty shown.username) && not (empty shown.password)
    then trigger_fido2_auth host shown
    else shown

-- Button 1 leads from push to passkey and else to push, button 2 from a code to passkey and else to
-- a code.
unfoldable pub command_link_clicked : Host → FieldId → Credential → Credential
command_link_clicked host fido2_btn c =
    switch_to_mode host (if same_factor c.current_mode push then fido2 else push) c
command_link_clicked host switch_factor_btn c =
    switch_to_mode host (if same_factor c.current_mode otp then fido2 else otp) c
command_link_clicked host _ c = c

unfoldable pub set_deselected : Host → Credential → Credential
set_deselected host c =
    if not (has_thread c.pc) && not c.authenticated then reset_auth_state host c else c

-- `SetSelected`: whether LogonUI submits the tile by itself.
unfoldable pub set_selected : Credential → Bool
set_selected c = c.authenticated

-- The logging and the probe of the local accounts change nothing here.
unfoldable pub report_result : Host → Credential → Credential
report_result host c = reset_auth_state host (record c { password = []; otp_code = [] })
