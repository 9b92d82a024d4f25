-- ===== src/Credential/View.antt =====
-- What LogonUI shows of the tile: `GetFieldState`, `GetStringValue` and `DescribeServerError` of
-- windows/credential_provider/LigamentCredential.cpp.
use ligament_apps.Common.{
  ℕ, Bool, true, false, ◌||◌, [], ◌∷◌, ◌++◌, ltb, if◌then◌else◌, not, drop, empty,
}
use ligament_apps.Credential.{
  Factor, fido2, push, otp, Status, literal, described, Credential, network_error,
}
use ligament_apps.Common.Text.{Text, codes, eq_text, starts_with, decimal}
use ligament_apps.Credential.Tile.{FieldId, fido2_allowed, same_factor}

-- `CREDENTIAL_PROVIDER_FIELD_STATE`, of which two are used, and whether the field has the focus.
pub record FieldState : Type 0 where
  pub is_shown : Bool
  pub is_focused : Bool

abbrev shown : Bool → FieldState
shown b = record { is_shown = b; is_focused = false }

unfoldable pub get_field_state : FieldId → Credential → FieldState
get_field_state FieldId.username c = record { is_shown = true; is_focused = true }
get_field_state FieldId.password c = record { is_shown = true; is_focused = true }
get_field_state FieldId.number_match c = shown (not (empty c.number_match))
get_field_state FieldId.fido2_btn c =
    shown (if same_factor c.current_mode push then fido2_allowed c else true)
get_field_state FieldId.otp_code c = record {
  is_shown = same_factor c.current_mode otp;
  is_focused = same_factor c.current_mode otp;
}
get_field_state FieldId.switch_factor_btn c =
    shown (if same_factor c.current_mode otp then fido2_allowed c else true)
get_field_state _ c = shown true

-- `DescribeServerError`; `to_wide` is `Utf8ToWide`.
unfoldable pub describe_server_error : (Text → Text) → Text → ℕ → Text
describe_server_error to_wide err retry_after =
    let after : Text = decimal retry_after ++ codes " с" in
    if eq_text err network_error
    then codes "сервер 2FA недоступен (проверьте сеть и настройку ServerURL)"
    else if eq_text err (codes "bad_credentials") || eq_text err (codes "status_401")
    then codes "неверное имя пользователя или пароль"
    else if eq_text err (codes "locked") || eq_text err (codes "status_423")
    then codes "вход временно заблокирован из-за неудачных попыток"
    else if eq_text err (codes "rate_limited") || eq_text err (codes "status_429")
    then (if ltb 0 retry_after
        then codes "слишком много попыток, повторите через " ++ after
        else codes "слишком много попыток, подождите немного")
    else if eq_text err (codes "cooldown")
    then (if ltb 0 retry_after
        then codes "повторная отправка возможна через " ++ after
        else codes "повторная отправка пока недоступна, подождите")
    else if eq_text err (codes "no_channel")
    then codes "у пользователя не настроен канал доставки 2FA"
    else if eq_text err (codes "no_credentials")
    then codes "нет зарегистрированных ключей FIDO2"
    else if eq_text err (codes "webauthn_disabled") || eq_text err (codes "status_503")
    then codes "этот способ входа отключен на сервере"
    else if eq_text err (codes "internal") || eq_text err (codes "status_500")
    then codes "внутренняя ошибка сервера 2FA"
    else if starts_with (codes "status_") err
    then codes "сервер 2FA ответил ошибкой HTTP " ++ to_wide (drop 7 err)
    else if empty err
    then codes "сервер 2FA вернул пустой ответ"
    else to_wide err

-- The text of a status.
unfoldable pub status_value : (Text → Text) → Status → Text
status_value to_wide (literal s) = codes s
status_value to_wide (described s err retry_after) =
    codes s ++ describe_server_error to_wide err retry_after

-- The captions of the two buttons.
abbrev passkey_caption : Text
passkey_caption = codes "📱 Войти по Passkey (QR-код)"

unfoldable pub button1_caption : Factor → Text
button1_caption push = passkey_caption
button1_caption _ = codes "📲 Войти через Push в приложение"

unfoldable pub button2_caption : Factor → Text
button2_caption otp = passkey_caption
button2_caption _ = codes "🔑 Войти по коду TOTP / YubiKey"

-- The title; `pc` is `ComputerNameSuffix()`.
unfoldable pub title : Text → Credential → Text
title pc c =
    let header : Text = if empty pc then [] else codes "  ·  Имя ПК: " ++ pc in
    elim c.current_mode [
      | fido2 ↦ codes "🔑 Вход по Passkey (QR-код)" ++ header
      | otp ↦ codes "⏱" ++ 0xfe0f ∷ codes " Вход по коду TOTP / YubiKey" ++ header
      | push ↦
          if not (empty c.number_match)
          then codes "🔢 Контрольное число: " ++ c.number_match ++ header
          else codes "🛡" ++ 0xfe0f ∷ codes " Ligament Enterprise 2FA" ++ header
    ]

unfoldable pub get_string_value : (Text → Text) → Text → FieldId → Credential → Text
get_string_value to_wide pc FieldId.large_text c = title pc c
get_string_value to_wide pc FieldId.username c = c.username
get_string_value to_wide pc FieldId.password c = c.password
get_string_value to_wide pc FieldId.status_text c = status_value to_wide c.status_text
get_string_value to_wide pc FieldId.number_match c =
    if not (empty c.number_match) then codes "   [  " ++ c.number_match ++ codes "  ]   " else []
get_string_value to_wide pc FieldId.fido2_btn c = button1_caption c.current_mode
get_string_value to_wide pc FieldId.otp_code c = c.otp_code
get_string_value to_wide pc FieldId.switch_factor_btn c = button2_caption c.current_mode
get_string_value to_wide pc _ c = []
