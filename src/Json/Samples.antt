-- ===== src/Json/Samples.antt =====
-- A password with characters that `EscapeJson` of windows/credential_provider/common.h escapes.
use ligament_apps.Common.{◌≡◌, refl, [], ◌∷◌}
use ligament_apps.Common.Text.{Text, codes}
use ligament_apps.Json.{quote, escape_json, escape_char}

abbrev password : Text
password = b'a' ∷ quote ∷ 1 ∷ 92 ∷ []

escape_json_password : escape_json password ≡ codes "a\\\"\\u0001\\\\"
unfolding escape_json escape_char
escape_json_password = refl
