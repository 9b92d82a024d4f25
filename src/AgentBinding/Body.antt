-- ===== src/AgentBinding/Body.antt =====
-- What the request of windows/runner/link_agent_binding_bridge.cpp says to the service.
use ligament_apps.Common.{
  ℕ, ◌≡◌, refl, sym, ap, ◌∙◌, true, some, [], ◌∷◌, ◌++◌, arith, ◌==◌, length, all,
}
use mathlib.Core.List.{append_assoc}
use ligament_apps.Common.{and_left, and_right}
use ligament_apps.Common.Text.{Text, codes}
use ligament_apps.Json.{quote, escape_json, escape_char}
use ligament_apps.Json.Fields.{read_fields, with_field, read_fields-comma, read_fields_last}
use ligament_apps.AgentBinding.Exchange.{
  bind_request, is_hex_token, is_hex, json_string, json_chars, json_char,
}

-- `JsonString` escapes a byte as `EscapeJson` of windows/credential_provider/common.h does.
json_char-escape_char : (c : ℕ) → json_char c ≡ escape_char c
unfolding json_char escape_char
json_char-escape_char c = ground arith

json_chars-escape_json : (s : Text) → json_chars s ≡ escape_json s
unfolding json_chars escape_json
json_chars-escape_json [] = refl
json_chars-escape_json (c ∷ s) =
    ap (λ t. t ++ json_chars s) (json_char-escape_char c)
    ∙ ap (λ t. escape_char c ++ t) (json_chars-escape_json s)

is_hex-plain : (c : ℕ) → is_hex c ≡ true → escape_char c ≡ c ∷ []
unfolding escape_char
is_hex-plain c h = ground arith

hex-plain : (s : Text) → all is_hex s ≡ true → escape_json s ≡ s
unfolding escape_json
hex-plain [] h = refl
hex-plain (c ∷ s) h =
    ap (λ t. t ++ escape_json s) (is_hex-plain c (and_left (is_hex c) (all is_hex s) h))
    ∙ ap (◌∷◌ c) (hex-plain s (and_right (is_hex c) (all is_hex s) h))

is_hex_token-plain : (s : Text) → is_hex_token s ≡ true → escape_json s ≡ s
unfolding is_hex_token
is_hex_token-plain s h = hex-plain s (and_right (length s == 64) (all is_hex s) h)

-- The version comes first.
abbrev pub version_field : Text
version_field = codes "{\"version\":1,"

abbrev token_field : Text → Text
token_field token =
    quote ∷ codes "enrollment_token"
    ++ quote ∷ b':' ∷ quote ∷ (escape_json token ++ quote ∷ b'}' ∷ [])

abbrev pub other_fields : Text → Text → Text
other_fields server_url token =
    quote ∷ codes "server_url"
    ++ quote ∷ b':' ∷ quote ∷ (escape_json server_url ++ quote ∷ b',' ∷ token_field token)

bind_request-fields :
    (server_url token : Text)
    → is_hex_token token ≡ true
    → bind_request server_url token ≡ version_field ++ other_fields server_url token
unfolding bind_request json_string
bind_request-fields server_url token h =
    ap (λ s. codes "{\"version\":1,\"server_url\":\"" ++ s)
      (append_assoc (json_chars server_url) (quote ∷ [])
          (codes ",\"enrollment_token\":\"" ++ (token ++ codes "\"}"))
        ∙ ap (λ s. s ++ (quote ∷ codes ",\"enrollment_token\":\"" ++ (token ++ codes "\"}")))
            (json_chars-escape_json server_url)
        ∙ ap
            (λ t.
              escape_json server_url
              ++ (quote ∷ codes ",\"enrollment_token\":\"" ++ (t ++ codes "\"}")))
            (sym (is_hex_token-plain token h)))

read_fields-other_fields :
    (server_url token : Text)
    → read_fields 2 (other_fields server_url token)
      ≡ some ((codes "server_url", server_url) ∷ (codes "enrollment_token", token) ∷ [])
unfolding escape_json escape_char
read_fields-other_fields server_url token =
    read_fields-comma 1 (codes "server_url") server_url (token_field token)
    ∙ ap (with_field (codes "server_url", server_url))
        (read_fields_last 0 (codes "enrollment_token") token)

-- Where the token has 64 hexadecimal digits, a reader of JSON objects finds in the request, behind
-- the version, the server's URL and the token as they went in and nothing else, whatever
-- characters the URL holds.
pub read_fields-bind_request :
    (server_url token : Text)
    → is_hex_token token ≡ true
    → (rest : Text) × (bind_request server_url token ≡ version_field ++ rest)
      × (read_fields 2 rest
          ≡ some ((codes "server_url", server_url) ∷ (codes "enrollment_token", token) ∷ []))
read_fields-bind_request server_url token h = (
  other_fields server_url token,
  bind_request-fields server_url token h,
  read_fields-other_fields server_url token,
)
