-- ===== src/RdpGate/Body.antt =====
-- What the bodies say that windows/credential_provider/rdp_gate.cpp writes, to the endpoint service
-- and to the server.
use ligament_apps.Common.{
  ℕ, zero, suc, ◌/◌, ◌%◌, ◌^◌, ◌<◌, ◌≡◌, refl, sym, ap, ◌∙◌, inl, inr, Bool, true, ◌||◌, some, [],
  ◌∷◌, ◌++◌, arith, ltb, ◌==◌, not, Option-cases,
}
use mathlib.Core.List.{append_assoc}
use ligament_apps.Common.Text.{Text, codes}
use ligament_apps.Json.{quote, escape_json, escape_char, hex_char}
use ligament_apps.Json.Escape.{holds_below_lem}
use ligament_apps.Json.Fields.{
  read_object, read_fields, with_field, read_fields-comma, read_fields_last,
}
use ligament_apps.Http.Calls.{field}
use ligament_apps.RdpGate.{
  TokenQuery, gate_body, nonce_request, current_logon_id_hex, token_answer, hex_digits,
}

-- `escape_json` leaves this text as it is.
abbrev pub IsPlain : Text → Type 0
IsPlain s = escape_json s ≡ s

field_append :
    (name value rest : Text)
    → field name value ++ rest ≡ quote ∷ name ++ quote ∷ b':' ∷ quote ∷ (value ++ quote ∷ rest)
field_append name value rest = ap (◌∷◌ quote) (
    append_assoc name (codes "\":\"" ++ (value ++ codes "\"")) rest
    ∙ ap (λ s. name ++ quote ∷ b':' ∷ quote ∷ s) (append_assoc value (codes "\"") rest))

module _ (fuel : ℕ) (name value : Text) (e : IsPlain name) where
  read_fields-field :
      (rest : Text)
      → read_fields (suc fuel) (field name (escape_json value) ++ (codes "," ++ rest))
        ≡ with_field (name, value) (read_fields fuel rest)
  read_fields-field rest =
      ap (read_fields (suc fuel)) (
        field_append name (escape_json value) (codes "," ++ rest)
        ∙ ap (λ s. quote ∷ s ++ quote ∷ b':' ∷ quote ∷ (escape_json value ++ quote ∷ b',' ∷ rest))
            (sym e))
      ∙ read_fields-comma fuel name value rest

  read_fields_end :
      read_fields (suc fuel) (field name (escape_json value) ++ codes "}")
      ≡ some ((name, value) ∷ [])
  read_fields_end =
      ap (read_fields (suc fuel)) (
        field_append name (escape_json value) (codes "}")
        ∙ ap (λ s. quote ∷ s ++ quote ∷ b':' ∷ quote ∷ (escape_json value ++ quote ∷ b'}' ∷ []))
            (sym e))
      ∙ read_fields_last fuel name value

  -- A field whose value needs no escape.
  read_fields_plain :
      IsPlain value
      → (rest : Text)
      → read_fields (suc fuel) (field name value ++ (codes "," ++ rest))
        ≡ with_field (name, value) (read_fields fuel rest)
  read_fields_plain p rest =
      ap (λ v. read_fields (suc fuel) (field name v ++ (codes "," ++ rest))) (sym p)
      ∙ read_fields-field rest

gate_body_plain :
    (nonce machine logon_id username user_sid : Text)
    → IsPlain logon_id
    → read_object 5 (gate_body nonce machine logon_id username user_sid)
      ≡ some (
          (codes "nonce", nonce)
          ∷ (codes "machine", machine)
          ∷ (codes "logon_id", logon_id)
          ∷ (codes "username", username)
          ∷ (codes "user_sid", user_sid)
          ∷ [])
unfolding read_object gate_body escape_json escape_char
gate_body_plain nonce machine logon_id username user_sid p =
    read_fields-field 4 (codes "nonce") nonce refl _
    ∙ ap (with_field (codes "nonce", nonce)) (
        read_fields-field 3 (codes "machine") machine refl _
        ∙ ap (with_field (codes "machine", machine)) (
            read_fields_plain 2 (codes "logon_id") logon_id refl p _
            ∙ ap (with_field (codes "logon_id", logon_id)) (
                read_fields-field 1 (codes "username") username refl _
                ∙ ap (with_field (codes "username", username))
                    (read_fields_end 0 (codes "user_sid") user_sid refl))))

nonce_request_plain :
    (logon_id username user_sid : Text)
    → IsPlain logon_id
    → read_object 3 (nonce_request logon_id username user_sid)
      ≡ some (
          (codes "logon_id", logon_id)
          ∷ (codes "username", username)
          ∷ (codes "user_sid", user_sid)
          ∷ [])
unfolding read_object nonce_request escape_json escape_char
nonce_request_plain logon_id username user_sid p =
    read_fields_plain 2 (codes "logon_id") logon_id refl p _
    ∙ ap (with_field (codes "logon_id", logon_id)) (
        read_fields-field 1 (codes "username") username refl _
        ∙ ap (with_field (codes "username", username))
            (read_fields_end 0 (codes "user_sid") user_sid refl))

abbrev is_plain_char : ℕ → Bool
is_plain_char c = not (c == quote || c == 92 || ltb c 32)

escape_char_plain : (c : ℕ) → is_plain_char c ≡ true → escape_char c ≡ c ∷ []
unfolding escape_char
escape_char_plain c h = ground arith

hex_char-IsPlain : (n : ℕ) → n < 16 → escape_char (hex_char n) ≡ hex_char n ∷ []
hex_char-IsPlain n l =
    escape_char_plain (hex_char n) (holds_below_lem (λ k. is_plain_char (hex_char k)) 16 n refl l)

hex_digits-IsPlain : (count n : ℕ) → IsPlain (hex_digits count n)
unfolding hex_digits escape_json
hex_digits-IsPlain zero n = refl
hex_digits-IsPlain (suc count) n =
    ground (arith, hex_char-IsPlain ((n / 16 ^ count) % 16), hex_digits-IsPlain count n)

escape_json-append : (s t : Text) → escape_json (s ++ t) ≡ escape_json s ++ escape_json t
unfolding escape_json
escape_json-append [] t = refl
escape_json-append (c ∷ s) t =
    ap (escape_char c ++◌) (escape_json-append s t)
    ∙ sym (append_assoc (escape_char c) (escape_json s) (escape_json t))

current_logon_id_hex-IsPlain :
    (statistics : TokenQuery (ℕ × ℕ)) → IsPlain (current_logon_id_hex statistics)
unfolding current_logon_id_hex escape_json
current_logon_id_hex-IsPlain statistics = elim (Option-cases (token_answer statistics)) [
  | inl e ↦ rw (e, current_logon_id_hex) refl
  | inr ((high, low), e) ↦
      rw (e, current_logon_id_hex)
        (escape_json-append (hex_digits 8 high) (hex_digits 8 low)
          ∙ rw (hex_digits-IsPlain 8 high, hex_digits-IsPlain 8 low) refl)
]

-- A reader of JSON objects reads in the body for the server the nonce, the machine, the logon's
-- identifier, the user's name and the user's SID, and in the request to the endpoint service the
-- last three, each as it went in and nothing else, whatever characters the texts hold.
pub read_object-gate_body :
    (statistics : TokenQuery (ℕ × ℕ)) (nonce machine username user_sid : Text)
    → let logon_id = current_logon_id_hex statistics in
      (read_object 5 (gate_body nonce machine logon_id username user_sid)
        ≡ some (
            (codes "nonce", nonce)
            ∷ (codes "machine", machine)
            ∷ (codes "logon_id", logon_id)
            ∷ (codes "username", username)
            ∷ (codes "user_sid", user_sid)
            ∷ []))
      × (read_object 3 (nonce_request logon_id username user_sid)
          ≡ some (
              (codes "logon_id", logon_id)
              ∷ (codes "username", username)
              ∷ (codes "user_sid", user_sid)
              ∷ []))
read_object-gate_body statistics nonce machine username user_sid = (
  gate_body_plain nonce machine (current_logon_id_hex statistics) username user_sid
      (current_logon_id_hex-IsPlain statistics),
  nonce_request_plain (current_logon_id_hex statistics) username user_sid
      (current_logon_id_hex-IsPlain statistics),
)
