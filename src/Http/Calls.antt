-- ===== src/Http/Calls.antt =====
-- The calls of windows/credential_provider/HttpApiClient.cpp: `StartPush`, `PollStatus`,
-- `VerifyCombined`, `WebAuthnBegin` and `WebAuthnFinish`.
use ligament_apps.Common.{
  ℕ, ◌+◌, Bool, true, false, ◌&&◌, ◌||◌, Option, none, some, List, [], ◌++◌, leb, ◌==◌,
  if◌then◌else◌, not, drop, empty,
}
use ligament_apps.Common.Text.{decimal, Text, codes}
use ligament_apps.Json.{
  escape_json, extract_json_string, extract_json_bool, find_colon, drop_while, take_while, is_digit,
}
use ligament_apps.Http.{
  Platform, Client, Request, SessionEndpointInfo, server_request, relay_request, requests_of, send,
  endpoint_info, apply_service_base,
}

-- What a call leaves: its result, the strings it gives back, `m_lastRetryAfterSec`, and the requests
-- that it made, in order.
pub record CallResult : Type 0 where
  pub ok : Bool
  pub error : Text
  pub challenge_id : Text
  pub number_match : Text
  pub status : Text
  pub sso_ticket : Text
  pub handle : Text
  pub retry_after : ℕ
  pub requests : List Request

-- The result of a call before it has an answer.
abbrev pub no_result : CallResult
no_result = record {
  ok = false;
  error = [];
  challenge_id = [];
  number_match = [];
  status = [];
  sso_ticket = [];
  handle = [];
  retry_after = 0;
  requests = [];
}

abbrev pub network_error : Text
network_error = codes "network_error"

-- `ExtractJsonInt(json, key)`.
unfoldable pub extract_json_int : Platform → Text → Text → ℕ
extract_json_int p json key = elim (find_colon json key) [
  | none ↦ 0
  | some pos ↦
      let number =
        take_while is_digit (drop_while (λ c. c == 32 || c == 9) (drop (pos + 1) json)) in
      if empty number then 0 else p.atoi number
]

-- `"error"` of an answer, or its status.
unfoldable pub server_error : ℕ → Text → Text
server_error status response =
    let error = extract_json_string response (codes "error") in
    if empty error then codes "status_" ++ decimal status else error

-- `"name":"value"`.
abbrev pub field : Text → Text → Text
field name value = codes "\"" ++ (name ++ (codes "\":\"" ++ (value ++ codes "\"")))

abbrev endpoint_fields : SessionEndpointInfo → Text
endpoint_fields ep =
    field (codes "service") (escape_json ep.service)
    ++ codes ","
    ++ field (codes "client") (escape_json ep.client_desc)
    ++ codes ","
    ++ field (codes "host") (escape_json ep.host_name)
    ++ codes ","
    ++ field (codes "client_ip") (escape_json ep.client_ip)
    ++ codes ","
    ++ field (codes "host_ip") (escape_json ep.host_ip)
    ++ codes ","
    ++ field (codes "client_name") (escape_json ep.client_name)
    ++ codes ","
    ++ field (codes "computer_name") (escape_json ep.host_name)
    ++ codes "}"

-- The body that names the user: the fields, then `rest`.
unfoldable pub credentials_body : Platform → Text → Text → Text → Text
credentials_body p username password rest =
    codes "{"
    ++ (field (codes "username") (escape_json (p.to_utf8 username))
        ++ (codes ","
            ++ (field (codes "password") (escape_json (p.to_utf8 password))
                ++ (codes "," ++ rest))))

abbrev endpoint : Platform → Client → SessionEndpointInfo
endpoint p c = apply_service_base p c.service_base (endpoint_info p)

abbrev pub start_request : Platform → Client → Text → Text → Request
start_request p c username password =
    server_request c (codes "/api/v1/auth/start")
      (credentials_body p username password (endpoint_fields (endpoint p c)))

-- The failure that an answered request ends with.
abbrev refused : Platform → List Request → ℕ → Text → CallResult
refused p requests status response = record no_result {
  error = server_error status response;
  retry_after = extract_json_int p response (codes "retry_after");
  requests = requests;
}

abbrev unreached : List Request → CallResult
unreached requests = record no_result { error = network_error; requests = requests }

unfoldable pub start_push : Platform → Client → Text → Text → CallResult
start_push p c username password =
    let r = start_request p c username password in
    elim (send p r) [
      | none ↦ unreached (requests_of p r)
      | some (status, response) ↦
          let id = extract_json_string response (codes "challenge_id") in
          if status == 200 && not (empty id)
          then record no_result {
            ok = true;
            challenge_id = p.to_wide id;
            number_match = p.to_wide (extract_json_string response (codes "number_match"));
            requests = requests_of p r;
          }
          else refused p (requests_of p r) status response
    ]

abbrev pub poll_request : Platform → Client → Text → Request
poll_request p c challenge =
    server_request c (codes "/api/v1/auth/poll")
      (codes "{" ++ field (codes "challenge_id") (p.to_utf8 challenge) ++ codes "}")

unfoldable pub poll_status : Platform → Client → Text → CallResult
poll_status p c challenge =
    let r = poll_request p c challenge in
    elim (send p r) [
      | none ↦ unreached (requests_of p r)
      | some (code, response) ↦
          let status = extract_json_string response (codes "status") in
          if code == 200 && not (empty status)
          then record no_result {
            ok = true;
            status = p.to_wide status;
            sso_ticket = extract_json_string response (codes "sso_ticket");
            requests = requests_of p r;
          }
          else record no_result {
            error = extract_json_string response (codes "error");
            requests = requests_of p r;
          }
    ]

abbrev pub combined_request : Platform → Client → Text → Text → Text → Request
combined_request p c username password code = server_request c (codes "/api/v1/auth/combined") (
    credentials_body p username password (
      field (codes "code") (escape_json (p.to_utf8 code))
      ++ codes ","
      ++ endpoint_fields (endpoint p c)))

abbrev pub verify_request : Platform → Client → Text → Text → Text → Request
verify_request p c username password code = relay_request c (codes "/api/v1/auth/verify") (
    credentials_body p username password
      (field (codes "totp_code") (escape_json (p.to_utf8 code)) ++ codes "}"))

-- A code is accepted by status 200 and `"ok":true`.
abbrev pub accepts : ℕ → Text → Bool
accepts status response = status == 200 && extract_json_bool response (codes "ok")

-- Asking the relay where the server was not reached or failed; `none` goes on without its answer.
unfoldable pub ask_relay : Platform → Client → Text → Text → Text → Option (Bool × Text)
ask_relay p c username password code = elim (send p (verify_request p c username password code)) [
  | none ↦ none
  | some (status, response) ↦ some (
    accepts status response,
    if accepts status response then [] else server_error status response,
  )
]

unfoldable pub verify_combined : Platform → Client → Text → Text → Text → CallResult
unfolding ask_relay
verify_combined p c username password code =
    let r = combined_request p c username password code in
    let relay = verify_request p c username password code in
    let own = requests_of p r in
    let both = own ++ requests_of p relay in
    elim (send p r) [
      | none ↦ elim (ask_relay p c username password code) [
        | none ↦ unreached both
        | some (ok, error) ↦ record no_result { ok = ok; error = error; requests = both }
      ]
      | some (status, response) ↦
          if accepts status response
          then record no_result { ok = true; requests = own }
          else if leb 500 status
          then elim (ask_relay p c username password code) [
            | none ↦ refused p both status response
            | some (ok, error) ↦ record no_result { ok = ok; error = error; requests = both }
          ]
          else refused p own status response
    ]

abbrev pub begin_request : Platform → Client → Text → Text → Request
begin_request p c username password =
    server_request c (codes "/api/v1/auth/webauthn/begin")
      (credentials_body p username password (endpoint_fields (endpoint p c)))

unfoldable pub web_authn_begin : Platform → Client → Text → Text → CallResult
web_authn_begin p c username password =
    let r = begin_request p c username password in
    elim (send p r) [
      | none ↦ unreached (requests_of p r)
      | some (status, response) ↦
          let handle = extract_json_string response (codes "handle") in
          if status == 200
          then record no_result {
            ok = not (empty handle);
            handle = handle;
            challenge_id = extract_json_string response (codes "challenge_id");
            requests = requests_of p r;
          }
          else refused p (requests_of p r) status response
    ]

abbrev pub finish_request : Platform → Client → Text → Text → Request
finish_request p c handle assertion_json =
    server_request c (codes "/api/v1/auth/webauthn/finish?handle=" ++ p.to_wide handle)
      assertion_json

unfoldable pub web_authn_finish : Platform → Client → Text → Text → CallResult
web_authn_finish p c handle assertion_json =
    let r = finish_request p c handle assertion_json in
    elim (send p r) [
      | none ↦ unreached (requests_of p r)
      | some (status, response) ↦
          if status == 200
          then record no_result { ok = true; requests = requests_of p r }
          else refused p (requests_of p r) status response
    ]
