-- ===== src/AgentBinding/Exchange.antt =====
-- `BindOverNamedPipe` of windows/runner/link_agent_binding_bridge.cpp: the request, the reading of the
-- reply, and the way of the two over the pipe.
use ligament_apps.Common.{
  ℕ, ◌+◌, ◌-◌, ◌/◌, ◌%◌, Bool, false, ◌&&◌, ◌||◌, Option, none, some, List, [], ◌∷◌, ◌++◌, ltb, leb,
  ◌==◌, if◌then◌else◌, not, length, take, drop, all,
}
use ligament_apps.Common.Text.{Text, codes, eq_text}
use ligament_apps.Json.{quote, backslash, hex_char}
use ligament_apps.AgentBinding.{
  LinkService, Call, opens, closes, writes, reads, wipes, Handle, token_text, url_text,
  request_text, response_text, Outcome, bound, thrown, Binding, identify,
}

abbrev pub is_hex : ℕ → Bool
is_hex c = leb b'0' c && leb c b'9' || leb b'a' c && leb c b'f' || leb b'A' c && leb c b'F'

unfoldable pub is_hex_token : Text → Bool
is_hex_token s = length s == 64 && all is_hex s

-- What the loop of `JsonString` appends for one byte.
unfoldable pub json_char : ℕ → Text
json_char c =
    if c == quote
    then backslash ∷ quote ∷ []
    else if c == backslash
    then backslash ∷ backslash ∷ []
    else if c == 8
    then backslash ∷ b'b' ∷ []
    else if c == 12
    then backslash ∷ b'f' ∷ []
    else if c == 10
    then backslash ∷ b'n' ∷ []
    else if c == 13
    then backslash ∷ b'r' ∷ []
    else if c == 9
    then backslash ∷ b't' ∷ []
    else if ltb c 0x20
    then backslash ∷ b'u' ∷ b'0' ∷ b'0' ∷ hex_char ((c / 16) % 16) ∷ hex_char (c % 16) ∷ []
    else c ∷ []

unfoldable pub json_chars : Text → Text
unfolding json_char
json_chars [] = []
json_chars (c ∷ s) = json_char c ++ json_chars s

unfoldable pub json_string : Text → Text
unfolding json_chars
json_string s = quote ∷ json_chars s ++ quote ∷ []

abbrev pub ok_prefix : Text
ok_prefix = codes "{\"ok\":true,\"fingerprint\":\""

abbrev pub ok_suffix : Text
ok_suffix = codes "\"}"

abbrev pub error_prefix : Text
error_prefix = codes "{\"ok\":false,\"error\":\""

-- `body.compare(0, …)` and `body.compare(body.size() - …)` against 0.
abbrev pub has_prefix : Text → Text → Bool
has_prefix prefix body = eq_text (take (length prefix) body) prefix

abbrev pub has_suffix : Text → Text → Bool
has_suffix suffix body = eq_text (drop (length body - length suffix) body) suffix

abbrev pub rejected : Text
rejected = codes "link_agent_enrollment_rejected"

-- The exception for an error code of the service.
unfoldable pub service_error : Text → Outcome
service_error code =
    if eq_text code (codes "server_mismatch")
    then thrown (codes "link_agent_server_mismatch")
        (codes "App and Windows service use different server URLs")
    else if eq_text code (codes "host_already_enrolled")
    then thrown (codes "link_agent_host_already_enrolled")
        (codes "This computer is already enrolled")
    else if eq_text code (codes "identity_store_failed")
    then thrown (codes "link_agent_identity_store_failed")
        (codes "Windows service could not save the host identity")
    else if eq_text code (codes "enrollment_rejected")
    then thrown rejected (codes "Server rejected host enrollment; check the Link agent log")
    else thrown rejected (codes "Windows Link service rejected host enrollment")

unfoldable pub refused_reply : Text → Outcome
unfolding service_error
refused_reply body =
    if ltb (length error_prefix + length ok_suffix) (length body)
      && (has_prefix error_prefix body && has_suffix ok_suffix body)
    then service_error (
        take (length body - length error_prefix - length ok_suffix)
          (drop (length error_prefix) body))
    else thrown rejected (codes "Windows Link service rejected host enrollment")

-- The test of the reply against the form of a success.
unfoldable pub is_malformed : Text → Bool
is_malformed body =
    not (length body == length ok_prefix + 64 + length ok_suffix)
    || (not (has_prefix ok_prefix body) || not (has_suffix ok_suffix body))

unfoldable pub reply_outcome : Text → Outcome
unfolding refused_reply is_hex_token is_malformed
reply_outcome body =
    if is_malformed body
    then refused_reply body
    else let fingerprint = take 64 (drop (length ok_prefix) body) in
      if is_hex_token fingerprint
      then bound fingerprint
      else thrown (codes "link_agent_invalid_response")
          (codes "Windows Link service returned an invalid fingerprint")

unfoldable pub bind_request : Text → Text → Text
unfolding json_string
bind_request server_url token =
    codes "{\"version\":1,\"server_url\":"
    ++ (json_string server_url ++ (codes ",\"enrollment_token\":\"" ++ (token ++ codes "\"}")))

abbrev communication_failed : Text
communication_failed = codes "link_agent_pipe_communication_failed"

abbrev pub is_taken : ℕ → Option ℕ → Bool
is_taken size none = false
is_taken size (some written) = written == size

-- The reply to a request that was taken, of at most 511 bytes.
unfoldable pub read_reply : LinkService → Binding
unfolding reply_outcome
read_reply s =
    let failed : Binding = record {
      calls = reads ∷ closes Handle.pipe ∷ [];
      outcome = thrown communication_failed (codes "Link service did not return a binding result");
    } in
    elim (s.read 511) [
      | none ↦ failed
      | some [] ↦ failed
      | some (c ∷ body) ↦ record {
        calls = reads ∷ closes Handle.pipe ∷ wipes response_text ∷ [];
        outcome = reply_outcome (c ∷ body);
      }
    ]

-- With the service trusted.
unfoldable pub exchange : LinkService → Text → Text → Binding
unfolding bind_request read_reply
exchange s server_url token =
    let request = bind_request server_url token in
    let replied = read_reply s in
    let tail : Binding = if is_taken (length request) (s.write request) then replied else record {
      calls = closes Handle.pipe ∷ [];
      outcome =
          thrown communication_failed (codes "Could not send the binding request to Link service");
    } in
    record tail {
      calls = wipes token_text ∷ wipes url_text ∷ writes request ∷ wipes request_text ∷ tail.calls;
    }

abbrev wiped : List Call
wiped = wipes token_text ∷ wipes url_text ∷ []

unfoldable pub bind_over_named_pipe : LinkService → Text → Text → Binding
unfolding identify exchange
bind_over_named_pipe s server_url token =
    if not s.waited
    then record {
      calls = wiped;
      outcome =
          thrown (codes "link_agent_service_not_running")
            (codes "Ligament Link Agent service is not running");
    }
    else if not s.opened
    then record {
      calls = wiped;
      outcome =
          thrown (codes "link_agent_pipe_unavailable")
            (codes "Cannot connect to Ligament Link Agent service pipe");
    }
    else elim (identify s).refusal [
      | some (code, message) ↦ record {
        calls = opens Handle.pipe ∷ (identify s).calls ++ closes Handle.pipe ∷ wiped;
        outcome = thrown code message;
      }
      | none ↦
          let exchanged = exchange s server_url token in
          record exchanged { calls = opens Handle.pipe ∷ (identify s).calls ++ exchanged.calls }
    ]
