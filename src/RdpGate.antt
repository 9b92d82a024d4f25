-- ===== src/RdpGate.antt =====
-- The gate for remote logons, windows/credential_provider/rdp_gate.cpp: the nonce of the endpoint
-- service's pipe, and the question to the server whether the second factor is already given. Windows
-- and WinHTTP are the records `Pipe` and `System`.
pub mod Body
pub mod Nonce
pub mod Verdict
pub mod Grant
pub mod Samples
use ligament_apps.Common.{
  ℕ, zero, suc, ◌+◌, ◌-◌, ◌*◌, ◌/◌, ◌%◌, ◌^◌, ◌≤◌, ◌<◌, String, ◌≡◌, refl, sym, ap, ◌∙◌, ◌≢◌, ◌↔◌,
  ◌⊎◌, inl, inr, Bool, true, false, ◌&&◌, ◌||◌, Option, none, some, List, [], ◌∷◌, ◌++◌, map, arith,
  ltb, leb, ◌==◌, if◌then◌else◌, not, is_some, Bool-cases, Option-cases, length, take, drop,
  get_elem?, empty, any, all,
}
use ligament_apps.Common.Text.{Text, codes, decimal}
use ligament_apps.Config.{CrackUrl, CrackedUrl}
use ligament_apps.Config.Load.{Key, Answer, RegType}
use ligament_apps.Json.{escape_json, hex_char, extract_json_string, extract_json_bool}
use ligament_apps.Http.{Request, is_https_scheme, is_http_scheme}
use ligament_apps.Http.Calls.{field}

-- The endpoint service's end of the named pipe: `WaitNamedPipeW`, `CreateFileW`, the bytes that
-- `WriteFile` takes of a request, and by the number of the poll, what `PeekNamedPipe` and `ReadFile`
-- give.
pub record Pipe : Type 0 where
  pub waited : Bool
  pub opened : Bool
  pub write : Text → Option ℕ
  pub peek : ℕ → Option ℕ
  pub read : ℕ → ℕ → Option Text

-- What `GetTokenInformation` asks for room, and what it then gives.
pub record TokenQuery (A : Type 0) : Type 0 where
  pub need : ℕ
  pub answer : Option A

-- A round of reading an answer: `WinHttpQueryDataAvailable` and `WinHttpReadData`.
pub record Chunk : Type 0 where
  pub available : Option ℕ
  pub data_read : Option Text

-- The keys of the registry, the process's token (the two halves of its logon's LUID, its user's SID
-- as text), the conversion to UTF-8, and WinHTTP: `post` sends a request with its headers and is
-- `none` where there is no answer.
pub record System : Type 0 where
  pub policy_key : Option Key
  pub local_key : Option Key
  pub statistics : TokenQuery (ℕ × ℕ)
  pub token_user : TokenQuery (Option Text)
  pub pipe : Pipe
  pub to_utf8 : Text → Text
  pub crack : CrackUrl
  pub has_session : Bool
  pub has_connection : Bool
  pub has_request : Bool
  pub post : Request → Text → Option (ℕ × List Chunk)

abbrev is_sz : RegType → Bool
is_sz RegType.sz = true
is_sz _ = false

-- `RdpAgentKey` of one key.
query_agent_key : Option Key → Option Text
query_agent_key none = none
query_agent_key (some key) =
    let a = key (codes "RdpAgentKey") 510 in if a.ok && is_sz a.kind then some a.text else none

-- `ReadAgentKeyFromRegistry`: the policy's value, even a blank one, else the local one.
unfoldable pub read_agent_key : Option Key → Option Key → Text
unfolding query_agent_key
read_agent_key policy_key local_key = elim (query_agent_key policy_key) [
  | some key ↦ key
  | none ↦ elim (query_agent_key local_key) [ some key ↦ key | none ↦ [] ]
]

-- The digits of `%0Nx`, the lowest `count` of them.
unfoldable pub hex_digits : ℕ → ℕ → Text
hex_digits zero n = []
hex_digits (suc count) n = hex_char ((n / 16 ^ count) % 16) ∷ hex_digits count n

-- What a query of the token gives, if the room that it asks for is accepted.
unfoldable pub token_answer : {A : Type 0} → TokenQuery A → Option A
token_answer q = if q.need == 0 || ltb 4096 q.need then none else q.answer

unfoldable pub current_logon_id_hex : TokenQuery (ℕ × ℕ) → Text
unfolding hex_digits token_answer
current_logon_id_hex statistics = elim (token_answer statistics) [
  | none ↦ []
  | some (high, low) ↦ hex_digits 8 high ++ hex_digits 8 low
]

unfoldable pub current_user_sid : TokenQuery (Option Text) → Text
unfolding token_answer
current_user_sid token_user = elim (token_answer token_user) [
  | none ↦ []
  | some none ↦ []
  | some (some sid) ↦ sid
]

-- The request to the endpoint service.
unfoldable pub nonce_request : Text → Text → Text → Text
nonce_request logon_id username user_sid =
    codes "{"
    ++ (field (codes "logon_id") logon_id
        ++ (codes ","
            ++ (field (codes "username") (escape_json username)
                ++ (codes "," ++ (field (codes "user_sid") (escape_json user_sid) ++ codes "}")))))

abbrev pub min : ℕ → ℕ → ℕ
min a b = if ltb a b then a else b

abbrev pub has_brace : Text → Bool
has_brace s = any (λ c. c == b'}') s

-- The loop that reads the reply, from the poll with this number, with `left` polls to go.
unfoldable pub poll_pipe : Pipe → ℕ → ℕ → Text → Text
poll_pipe pipe zero poll out = out
poll_pipe pipe (suc left) poll out = elim (ltb (length out) 512) [
  | false ↦ out
  | true ↦ elim (pipe.peek poll) [
    | none ↦ out
    | some avail ↦ elim (avail == 0) [
      | true ↦ elim (poll == 99) [ true ↦ out | false ↦ poll_pipe pipe left (suc poll) out ]
      | false ↦ elim (pipe.read poll (min avail 256)) [
        | none ↦ out
        | some [] ↦ out
        | some (c ∷ s) ↦ elim (has_brace (out ++ c ∷ s)) [
          | true ↦ out ++ c ∷ s
          | false ↦ poll_pipe pipe left (suc poll) (out ++ c ∷ s)
        ]
      ]
    ]
  ]
]

abbrev pub is_whole : ℕ → Option ℕ → Bool
is_whole size none = false
is_whole size (some written) = written == size

-- What is read of the reply to a request.
unfoldable pub pipe_reply : Pipe → Text → Text
unfolding poll_pipe
pipe_reply pipe request =
    if is_whole (length request) (pipe.write request) then poll_pipe pipe 100 0 [] else []

unfoldable pub query_assertion_nonce : Pipe → Text → Text → Text → Text
unfolding pipe_reply nonce_request
query_assertion_nonce pipe logon_id username user_sid =
    if not pipe.waited || not pipe.opened
    then []
    else extract_json_string (pipe_reply pipe (nonce_request logon_id username user_sid))
        (codes "nonce")

pub record RdpGateResult : Type 0 where
  pub satisfied : Bool
  pub responded : Bool
  pub note : Text

-- What `CheckRdpMfaSatisfied` has before it opens WinHTTP: a note on why it does not ask, or the
-- request with its headers.
pub data Prepared : Type 0 where
  refused : (note : Text) → Prepared
  ready : (request : Request) (headers : Text) → Prepared

unfoldable pub gate_body : Text → Text → Text → Text → Text → Text
gate_body nonce machine logon_id username user_sid =
    codes "{"
    ++ (field (codes "nonce") (escape_json nonce)
        ++ (codes ","
            ++ (field (codes "machine") (escape_json machine)
                ++ (codes ","
                    ++ (field (codes "logon_id") logon_id
                        ++ (codes ","
                            ++ (field (codes "username") (escape_json username)
                                ++ (codes ","
                                    ++ (field (codes "user_sid") (escape_json user_sid)
                                        ++ codes "}")))))))))

unfoldable pub gate_headers : Text → Text
gate_headers agent_key =
    codes "Authorization: Bearer "
    ++ (agent_key ++ (13 ∷ 10 ∷ codes "Content-Type: application/json" ++ 13 ∷ 10 ∷ []))

-- The request to a host that the policy on schemes accepts.
unfoldable pub ask_server :
    System → Text → Text → Text → Bool → Bool → Text → Text → Text → Prepared
unfolding gate_body gate_headers
ask_server sys server_url username computer_name allow_self_signed allow_http logon_id user_sid
      nonce =
    elim (sys.crack server_url) [
      | none ↦ refused (codes "bad_url")
      | some u ↦
          let is_https = is_https_scheme u.scheme in
          if not is_https && not (is_http_scheme u.scheme && allow_http)
          then refused (codes "scheme_rejected")
          else ready
              (record {
                host = u.host;
                port = u.port;
                secure = is_https;
                ignores_ca = is_https && allow_self_signed;
                path = codes "/api/v1/cp/rdp-assert";
                body =
                    gate_body nonce (sys.to_utf8 computer_name) logon_id (sys.to_utf8 username)
                      user_sid;
              })
              (gate_headers (read_agent_key sys.policy_key sys.local_key))
    ]

unfoldable pub prepare : System → Text → Text → Text → Bool → Bool → Prepared
unfolding read_agent_key current_logon_id_hex current_user_sid query_assertion_nonce ask_server
prepare sys server_url username computer_name allow_self_signed allow_http =
    let logon_id = current_logon_id_hex sys.statistics in
    let user_sid = current_user_sid sys.token_user in
    let nonce = query_assertion_nonce sys.pipe logon_id (sys.to_utf8 username) user_sid in
    if empty server_url || empty computer_name
    then refused (codes "not_configured")
    else if empty (read_agent_key sys.policy_key sys.local_key)
    then refused (codes "no_agent_key")
    else if empty logon_id
    then refused (codes "logon_id_failed")
    else if empty user_sid
    then refused (codes "user_sid_failed")
    else if empty nonce
    then refused (codes "no_assertion")
    else ask_server sys server_url username computer_name allow_self_signed allow_http logon_id
        user_sid nonce

-- The loop that reads the body of an answer; a round whose read fails leaves nothing of it.
unfoldable pub read_body : List Chunk → Text
read_body [] = []
read_body (chunk ∷ chunks) =
    let rest = read_body chunks in
    elim chunk.available [
      | none ↦ []
      | some size ↦
          if size == 0 then [] else elim chunk.data_read [ none ↦ rest | some part ↦ part ++ rest ]
    ]

abbrev pub unanswered : Text → RdpGateResult
unanswered note = record { satisfied = false; responded = false; note = note }

-- The answer of the server, by its status and body.
unfoldable pub gate_answer : ℕ → Text → RdpGateResult
gate_answer status body =
    if not (status == 200)
    then unanswered (codes "status_" ++ decimal status)
    else let satisfied = extract_json_bool body (codes "satisfied") in
      record {
        satisfied = satisfied;
        responded = true;
        note = if satisfied then codes "satisfied" else codes "not_satisfied";
      }

unfoldable pub post_request : System → Request → Text → RdpGateResult
unfolding gate_answer read_body
post_request sys request headers =
    if not sys.has_session
    then unanswered (codes "winhttp_open_failed")
    else if not sys.has_connection || not sys.has_request
    then unanswered (codes "network_error")
    else elim (sys.post request headers) [
      | none ↦ unanswered (codes "network_error")
      | some (status, chunks) ↦ gate_answer status (read_body chunks)
    ]

unfoldable pub check_rdp_mfa_satisfied : System → Text → Text → Text → Bool → Bool → RdpGateResult
unfolding prepare post_request
check_rdp_mfa_satisfied sys server_url username computer_name allow_self_signed allow_http =
    elim (prepare sys server_url username computer_name allow_self_signed allow_http) [
      | refused note ↦ unanswered note
      | ready request headers ↦ post_request sys request headers
    ]
