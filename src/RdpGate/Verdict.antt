-- ===== src/RdpGate/Verdict.antt =====
-- When the gate of windows/credential_provider/rdp_gate.cpp is satisfied, and what it says where it
-- is not.
use ligament_apps.Common.{
  ℕ, ◌≡◌, refl, ap, ◌∙◌, ◌≢◌, ◌↔◌, ◌⊎◌, inl, inr, Bool, true, false, some, List, [], ◌∷◌, arith,
  Option-cases, empty,
}
use ligament_apps.Common.{==_iff}
use ligament_apps.Common.Text.{Text, codes, eq_text}
use ligament_apps.Json.{extract_json_bool}
use ligament_apps.Http.{Request}
use ligament_apps.RdpGate.{
  System, Chunk, RdpGateResult, Prepared, read_agent_key, current_logon_id_hex, current_user_sid,
  query_assertion_nonce, gate_body, gate_headers, ask_server, prepare, read_body, gate_answer,
  post_request, check_rdp_mfa_satisfied, unanswered,
}

-- The gate has all that it asks with: the settings, the agent's key, the logon, its user, the nonce
-- of the endpoint service; and this is what it sends.
pub record IsAsked (sys : System) (server_url username computer_name : Text)
    (allow_self_signed allow_http : Bool) (request : Request) (headers : Text) : Type 0 where
  pub has_url : server_url ≢ []
  pub has_name : computer_name ≢ []
  pub has_key : read_agent_key sys.policy_key sys.local_key ≢ []
  pub has_logon : current_logon_id_hex sys.statistics ≢ []
  pub has_user : current_user_sid sys.token_user ≢ []
  pub nonce : Text
  pub has_nonce : nonce ≢ []
  pub nonce_lem :
      query_assertion_nonce sys.pipe
        (current_logon_id_hex sys.statistics)
        (sys.to_utf8 username)
        (current_user_sid sys.token_user)
      ≡ nonce
  pub is_secure : (request.secure ≡ true) ⊎ (allow_http ≡ true)
  pub body_lem :
      request.body
      ≡ gate_body nonce
          (sys.to_utf8 computer_name)
          (current_logon_id_hex sys.statistics)
          (sys.to_utf8 username)
          (current_user_sid sys.token_user)
  pub headers_lem : headers ≡ gate_headers (read_agent_key sys.policy_key sys.local_key)

-- WinHTTP gives an answer to a request, with status 200 and a true `satisfied`.
pub record IsGranted (sys : System) (request : Request) (headers : Text) : Type 0 where
  pub chunks : List Chunk
  pub session : sys.has_session ≡ true
  pub answered : sys.post request headers ≡ some (200, chunks)
  pub granted : extract_json_bool (read_body chunks) (codes "satisfied") ≡ true

not_empty : (s : Text) → empty s ≡ false → s ≢ []
not_empty [] h = ground arith
not_empty (c ∷ s) h = ground arith

prepare-cases :
    (q : Prepared)
    → ((note : Text) × (q ≡ Prepared.refused note))
      ⊎ ((request : Request) × (headers : Text) × (q ≡ Prepared.ready request headers))
prepare-cases (Prepared.refused note) = inl (note, refl)
prepare-cases (Prepared.ready request headers) = inr (request, headers, refl)

module _ (sys : System) (server_url username computer_name : Text)
    (allow_self_signed allow_http : Bool) where
  abbrev logon : Text
  logon = current_logon_id_hex sys.statistics

  abbrev sid : Text
  sid = current_user_sid sys.token_user

  abbrev key : Text
  key = read_agent_key sys.policy_key sys.local_key

  abbrev asked_nonce : Text
  asked_nonce = query_assertion_nonce sys.pipe logon (sys.to_utf8 username) sid

  prepare-IsAsked :
      (request : Request) (headers : Text)
      → prepare sys server_url username computer_name allow_self_signed allow_http
        ≡ Prepared.ready request headers
      → IsAsked sys server_url username computer_name allow_self_signed allow_http request headers
  unfolding prepare ask_server
  prepare-IsAsked request headers h = record {
    has_url = not_empty server_url (ground (arith, h));
    has_name = not_empty computer_name (ground (arith, h));
    has_key = not_empty key (ground (arith, h));
    has_logon = not_empty logon (ground (arith, h));
    has_user = not_empty sid (ground (arith, h));
    nonce = asked_nonce;
    has_nonce = not_empty asked_nonce (ground (arith, h));
    nonce_lem = refl;
    is_secure = ground (arith, h);
    body_lem = ground (arith, h);
    headers_lem = ground (arith, h);
  }

  abbrev gate : RdpGateResult
  gate = check_rdp_mfa_satisfied sys server_url username computer_name allow_self_signed allow_http

  abbrev IsAskedAndGranted : Type 0
  IsAskedAndGranted =
      (request : Request) × (headers : Text) × IsAsked sys server_url username computer_name
        allow_self_signed allow_http request headers
      × IsGranted sys request headers

post_request-IsGranted :
    (sys : System) (request : Request) (headers : Text)
    → (post_request sys request headers).satisfied ≡ true
    → IsGranted sys request headers
unfolding post_request gate_answer
post_request-IsGranted sys request headers h = elim (Option-cases (sys.post request headers)) [
  | inl e ↦ absurd (ground (arith, e, h))
  | inr ((status, chunks), e) ↦ record {
    chunks = chunks;
    session = ground (arith, e, h);
    answered = e ∙ ap (λ n. some (n, chunks)) ((==_iff status 200).0 (ground (arith, e, h)));
    granted = ground (arith, e, h);
  }
]

-- The gate is satisfied only where it has the URL, the machine's name, the agent's key, the
-- logon's identifier, the user's SID and the nonce, none of them blank, where the request that
-- carries them goes over https or http is allowed, and where the server answers it with status 200
-- and a true satisfied.
pub satisfied-IsAsked :
    (sys : System) (server_url username computer_name : Text) (allow_self_signed allow_http : Bool)
    → (check_rdp_mfa_satisfied sys server_url username computer_name allow_self_signed
        allow_http).satisfied
      ≡ true
    → (request : Request) × (headers : Text) × IsAsked sys server_url username computer_name
        allow_self_signed allow_http request headers
      × IsGranted sys request headers
unfolding check_rdp_mfa_satisfied
satisfied-IsAsked sys server_url username computer_name allow_self_signed allow_http h =
    elim (prepare-cases
      (prepare sys server_url username computer_name allow_self_signed allow_http)) [
        | inl (note, e) ↦ absurd (ground (arith, e, h))
        | inr (request, headers, e) ↦ (
          request,
          headers,
          prepare-IsAsked sys server_url username computer_name allow_self_signed allow_http request
              headers e,
          post_request-IsGranted sys request headers (ground (arith, e, h)),
        )
      ]

-- Of a result of the gate: a satisfied one was answered, and the note is "satisfied" exactly then.
abbrev pub IsHonest : RdpGateResult → Type 0
IsHonest r =
    ((r.satisfied ≡ false) ⊎ (r.responded ≡ true))
    × ((r.satisfied ≡ true) ↔ (r.note ≡ codes "satisfied"))

gate_answer-IsHonest : (status : ℕ) (body : Text) → IsHonest (gate_answer status body)
unfolding gate_answer
gate_answer-IsHonest status body = ground arith

post_request-IsHonest :
    (sys : System) (request : Request) (headers : Text)
    → IsHonest (post_request sys request headers)
unfolding post_request
post_request-IsHonest sys request headers = elim (Option-cases (sys.post request headers)) [
  | inl e ↦ ground (arith, e)
  | inr ((status, chunks), e) ↦ ground (arith, e, gate_answer-IsHonest status (read_body chunks))
]

ask_server-IsHonest :
    (sys : System) (server_url username computer_name : Text) (allow_self_signed allow_http : Bool)
    (logon_id user_sid nonce note : Text)
    → ask_server sys server_url username computer_name allow_self_signed allow_http logon_id
        user_sid nonce
      ≡ Prepared.refused note
    → eq_text note (codes "satisfied") ≡ false
unfolding ask_server eq_text
ask_server-IsHonest sys server_url username computer_name allow_self_signed allow_http logon_id
      user_sid nonce note h =
    ground (arith, h)

prepare-IsHonest :
    (sys : System) (server_url username computer_name : Text) (allow_self_signed allow_http : Bool)
    (note : Text)
    → prepare sys server_url username computer_name allow_self_signed allow_http
      ≡ Prepared.refused note
    → eq_text note (codes "satisfied") ≡ false
unfolding prepare eq_text
prepare-IsHonest sys server_url username computer_name allow_self_signed allow_http note h =
    ground (
      arith,
      h,
      ask_server-IsHonest sys server_url username computer_name allow_self_signed allow_http
          (current_logon_id_hex sys.statistics) (current_user_sid sys.token_user)
          (query_assertion_nonce sys.pipe (current_logon_id_hex sys.statistics)
            (sys.to_utf8 username) (current_user_sid sys.token_user))
          note,
    )

unanswered-IsHonest :
    (note : Text) → eq_text note (codes "satisfied") ≡ false → IsHonest (unanswered note)
unfolding eq_text
unanswered-IsHonest note h = ground (arith, h)

-- Whatever fails on the way of the gate, its result is consistent: a satisfied result was
-- answered, and the note says satisfied exactly where the result is satisfied.
pub check-IsHonest :
    (sys : System) (server_url username computer_name : Text) (allow_self_signed allow_http : Bool)
    → IsHonest
        (check_rdp_mfa_satisfied sys server_url username computer_name allow_self_signed allow_http)
unfolding check_rdp_mfa_satisfied
check-IsHonest sys server_url username computer_name allow_self_signed allow_http =
    elim (prepare-cases
      (prepare sys server_url username computer_name allow_self_signed allow_http)) [
        | inl (note, e) ↦
            rw (e, check_rdp_mfa_satisfied)
              (unanswered-IsHonest note (
                prepare-IsHonest sys server_url username computer_name allow_self_signed allow_http
                  note e))
        | inr (request, headers, e) ↦
            rw (e, check_rdp_mfa_satisfied) (post_request-IsHonest sys request headers)
      ]
