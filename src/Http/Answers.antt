-- ===== src/Http/Answers.antt =====
-- What the answers of the server and of the relay make of the calls of
-- windows/credential_provider/HttpApiClient.cpp.
use ligament_apps.Common.{
  ℕ, ◌≤◌, ◌≡◌, ap, ◌∙◌, ◌⊎◌, inl, inr, Bool, true, false, Option, none, some, arith, Bool-cases,
  Option-cases,
}
use ligament_apps.Common.{==_iff}
use ligament_apps.Common.Text.{eq_text, eq_of_eq_text, eq_text_refl, Text, codes}
use ligament_apps.Json.{extract_json_string, extract_json_bool}
use ligament_apps.Http.{Platform, Client, Request, send}
use ligament_apps.Http.Calls.{
  start_push, verify_combined, web_authn_begin, server_error, accepts, ask_relay, start_request,
  combined_request, verify_request, begin_request, network_error,
}

-- A request is answered with this error.
abbrev pub SaysError : Platform → Request → Text → Type 0
SaysError p r error =
    (answer : ℕ × Text) × (send p r ≡ some answer)
    × (extract_json_string answer.1 (codes "error") ≡ error)

-- A request is answered with status 200 and `"ok":true`.
abbrev pub IsAccepted : Platform → Request → Type 0
IsAccepted p r =
    (response : Text) × (send p r ≡ some (200, response))
    × (extract_json_bool response (codes "ok") ≡ true)

server_error-network_error :
    (status : ℕ) (response : Text)
    → server_error status response ≡ network_error
    → extract_json_string response (codes "error") ≡ network_error
unfolding server_error
server_error-network_error status response h = ground arith

abbrev relay_says_ok : Option (Bool × Text) → Bool
relay_says_ok none = false
relay_says_ok (some (ok, error)) = ok

answer-IsAccepted :
    (p : Platform) (r : Request) (answer : ℕ × Text)
    → send p r ≡ some answer
    → accepts answer.0 answer.1 ≡ true
    → IsAccepted p r
answer-IsAccepted p r answer e h = (
  answer.1,
  e ∙ ap (λ n. some (n, answer.1)) ((==_iff answer.0 200).0 (ground arith)),
  ground arith,
)

ask_relay-IsAccepted :
    (p : Platform) (c : Client) (username password code error : Text)
    → ask_relay p c username password code ≡ some (true, error)
    → IsAccepted p (verify_request p c username password code)
unfolding ask_relay
ask_relay-IsAccepted p c username password code error h =
    elim (Option-cases (send p (verify_request p c username password code))) [
      | inl e ↦ ground (arith, e)
      | inr (answer, e) ↦
          answer-IsAccepted p (verify_request p c username password code) answer e
            (ground (arith, e))
    ]

-- The server was not reached, or failed with a status from 500 on.
abbrev pub IsUnavailable : Platform → Request → Type 0
IsUnavailable p r =
    (send p r ≡ none) ⊎ ((answer : ℕ × Text) × (send p r ≡ some answer) × (500 ≤ answer.0))

-- VerifyCombined accepts a code only where the server answers status 200 with a true ok, or where
-- the server is not reached or fails with a status from 500 on and the relay answers so.
pub verify_combined-IsAccepted :
    (p : Platform) (c : Client) (username password code : Text)
    → (verify_combined p c username password code).ok ≡ true
    → IsAccepted p (combined_request p c username password code)
      ⊎ (IsUnavailable p (combined_request p c username password code)
          × IsAccepted p (verify_request p c username password code))
unfolding verify_combined
verify_combined-IsAccepted p c username password code h =
    elim (Option-cases (send p (combined_request p c username password code))) [
      | inl e ↦ inr (inl e, relayed (ground (arith, e)))
      | inr (answer, e) ↦ elim (Bool-cases (accepts answer.0 answer.1)) [
        | inl k ↦ inl (answer-IsAccepted p (combined_request p c username password code) answer e k)
        | inr k ↦ inr (inr (answer, e, ground (arith, e, k)), relayed (ground (arith, e, k)))
      ]
    ]
  where
    relayed :
        relay_says_ok (ask_relay p c username password code) ≡ true
        → IsAccepted p (verify_request p c username password code)
    relayed h' = elim (Option-cases (ask_relay p c username password code)) [
      | inl e ↦ ground (arith, e)
      | inr ((ok, error), e) ↦
          ask_relay-IsAccepted p c username password code error
            (e ∙ ap (λ b. some (b, error)) (ground (arith, e)))
    ]

-- A call gives this error only where the request was not answered, or is answered with it.
abbrev pub IsUnanswered : Platform → Request → Type 0
IsUnanswered p r = (send p r ≡ none) ⊎ SaysError p r network_error

pub start_push-network_error :
    (p : Platform) (c : Client) (username password : Text)
    → (start_push p c username password).error ≡ network_error
    → (send p (start_request p c username password) ≡ none)
      ⊎ SaysError p (start_request p c username password) network_error
unfolding start_push
start_push-network_error p c username password h =
    elim (Option-cases (send p (start_request p c username password))) [
      | inl e ↦ inl e
      | inr (answer, e) ↦
          inr (answer, e, ground (arith, e, server_error-network_error answer.0 answer.1))
    ]

pub web_authn_begin-network_error :
    (p : Platform) (c : Client) (username password : Text)
    → (web_authn_begin p c username password).error ≡ network_error
    → IsUnanswered p (begin_request p c username password)
unfolding web_authn_begin
web_authn_begin-network_error p c username password h =
    elim (Option-cases (send p (begin_request p c username password))) [
      | inl e ↦ inl e
      | inr (answer, e) ↦
          inr (answer, e, ground (arith, e, server_error-network_error answer.0 answer.1))
    ]

ask_relay-network_error :
    (p : Platform) (c : Client) (username password code : Text) (ok : Bool)
    → ask_relay p c username password code ≡ some (ok, network_error)
    → SaysError p (verify_request p c username password code) network_error
unfolding ask_relay
ask_relay-network_error p c username password code ok h =
    elim (Option-cases (send p (verify_request p c username password code))) [
      | inl e ↦ ground (arith, e)
      | inr (answer, e) ↦
          (answer, e, ground (arith, e, server_error-network_error answer.0 answer.1))
    ]

pub verify_combined-network_error :
    (p : Platform) (c : Client) (username password code : Text)
    → (verify_combined p c username password code).error ≡ network_error
    → IsUnanswered p (combined_request p c username password code)
      ⊎ SaysError p (verify_request p c username password code) network_error
unfolding verify_combined
verify_combined-network_error p c username password code h =
    elim (Option-cases (send p (combined_request p c username password code))) [
      | inl e ↦ inl (inl e)
      | inr (answer, e) ↦ elim (Option-cases (ask_relay p c username password code)) [
        | inl k ↦
            inl
              (inr (answer, e, ground (arith, e, k, server_error-network_error answer.0 answer.1)))
        | inr ((ok, error), k) ↦ elim (Bool-cases (eq_text error network_error)) [
          | inl same ↦ inr (
              ask_relay-network_error p c username password code ok
                (k ∙ ap (λ t. some (ok, t)) (eq_of_eq_text error network_error same)))
          | inr other ↦ inl (
              inr (
                answer,
                e,
                ground (
                  arith,
                  e,
                  k,
                  other,
                  eq_text_refl network_error,
                  server_error-network_error answer.0 answer.1,
                ),
              ))
        ]
      ]
    ]
