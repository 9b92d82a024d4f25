-- ===== src/Http/Transport.antt =====
-- Over which channel the requests of windows/credential_provider/HttpApiClient.cpp go, and what their
-- bodies say.
use ligament_apps.Common.{
  ◌≡◌, sym, ap, ◌∙◌, ◌⊎◌, Bool, true, false, some, List, [], ◌++◌, arith, drop, all,
}
use mathlib.Core.List.{append_assoc}
use mathlib.Core.Path.{subst}
use ligament_apps.Common.Lists.{all-append}
use ligament_apps.Common.Text.{Text, codes}
use ligament_apps.Config.{CrackUrl}
use ligament_apps.Json.{escape_json}
use ligament_apps.Json.Escape.{read, plain, read-escape_json}
use ligament_apps.Http.{
  Platform, Client, Request, parse_url, parse_relay_url, new_client, server_request, relay_request,
  requests_of,
}
use ligament_apps.Http.Calls.{
  start_push, poll_status, verify_combined, web_authn_begin, web_authn_finish, credentials_body,
  start_request, poll_request, combined_request, verify_request, begin_request, finish_request,
  field,
}

-- The channel to the server is https where there is a host, unless http is allowed; the one to the
-- relay always is.
pub record IsSecure (c : Client) : Type 0 where
  pub server_secure : (c.is_https ≡ true) ⊎ ((c.host ≡ []) ⊎ (c.allow_http ≡ true))
  pub relay_secure : (c.relay_is_https ≡ true) ⊎ (c.relay_host ≡ [])

parse_url-IsSecure :
    (crack : CrackUrl) (url : Text) (c : Client) → IsSecure c → IsSecure (parse_url crack url c)
unfolding parse_url
parse_url-IsSecure crack url c v = ground arith

parse_relay_url-IsSecure :
    (crack : CrackUrl) (url : Text) (c : Client)
    → IsSecure c
    → IsSecure (parse_relay_url crack url c)
unfolding parse_relay_url
parse_relay_url-IsSecure crack url c v = ground arith

parse_url-allow_http :
    (crack : CrackUrl) (url : Text) (c : Client) → (parse_url crack url c).allow_http ≡ c.allow_http
unfolding parse_url
parse_url-allow_http crack url c = ground arith

parse_relay_url-allow_http :
    (crack : CrackUrl) (url : Text) (c : Client)
    → (parse_relay_url crack url c).allow_http ≡ c.allow_http
unfolding parse_relay_url
parse_relay_url-allow_http crack url c = ground arith

module _ (crack : CrackUrl) (server_url : Text) (allow_self_signed : Bool) (relay_url : Text)
    (allow_http : Bool) (service_base : Text) where
  abbrev made : Client
  made = new_client crack server_url allow_self_signed relay_url allow_http service_base

  pub new_client-IsSecure : IsSecure made
  unfolding new_client
  new_client-IsSecure =
      ground (arith, parse_url-IsSecure crack server_url, parse_relay_url-IsSecure crack relay_url)

  pub new_client-allow_http : made.allow_http ≡ allow_http
  unfolding new_client
  new_client-allow_http =
      ground
        (arith, parse_url-allow_http crack server_url, parse_relay_url-allow_http crack relay_url)

abbrev pub are_secure : List Request → Bool
are_secure requests = all (λ (r : Request). r.secure) requests

module _ (p : Platform) (c : Client) (v : IsSecure c) where
  server-are_secure :
      (path body : Text)
      → c.allow_http ≡ false
      → are_secure (requests_of p (server_request c path body)) ≡ true
  unfolding requests_of
  server-are_secure path body h = ground arith

  relay-are_secure :
      (path body : Text) → are_secure (requests_of p (relay_request c path body)) ≡ true
  unfolding requests_of
  relay-are_secure path body = ground arith

  start_push-are_secure :
      (username password : Text)
      → c.allow_http ≡ false
      → are_secure (start_push p c username password).requests ≡ true
  unfolding start_push
  start_push-are_secure username password h = ground (
    arith,
    server-are_secure (start_request p c username password).path
        (start_request p c username password).body h,
  )

  poll_status-are_secure :
      (challenge : Text)
      → c.allow_http ≡ false
      → are_secure (poll_status p c challenge).requests ≡ true
  unfolding poll_status
  poll_status-are_secure challenge h = ground (
    arith,
    server-are_secure (poll_request p c challenge).path (poll_request p c challenge).body h,
  )

  web_authn_begin-are_secure :
      (username password : Text)
      → c.allow_http ≡ false
      → are_secure (web_authn_begin p c username password).requests ≡ true
  unfolding web_authn_begin
  web_authn_begin-are_secure username password h = ground (
    arith,
    server-are_secure (begin_request p c username password).path
        (begin_request p c username password).body h,
  )

  web_authn_finish-are_secure :
      (handle assertion : Text)
      → c.allow_http ≡ false
      → are_secure (web_authn_finish p c handle assertion).requests ≡ true
  unfolding web_authn_finish
  web_authn_finish-are_secure handle assertion h = ground (
    arith,
    server-are_secure (finish_request p c handle assertion).path
        (finish_request p c handle assertion).body h,
  )

  verify_combined-are_secure :
      (username password code : Text)
      → c.allow_http ≡ false
      → are_secure (verify_combined p c username password code).requests ≡ true
  unfolding verify_combined
  verify_combined-are_secure username password code h = ground (
    arith,
    server-are_secure (combined_request p c username password code).path
        (combined_request p c username password code).body h,
    relay-are_secure (verify_request p c username password code).path
        (verify_request p c username password code).body,
    all-append (λ (r : Request). r.secure)
        (requests_of p (combined_request p c username password code))
        (requests_of p (verify_request p c username password code)),
  )

-- A client that is made with http not allowed sends every request of its five calls over https, to
-- the server and to the relay, whatever the URLs are.
pub requests_secure :
    (p : Platform) (server_url relay_url service_base : Text) (allow_self_signed : Bool)
    (c : Client) (username password code challenge handle assertion : Text)
    → new_client p.crack server_url allow_self_signed relay_url false service_base ≡ c
    → (are_secure (start_push p c username password).requests ≡ true)
      × (are_secure (poll_status p c challenge).requests ≡ true)
      × (are_secure (verify_combined p c username password code).requests ≡ true)
      × (are_secure (web_authn_begin p c username password).requests ≡ true)
      × (are_secure (web_authn_finish p c handle assertion).requests ≡ true)
requests_secure p server_url relay_url service_base allow_self_signed c username password code
      challenge handle assertion e =
    (
      start_push-are_secure p c v username password h,
      poll_status-are_secure p c v challenge h,
      verify_combined-are_secure p c v username password code h,
      web_authn_begin-are_secure p c v username password h,
      web_authn_finish-are_secure p c v handle assertion h,
    )
  where
    v : IsSecure c
    v =
        subst IsSecure e
          (new_client-IsSecure p.crack server_url allow_self_signed relay_url false service_base)

    h : c.allow_http ≡ false
    h =
        ap (λ (d : Client). d.allow_http) (sym e)
        ∙ new_client-allow_http p.crack server_url allow_self_signed relay_url false service_base

-- In the body that names a user, a reader of JSON strings that stands behind the opening quote of
-- the first field reads back the user name, and 13 characters further on the password, with the
-- other fields behind it.
pub read-credentials_body :
    (p : Platform) (username password rest : Text)
    → (tail : Text) × (read plain (drop 13 (credentials_body p username password rest))
        ≡ some (p.to_utf8 username, tail))
      × (read plain (drop 13 tail) ≡ some (p.to_utf8 password, codes "," ++ rest))
unfolding credentials_body
read-credentials_body p username password rest =
    (tail, reads username tail, reads password (codes "," ++ rest))
  where
    tail : Text
    tail =
        codes ","
        ++ (field (codes "password") (escape_json (p.to_utf8 password)) ++ (codes "," ++ rest))

    reads :
        (value rest' : Text)
        → read plain ((escape_json (p.to_utf8 value) ++ codes "\"") ++ rest')
          ≡ some (p.to_utf8 value, rest')
    reads value rest' =
        ap (read plain) (append_assoc (escape_json (p.to_utf8 value)) (codes "\"") rest')
        ∙ read-escape_json (p.to_utf8 value) rest'
