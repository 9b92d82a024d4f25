-- ===== src/Http.antt =====
-- The client of the server, windows/credential_provider/HttpApiClient.cpp: class `HttpApiClient`.
-- Windows and WinHTTP are the record `Platform`.
pub mod Calls
pub mod Transport
pub mod Answers
pub mod FailOpen
pub mod Samples
use ligament_apps.Common.{
  ℕ, zero, suc, ◌+◌, ◌-◌, ◌*◌, ◌/◌, ◌%◌, ◌^◌, ◌≤◌, ◌<◌, String, ◌≡◌, refl, sym, ap, ◌∙◌, ◌≢◌, ◌↔◌,
  ◌⊎◌, inl, inr, Bool, true, false, ◌&&◌, ◌||◌, Option, none, some, List, [], ◌∷◌, ◌++◌, map, arith,
  ltb, leb, ◌==◌, if◌then◌else◌, not, is_some, Bool-cases, Option-cases, length, take, drop,
  get_elem?, empty, any, all,
}
use ligament_apps.Common.Text.{Text, codes}
use ligament_apps.Config.{CrackUrl, InternetScheme, CrackedUrl}
use ligament_apps.Json.{escape_json}

pub record Request : Type 0 where
  pub host : Text
  pub port : ℕ
  pub secure : Bool  -- `WINHTTP_FLAG_SECURE`
  pub ignores_ca : Bool  -- `SECURITY_FLAG_IGNORE_UNKNOWN_CA`
  pub path : Text
  pub body : Text

-- What `WTSQuerySessionInformationW`, `GetComputerNameW` and `GetAdaptersAddresses` tell.
pub record Machine : Type 0 where
  pub host_name : Text
  pub host_ip : Text
  pub rdp_ip : Option Text
  pub rdp_name : Option Text

-- `crack` is `WinHttpCrackUrl` with the buffers for the host and the path; `network` performs one
-- request, by its status and body, and is `none` where WinHTTP gets no answer; `to_utf8` and
-- `to_wide` convert; `has_session` says whether `WinHttpOpen` succeeded; `atoi` is the C runtime's.
pub record Platform : Type 0 where
  pub crack : CrackUrl
  pub network : Request → Option (ℕ × Text)
  pub to_utf8 : Text → Text
  pub to_wide : Text → Text
  pub has_session : Bool
  pub machine : Machine
  pub atoi : Text → ℕ

pub record Client : Type 0 where
  pub host : Text
  pub port : ℕ
  pub is_https : Bool
  pub relay_host : Text
  pub relay_port : ℕ
  pub relay_is_https : Bool
  pub allow_self_signed : Bool
  pub allow_http : Bool
  pub service_base : Text

abbrev pub is_https_scheme : InternetScheme → Bool
is_https_scheme InternetScheme.https = true
is_https_scheme _ = false

abbrev pub is_http_scheme : InternetScheme → Bool
is_http_scheme InternetScheme.http = true
is_http_scheme _ = false

unfoldable pub parse_url : CrackUrl → Text → Client → Client
parse_url crack url c = elim (crack url) [
  | none ↦ c
  | some u ↦
      if is_https_scheme u.scheme || is_http_scheme u.scheme && c.allow_http
      then record c { host = u.host; port = u.port; is_https = is_https_scheme u.scheme }
      else record c { host = []; port = 0; is_https = false }
]

unfoldable pub parse_relay_url : CrackUrl → Text → Client → Client
parse_relay_url crack url c = elim (crack url) [
  | none ↦ c
  | some u ↦
      if is_https_scheme u.scheme
      then record c {
        relay_host = u.host;
        relay_port = if not (u.port == 0) then u.port else 8082;
        relay_is_https = true;
      }
      else record c { relay_host = []; relay_port = 0; relay_is_https = false }
]

-- `HttpApiClient(serverUrl, allowSelfSigned, _, fallbackRelayUrl, allowHttp, serviceBaseUtf8)`.
unfoldable pub new_client : CrackUrl → Text → Bool → Text → Bool → Text → Client
unfolding parse_url parse_relay_url
new_client crack server_url allow_self_signed fallback_relay_url allow_http service_base =
    let fresh : Client = record {
      host = [];
      port = 443;
      is_https = true;
      relay_host = [];
      relay_port = 8082;
      relay_is_https = false;
      allow_self_signed = allow_self_signed;
      allow_http = allow_http;
      service_base = service_base;
    } in
    let c = parse_url crack server_url fresh in
    if not (empty fallback_relay_url) then parse_relay_url crack fallback_relay_url c else c

abbrev pub server_request : Client → Text → Text → Request
server_request c path body = record {
  host = c.host;
  port = c.port;
  secure = c.is_https;
  ignores_ca = c.is_https && c.allow_self_signed;
  path = path;
  body = body;
}

abbrev pub relay_request : Client → Text → Text → Request
relay_request c path body = record {
  host = c.relay_host;
  port = c.relay_port;
  secure = c.relay_is_https;
  ignores_ca = c.relay_is_https && c.allow_self_signed;
  path = path;
  body = body;
}

-- The requests of `SendRequest` and of `SendRelayRequest`: none without a session or a host.
unfoldable pub requests_of : Platform → Request → List Request
requests_of p r = if not p.has_session || empty r.host then [] else r ∷ []

unfoldable pub send : Platform → Request → Option (ℕ × Text)
send p r = if not p.has_session || empty r.host then none else p.network r

-- `GetSessionEndpointInfo`, its strings.
pub record SessionEndpointInfo : Type 0 where
  pub client_ip : Text
  pub client_name : Text
  pub host_name : Text
  pub host_ip : Text
  pub service : Text
  pub client_desc : Text

abbrev or_text : Text → Text → Text
or_text s t = if empty s then t else s

abbrev given : Option Text → Text
given none = []
given (some s) = s

-- `base (name)`.
abbrev with_name : Text → Text → Text
with_name base name = base ++ codes " (" ++ name ++ codes ")"

unfoldable pub endpoint_info : Platform → SessionEndpointInfo
endpoint_info p =
    let m = p.machine in
    if is_some m.rdp_ip || is_some m.rdp_name
    then record {
      client_ip = given m.rdp_ip;
      client_name = given m.rdp_name;
      host_name = m.host_name;
      host_ip = m.host_ip;
      service = with_name (codes "Windows RDP") (or_text m.host_name (p.to_utf8 (codes "Сервер")));
      client_desc =
          with_name (codes "Windows RDP") (or_text (given m.rdp_name) (p.to_utf8 (codes "Клиент")));
    }
    else record {
      client_ip = or_text m.host_ip (codes "127.0.0.1");
      client_name = m.host_name;
      host_name = m.host_name;
      host_ip = m.host_ip;
      service = with_name (codes "Windows") (or_text m.host_name (p.to_utf8 (codes "Консоль")));
      client_desc =
          with_name (p.to_utf8 (codes "Локальная консоль"))
            (or_text m.host_name (p.to_utf8 (codes "Консоль")));
    }

unfoldable pub apply_service_base : Platform → Text → SessionEndpointInfo → SessionEndpointInfo
apply_service_base p base ep = if empty base then ep else record ep {
  service = with_name base (or_text ep.host_name (p.to_utf8 (codes "Устройство")));
}
