-- ===== src/Config.antt =====
-- The configuration of the credential provider, windows/credential_provider/common.h: the record
-- `Config`, the classification of the server's URL and the trimming of registry strings. The
-- account whitelist is in Config/Bypass, reading the registry in Config/Load.
pub mod Bypass
pub mod Load
pub mod Scheme
pub mod Accounts
use ligament_apps.Common.{
  ℕ, suc, ◌+◌, ◌-◌, Bool, true, false, ◌||◌, Option, none, some, List, [], ◌==◌, if◌then◌else◌,
  take, drop, not,
}
use ligament_apps.Common.Text.{Text, find_if, find_last_if}

pub data UrlSchemeKind : Type 0 where
  no_scheme http https : UrlSchemeKind

-- `nScheme` of WinHTTP's `URL_COMPONENTS`.
pub data InternetScheme : Type 0 where
  http https other : InternetScheme

-- The components that the program reads of a URL that WinHTTP cracks.
pub record CrackedUrl : Type 0 where
  pub scheme : InternetScheme
  pub host : Text
  pub port : ℕ

-- `WinHttpCrackUrl`: `none` is its failure. It is a parameter of the model.
abbrev pub CrackUrl : Type 0
CrackUrl = Text → Option CrackedUrl

abbrev kind_of_scheme : InternetScheme → UrlSchemeKind
kind_of_scheme https = https
kind_of_scheme http = http
kind_of_scheme other = no_scheme

unfoldable pub classify_url_scheme : CrackUrl → Text → UrlSchemeKind
classify_url_scheme crack url = elim (crack url) [
  | none ↦ no_scheme
  | some u ↦ kind_of_scheme u.scheme
]

pub record Config : Type 0 where
  pub server_url : Text
  pub server_url_configured : Bool
  pub fallback_relay_url : Text
  pub rdp2fa_enabled : Bool
  pub console2fa_enabled : Bool
  pub elevation2fa_enabled : Bool
  pub fido2_enabled : Bool
  pub default_factor : ℕ  -- the 32-bit pattern of an int
  pub push_timeout_sec : ℕ  -- the 32-bit pattern of an int
  pub fail_close : Bool
  pub allow_self_signed : Bool
  pub allow_http : Bool
  pub sam_probe_enabled : Bool
  pub bypass_accounts : List Text

-- The member initialisers.
unfoldable pub default_config : Config
default_config = record {
  server_url = [];
  server_url_configured = false;
  fallback_relay_url = [];
  rdp2fa_enabled = false;
  console2fa_enabled = false;
  elevation2fa_enabled = false;
  fido2_enabled = true;
  default_factor = 0;
  push_timeout_sec = 45;
  fail_close = true;
  allow_self_signed = false;
  allow_http = false;
  sam_probe_enabled = false;
  bypass_accounts = [];
}

abbrev pub is_blank : ℕ → Bool
is_blank c = c == 32 || c == 9 || c == 13 || c == 10

-- `find_first_not_of`, `find_last_not_of` and `substr` of a registry string: `none` if it is blank.
unfoldable pub trimmed : Text → Option Text
trimmed s = elim (find_if (λ c. not (is_blank c)) s) [
  | none ↦ none
  | some first ↦ elim (find_last_if (λ c. not (is_blank c)) s) [
    | none ↦ none
    | some last ↦ some (take (last - first + 1) (drop first s))
  ]
]
