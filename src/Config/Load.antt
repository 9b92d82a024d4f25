-- ===== src/Config/Load.antt =====
-- `Config::LoadFromRegistry` of windows/credential_provider/common.h: the policy key before the
-- local one, the scheme that the server's URL must have, and the list of accounts.
use ligament_apps.Common.{
  ℕ, Bool, true, false, ◌&&◌, ◌||◌, Option, none, some, List, [], ◌∷◌, ◌==◌, if◌then◌else◌, not,
  is_some,
}
use ligament_apps.Common.Text.{Text, codes}
use ligament_apps.Config.{
  Config, default_config, CrackUrl, UrlSchemeKind, classify_url_scheme, trimmed,
}

pub data RegType : Type 0 where
  sz expand_sz dword other : RegType

-- What one `RegQueryValueExW` leaves: whether it is `ERROR_SUCCESS`, `dwType`, `dwSize`, and the
-- buffer, read as a string and as a DWORD.
pub record Answer : Type 0 where
  pub ok : Bool
  pub kind : RegType
  pub size : ℕ
  pub text : Text
  pub number : ℕ

-- `RegQueryValueExW` on an opened key, by the value's name and the `dwSize` that is passed in. It is
-- a parameter of the model.
abbrev pub Key : Type 0
Key = Text → ℕ → Answer

abbrev is_string : RegType → Bool
is_string sz = true
is_string expand_sz = true
is_string _ = false

abbrev is_dword : RegType → Bool
is_dword dword = true
is_dword _ = false

query_string : Option Key → Text → Option Text
query_string none name = none
query_string (some key) name =
    let a = key name 4096 in if a.ok && is_string a.kind then trimmed a.text else none

-- `readString`: the policy, unless it is missing or blank, then the local settings.
unfoldable pub read_string : Option Key → Option Key → Text → Option Text
unfolding query_string
read_string policy local_key name = elim (query_string policy name) [
  | some s ↦ some s
  | none ↦ query_string local_key name
]

-- The value, if it is a DWORD, and the size as the query leaves it.
query_dword : Option Key → Text → ℕ → Option ℕ × ℕ
query_dword none name size = (none, size)
query_dword (some key) name size =
    let a = key name size in (if a.ok && is_dword a.kind then some a.number else none, a.size)

-- `readInt` and the query of `readDword`: the second query is passed the size that the first left.
unfoldable pub read_int : Option Key → Option Key → Text → Option ℕ
unfolding query_dword
read_int policy local_key name =
    let (value, size) = query_dword policy name 4 in
    elim value [ some n ↦ some n | none ↦ (query_dword local_key name size).0 ]

abbrev pub or_else {ℓ} : {A : Type ℓ} → Option A → A → A
or_else none x = x
or_else (some y) x = y

-- `readDword` into a bool that holds `old`.
unfoldable pub read_dword : Option Key → Option Key → Text → Bool → Bool
unfolding read_int
read_dword policy local_key name old = elim (read_int policy local_key name) [
  | none ↦ old
  | some n ↦ not (n == 0)
]

-- The values as they are read, before the URL is checked.
unfoldable pub read_values : Option Key → Option Key → Config
unfolding read_string read_int read_dword default_config
read_values policy local_key = record default_config {
  server_url = or_else (read_string policy local_key (codes "ServerURL")) [];
  server_url_configured = is_some (read_string policy local_key (codes "ServerURL"));
  fallback_relay_url = or_else (read_string policy local_key (codes "FallbackRelayURL")) [];
  rdp2fa_enabled = read_dword policy local_key (codes "RDP2FAEnabled") false;
  console2fa_enabled = read_dword policy local_key (codes "Console2FAEnabled") false;
  elevation2fa_enabled = read_dword policy local_key (codes "Elevation2FAEnabled") false;
  fido2_enabled = read_dword policy local_key (codes "FIDO2Enabled") true;
  default_factor = or_else (read_int policy local_key (codes "DefaultFactor")) 0;
  push_timeout_sec = or_else (read_int policy local_key (codes "PushTimeoutSeconds")) 45;
  fail_close = read_dword policy local_key (codes "FailClose") true;
  allow_self_signed = read_dword policy local_key (codes "AllowSelfSigned") false;
  allow_http = read_dword policy local_key (codes "AllowHttp") false;
  sam_probe_enabled = read_dword policy local_key (codes "SamProbeEnabled") false;
}

abbrev accepts : UrlSchemeKind → Bool → Bool
accepts UrlSchemeKind.https allowed = true
accepts UrlSchemeKind.http allowed = allowed
accepts UrlSchemeKind.no_scheme allowed = false

-- A URL that is not https, and not http where the policy allows it, counts as not set.
unfoldable pub check_url : CrackUrl → Config → Config
check_url crack cfg =
    if cfg.server_url_configured
      && not (accepts (classify_url_scheme crack cfg.server_url) cfg.allow_http)
    then record cfg { server_url = []; server_url_configured = false }
    else cfg

abbrev pub is_separator : ℕ → Bool
is_separator c = c == b';' || c == b'|' || c == b','

-- The items between separators.
unfoldable pub split_items : Text → List Text
split_items [] = [] ∷ []
split_items (c ∷ s) =
    let rest = split_items s in
    if is_separator c
    then [] ∷ rest
    else elim rest [ [] ↦ (c ∷ []) ∷ [] | item ∷ items ↦ (c ∷ item) ∷ items ]

-- The items trimmed, without the blank ones.
unfoldable pub trim_items : List Text → List Text
trim_items [] = []
trim_items (item ∷ items) = elim (trimmed item) [
  | none ↦ trim_items items
  | some s ↦ s ∷ trim_items items
]

unfoldable pub read_accounts : Option Key → Option Key → Config → Config
unfolding read_string split_items trim_items
read_accounts policy local_key cfg = elim (read_string policy local_key (codes "BypassAccounts")) [
  | none ↦ cfg
  | some raw ↦ record cfg { bypass_accounts = trim_items (split_items raw) }
]

unfoldable pub load_from_registry : CrackUrl → Option Key → Option Key → Config
unfolding read_values check_url read_accounts
load_from_registry crack policy local_key =
    read_accounts policy local_key (check_url crack (read_values policy local_key))
