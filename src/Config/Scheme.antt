-- ===== src/Config/Scheme.antt =====
-- The scheme of the server's URL after `LoadFromRegistry` of windows/credential_provider/common.h.
use ligament_apps.Common.{◌≡◌, ◌⊎◌, Bool, true, Option, some, arith, ◌==◌, not}
use ligament_apps.Common.Text.{Text}
use ligament_apps.Config.{Config, CrackUrl, UrlSchemeKind, classify_url_scheme}
use ligament_apps.Config.Load.{
  Key, load_from_registry, read_accounts, check_url, read_values, read_int, read_dword, dword,
}

check_url-scheme :
    (crack : CrackUrl) (cfg : Config)
    → let d = check_url crack cfg in
      d.server_url_configured ≡ true
      → (classify_url_scheme crack d.server_url ≡ UrlSchemeKind.https)
        ⊎ ((classify_url_scheme crack d.server_url ≡ UrlSchemeKind.http) × (d.allow_http ≡ true))
unfolding check_url
check_url-scheme crack cfg h = ground arith

read_accounts-url :
    (policy local_key : Option Key) (cfg : Config)
    → let d = read_accounts policy local_key cfg in
      (d.server_url ≡ cfg.server_url)
      × (d.server_url_configured ≡ cfg.server_url_configured)
      × (d.allow_http ≡ cfg.allow_http)
unfolding read_accounts
read_accounts-url policy local_key cfg = ground arith

-- Whatever the registry holds, a loaded configuration that counts as configured has a URL that
-- WinHTTP reads as https, or as http where AllowHttp is set.
pub load_from_registry-scheme :
    (crack : CrackUrl) (policy local_key : Option Key) (cfg : Config)
    → load_from_registry crack policy local_key ≡ cfg
    → cfg.server_url_configured ≡ true
    → (classify_url_scheme crack cfg.server_url ≡ UrlSchemeKind.https)
      ⊎ ((classify_url_scheme crack cfg.server_url ≡ UrlSchemeKind.http) × (cfg.allow_http ≡ true))
unfolding load_from_registry
load_from_registry-scheme crack policy local_key cfg e h = ground (
  arith,
  read_accounts-url policy local_key (check_url crack (read_values policy local_key)),
  check_url-scheme crack (read_values policy local_key),
)

-- A DWORD in the policy key decides, whatever the local key holds and the default is.
pub read_dword_policy :
    (key : Key) (local_key : Option Key) (name : Text) (old : Bool)
    → (key name 4).ok ≡ true
    → (key name 4).kind ≡ dword
    → read_dword (some key) local_key name old ≡ not ((key name 4).number == 0)
unfolding read_dword read_int
read_dword_policy key local_key name old k d = ground arith
