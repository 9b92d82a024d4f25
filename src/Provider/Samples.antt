-- ===== src/Provider/Samples.antt =====
-- A configured machine, and a registry that sets its server.
use ligament_apps.Common.{
  ℕ, ◌≡◌, refl, ◌⊎◌, Bool, true, false, none, some, List, [], ◌∷◌, ◌==◌, if◌then◌else◌, not,
}
use ligament_apps.Common.Text.{codes, eq_text}
use ligament_apps.Config.{
  Config, default_config, CrackUrl, trimmed, UrlSchemeKind, InternetScheme, classify_url_scheme,
}
use ligament_apps.Config.Load.{
  Key, Answer, RegType, load_from_registry, read_dword, read_values, check_url, read_accounts,
  read_string, read_int, split_items, trim_items,
}
use ligament_apps.Config.Scheme.{read_dword_policy}
use ligament_apps.Credential.{Scenario, Credential}
use ligament_apps.Provider.{
  Env, new_provider, set_usage_scenario, get_credential_count, password_provider, set_up_tile,
}
use ligament_apps.Provider.Agreement.{tile_needs_scheme}

-- Every URL is cracked as https.
abbrev https_only : CrackUrl
https_only url = some (record { scheme = InternetScheme.https; host = url; port = 443 })

abbrev absent_value : Answer
absent_value = record { ok = false; kind = RegType.other; size = 4; text = []; number = 0 }

-- A key with a server, console logons enforced and two accounts.
abbrev machine : Key
machine name size =
    if eq_text name (codes "ServerURL")
    then record { ok = true; kind = RegType.sz; size = 20; text = codes " https://a "; number = 0 }
    else if eq_text name (codes "Console2FAEnabled")
    then record { ok = true; kind = RegType.dword; size = 4; text = []; number = 1 }
    else if eq_text name (codes "BypassAccounts")
    then record {
      ok = true;
      kind = RegType.sz;
      size = 20;
      text = codes "svc; ;CORP\\adm";
      number = 0;
    }
    else absent_value

abbrev loaded : Config
loaded = load_from_registry https_only none (some machine)

loaded_configured :
    (loaded.server_url_configured ≡ true)
    × (loaded.server_url ≡ codes "https://a")
    × (loaded.bypass_accounts ≡ codes "svc" ∷ codes "CORP\\adm" ∷ [])
unfolding trimmed classify_url_scheme set_up_tile load_from_registry read_values check_url
    read_accounts read_string read_int read_dword default_config eq_text split_items trim_items
loaded_configured = (refl, refl, refl)

abbrev providers : List (ℕ × Bool)
providers = (password_provider, true) ∷ (7, true) ∷ []

abbrev console : Env
console = record {
  is_remote = false;
  config = loaded;
  host_process = codes "LogonUI.exe";
  fold = λ c. c;
}

one_tile :
    (get_credential_count (set_usage_scenario console Scenario.logon 0 (new_provider console)).0).0
    ≡ 1
unfolding trimmed classify_url_scheme set_up_tile load_from_registry read_values check_url
    read_accounts read_string read_int read_dword default_config eq_text set_usage_scenario
    get_credential_count new_provider
one_tile = refl

read_dword_policy_example :
    read_dword (some machine) none (codes "Console2FAEnabled") false ≡ not (1 == 0)
unfolding eq_text
read_dword_policy_example =
    read_dword_policy machine none (codes "Console2FAEnabled") false refl refl

abbrev shown : Credential
shown = set_up_tile console Scenario.logon true none

shown_there :
    (set_usage_scenario console Scenario.logon 0 (new_provider console)).0.credential ≡ some shown
unfolding trimmed classify_url_scheme set_up_tile load_from_registry read_values check_url
    read_accounts read_string read_int read_dword default_config eq_text set_usage_scenario
    new_provider
shown_there = refl

tile_needs_scheme_example :
    (classify_url_scheme https_only loaded.server_url ≡ UrlSchemeKind.https)
    ⊎ ((classify_url_scheme https_only loaded.server_url ≡ UrlSchemeKind.http)
        × (loaded.allow_http ≡ true))
tile_needs_scheme_example =
    tile_needs_scheme console https_only none (some machine) Scenario.logon 0 (new_provider console)
      refl one_tile
