-- ===== src/Provider/Agreement.antt =====
-- `SetUsageScenario` against `Filter`, of windows/credential_provider/LigamentProvider.cpp.
use ligament_apps.Common.{
  ℕ, ◌≡◌, refl, ◌⊎◌, inl, inr, true, false, Option, some, arith, if◌then◌else◌, Bool-cases,
}
use ligament_apps.Config.{CrackUrl, UrlSchemeKind, classify_url_scheme}
use ligament_apps.Config.Load.{Key, load_from_registry}
use ligament_apps.Config.Scheme.{load_from_registry-scheme}
use ligament_apps.Credential.{Scenario, Credential}
use ligament_apps.Provider.{
  Env, is_same, Provider, should_enforce, set_usage_scenario, get_credential_count, set_up_tile,
}

set_usage_scenario-count :
    (env : Env) (cpus : Scenario) (flags : ℕ) (p : Provider)
    → (get_credential_count (set_usage_scenario env cpus flags p).0).0
      ≡ (if should_enforce env cpus flags then 1 else 0)
unfolding set_usage_scenario get_credential_count
set_usage_scenario-count env cpus flags p = ground arith

is_same_refl : (cpus : Scenario) → is_same cpus cpus ≡ true
is_same_refl Scenario.invalid = refl
is_same_refl Scenario.logon = refl
is_same_refl Scenario.unlock_workstation = refl
is_same_refl Scenario.change_password = refl
is_same_refl Scenario.credui = refl
is_same_refl Scenario.plap = refl

-- A tile that SetUsageScenario left is kept as it is, with its confirmed factor, when
-- SetUsageScenario is called again for the same scenario and flags, whatever the environment is by
-- then.
pub same_scenario_keeps :
    (env env' : Env) (cpus : Scenario) (flags : ℕ) (p : Provider) (c : Credential)
    → (set_usage_scenario env cpus flags p).0.credential ≡ some c
    → (set_usage_scenario env' cpus flags (set_usage_scenario env cpus flags p).0).0.credential
      ≡ some c
unfolding set_usage_scenario set_up_tile
same_scenario_keeps env env' cpus flags p c e = ground (arith, is_same_refl cpus)

not_configured-should_enforce :
    (env : Env) (cpus : Scenario) (flags : ℕ)
    → env.config.server_url_configured ≡ false
    → should_enforce env cpus flags ≡ false
unfolding should_enforce
not_configured-should_enforce env Scenario.credui flags h = ground arith
not_configured-should_enforce env Scenario.logon flags h = ground arith
not_configured-should_enforce env Scenario.unlock_workstation flags h = ground arith
not_configured-should_enforce env _ flags h = refl

-- Where the provider's configuration is loaded from the registry and it shows a tile, WinHTTP
-- reads the server's URL as https, or as http and AllowHttp is set.
pub tile_needs_scheme :
    (env : Env) (crack : CrackUrl) (policy local_key : Option Key) (cpus : Scenario) (flags : ℕ)
    (p : Provider)
    → load_from_registry crack policy local_key ≡ env.config
    → (get_credential_count (set_usage_scenario env cpus flags p).0).0 ≡ 1
    → (classify_url_scheme crack env.config.server_url ≡ UrlSchemeKind.https)
      ⊎ ((classify_url_scheme crack env.config.server_url ≡ UrlSchemeKind.http)
          × (env.config.allow_http ≡ true))
tile_needs_scheme env crack policy local_key cpus flags p e h =
    elim (Bool-cases env.config.server_url_configured) [
      | inl configured ↦ load_from_registry-scheme crack policy local_key env.config e configured
      | inr unset ↦ ground (
        arith,
        set_usage_scenario-count env cpus flags p,
        not_configured-should_enforce env cpus flags unset,
      )
    ]
