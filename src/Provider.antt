-- ===== src/Provider.antt =====
-- The credential provider, windows/credential_provider/LigamentProvider.cpp: class
-- `LigamentProvider`, which decides where the tile is shown and which stock tiles are hidden.
pub mod Agreement
pub mod Samples
use ligament_apps.Common.{
  ℕ, zero, suc, ◌+◌, ◌-◌, ◌*◌, ◌/◌, ◌%◌, ◌^◌, ◌≤◌, ◌<◌, String, ◌≡◌, refl, sym, ap, ◌∙◌, ◌≢◌, ◌↔◌,
  ◌⊎◌, inl, inr, Bool, true, false, ◌&&◌, ◌||◌, Option, none, some, List, [], ◌∷◌, ◌++◌, map, arith,
  ltb, leb, ◌==◌, if◌then◌else◌, not, is_some, Bool-cases, Option-cases, length, take, drop,
  get_elem?, empty, any, all,
}
use Prim.Native.Nat.{bit_and}
use ligament_apps.Common.Text.{Text, codes, eq_icase}
use ligament_apps.Config.{Config, default_config}
use ligament_apps.Credential.{Scenario, Credential}
use ligament_apps.Credential.Tile.{initialize}
use ligament_apps.Credential.History.{created}

-- What the provider asks of Windows in one call: the remote session, the registry as
-- `LoadFromRegistry` reads it, the name of the host process and the C runtime's case folding.
pub record Env : Type 0 where
  pub is_remote : Bool
  pub config : Config
  pub host_process : Text
  pub fold : ℕ → ℕ

pub record Provider : Type 0 where
  pub scenario : Scenario
  pub flags : ℕ
  pub config : Config
  pub is_remote_session : Bool
  pub should_enforce2fa : Bool
  pub credential : Option Credential

pub data HResult : Type 0 where
  s_ok e_notimpl e_invalidarg : HResult

-- `LigamentProvider()`.
unfoldable pub new_provider : Env → Provider
new_provider env = record {
  scenario = Scenario.invalid;
  flags = 0;
  config = env.config;
  is_remote_session = false;
  should_enforce2fa = false;
  credential = none;
}

-- `CREDUIWIN_GENERIC` and `CREDUIWIN_ENUMERATE_ADMINS`.
abbrev pub credui_generic : ℕ
credui_generic = 0x1

abbrev pub credui_enumerate_admins : ℕ
credui_enumerate_admins = 0x100

abbrev pub has_flag : ℕ → ℕ → Bool
has_flag flags bit = not (bit_and flags bit == 0)

unfoldable pub is_uac_elevation_credui : Env → ℕ → Bool
is_uac_elevation_credui env flags =
    if has_flag flags credui_generic
    then false
    else if has_flag flags credui_enumerate_admins
    then true
    else eq_icase env.fold env.host_process (codes "consent.exe")
      || (eq_icase env.fold env.host_process (codes "credentialuibroker.exe")
          || eq_icase env.fold env.host_process (codes "logonui.exe"))

-- Which of the three switches applies to a scenario.
unfoldable pub should_enforce : Env → Scenario → ℕ → Bool
should_enforce env Scenario.credui flags =
    env.config.server_url_configured
    && (env.config.elevation2fa_enabled && is_uac_elevation_credui env flags)
should_enforce env Scenario.logon flags =
    env.config.server_url_configured
    && (if env.is_remote && env.config.rdp2fa_enabled
        then true
        else not env.is_remote && env.config.console2fa_enabled)
should_enforce env Scenario.unlock_workstation flags =
    env.config.server_url_configured
    && (if env.is_remote && env.config.rdp2fa_enabled
        then true
        else not env.is_remote && env.config.console2fa_enabled)
should_enforce env _ flags = false

abbrev pub is_same : Scenario → Scenario → Bool
is_same Scenario.invalid Scenario.invalid = true
is_same Scenario.logon Scenario.logon = true
is_same Scenario.unlock_workstation Scenario.unlock_workstation = true
is_same Scenario.change_password Scenario.change_password = true
is_same Scenario.credui Scenario.credui = true
is_same Scenario.plap Scenario.plap = true
is_same _ _ = false

-- The tile is made once, and initialised again where the scenario has changed.
unfoldable pub set_up_tile : Env → Scenario → Bool → Option Credential → Credential
set_up_tile env cpus changed none = initialize env.config env.is_remote cpus created
set_up_tile env cpus changed (some c) =
    if changed then initialize env.config env.is_remote cpus c else c

unfoldable pub set_usage_scenario : Env → Scenario → ℕ → Provider → Provider × HResult
unfolding should_enforce set_up_tile
set_usage_scenario env cpus flags p =
    let enforce = should_enforce env cpus flags in
    let q = record p {
      scenario = cpus;
      flags = flags;
      config = env.config;
      is_remote_session = env.is_remote;
      should_enforce2fa = enforce;
    } in
    if enforce
    then (
      record q {
        credential = some (set_up_tile env cpus (not (is_same p.scenario cpus)) p.credential);
      },
      s_ok,
    )
    else (q, elim cpus [ Scenario.credui ↦ e_notimpl | _ ↦ s_ok ])

-- `*pdwCount`, and `*pbAutoLogonWithDefault`.
unfoldable pub get_credential_count : Provider → ℕ × Bool
get_credential_count p = elim p.credential [
  | none ↦ (0, false)
  | some c ↦ if p.should_enforce2fa then (1, c.authenticated) else (0, false)
]

unfoldable pub get_credential_at : ℕ → Provider → Option Credential × HResult
get_credential_at index p = elim p.credential [
  | none ↦ (none, e_invalidarg)
  | some c ↦ if index == 0 then (some c, s_ok) else (none, e_invalidarg)
]

-- `CLSID_PasswordProvider`, as a 128-bit pattern; every class id is one.
abbrev pub password_provider : ℕ
password_provider = 0x60b78e88ead8445c9cfd0b87f74ea6cd

unfoldable pub filter_enforces : Env → Scenario → ℕ → Bool
filter_enforces env Scenario.logon flags =
    env.config.server_url_configured
    && (env.is_remote && env.config.rdp2fa_enabled
        || not env.is_remote && env.config.console2fa_enabled)
filter_enforces env Scenario.unlock_workstation flags =
    env.config.server_url_configured
    && (env.is_remote && env.config.rdp2fa_enabled
        || not env.is_remote && env.config.console2fa_enabled)
filter_enforces env Scenario.credui flags =
    not (has_flag flags credui_generic)
    && (env.config.server_url_configured
        && (env.config.elevation2fa_enabled && is_uac_elevation_credui env flags))
filter_enforces env _ flags = false

-- The loop over the providers, each with its entry of `rgbAllow`.
unfoldable pub suppress : List (ℕ × Bool) → List (ℕ × Bool)
suppress [] = []
suppress ((clsid, allow) ∷ providers) =
    (clsid, if clsid == password_provider then false else allow) ∷ suppress providers

unfoldable pub filter : Env → Scenario → ℕ → List (ℕ × Bool) → List (ℕ × Bool)
unfolding filter_enforces suppress
filter env cpus flags providers =
    if filter_enforces env cpus flags then suppress providers else providers
