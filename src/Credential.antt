-- ===== src/Credential.antt =====
-- The tile of the credential provider: the state of class `LigamentCredential`
-- (windows/credential_provider/LigamentCredential.h), with the place where its worker thread
-- stands. The children model its methods.
pub mod Worker
pub mod Thread
pub mod Tile
pub mod Serialize
pub mod Pack
pub mod Packed
pub mod PackSamples
pub mod Invariant
pub mod Joining
pub mod Kept
pub mod Safety
pub mod Session
pub mod Grants
pub mod History
pub mod Hazards
pub mod Typing
pub mod View
pub mod Buttons
pub mod Scenarios
use ligament_apps.Common.{
  ℕ, zero, suc, ◌+◌, ◌-◌, ◌*◌, ◌/◌, ◌%◌, ◌^◌, ◌≤◌, ◌<◌, String, ◌≡◌, refl, sym, ap, ◌∙◌, ◌≢◌, ◌↔◌,
  ◌⊎◌, inl, inr, Bool, true, false, ◌&&◌, ◌||◌, Option, none, some, List, [], ◌∷◌, ◌++◌, map, arith,
  ltb, leb, ◌==◌, if◌then◌else◌, not, is_some, Bool-cases, Option-cases, length, take, drop,
  get_elem?, empty, any, all,
}
use ligament_apps.Common.Text.{Text, codes}
use ligament_apps.Config.{Config}

-- `CREDENTIAL_PROVIDER_USAGE_SCENARIO`.
pub data Scenario : Type 0 where
  invalid logon unlock_workstation change_password credui plap : Scenario

-- `AUTH_FACTOR_MODE`.
pub data Factor : Type 0 where
  fido2 push otp : Factor

pub data WorkerJob : Type 0 where
  no_job start_push webauthn_begin verify_otp : WorkerJob

abbrev pub is_credui : Scenario → Bool
is_credui credui = true
is_credui _ = false

-- What the tile shows: a literal, or a literal followed by `DescribeServerError(error, retry)`.
pub data Status : Type 0 where
  literal : String → Status
  described : String → Text → ℕ → Status

pub record WorkerState : Type 0 where
  pub stop : Bool
  pub begin_done : Bool
  pub begin_ok : Bool
  pub begin_error : Text
  pub retry_after_sec : ℕ
  pub number_match : Text
  pub qr_url : Text
  pub done : Bool
  pub status : Text

-- `WorkerState()`.
abbrev pub fresh_worker : WorkerState
fresh_worker = record {
  stop = false;
  begin_done = false;
  begin_ok = false;
  begin_error = [];
  retry_after_sec = 0;
  number_match = [];
  qr_url = [];
  done = false;
  status = [];
}

-- The local copies that `RunAsyncJob` takes of its job.
pub record Task : Type 0 where
  pub job : WorkerJob
  pub user : Text
  pub domain : Text
  pub pass : Text
  pub otp : Text

-- Where the worker thread stands. `absent`: `m_hPollThread` is null. `finished`: the thread has
-- returned and its handle is still held.
pub data Pc : Type 0 where
  absent : Pc
  starting : Pc
  gate : Task → Pc
  begin : Task → Pc
  waiting : (task : Task) (challenge : Text) (round errors : ℕ) → Pc
  polling : (task : Task) (challenge : Text) (round errors : ℕ) → Pc
  finished : Pc

-- `m_hPollThread` is not null.
abbrev pub has_thread : Pc → Bool
has_thread absent = false
has_thread _ = true

-- The thread has steps left.
abbrev pub is_running : Pc → Bool
is_running absent = false
is_running finished = false
is_running _ = true

-- One call of `WriteSsoTicketFile`.
pub record SsoTicket : Type 0 where
  pub domain : Text
  pub user : Text
  pub ticket : Text

pub record Credential : Type 0 where
  pub config : Config
  pub is_remote_session : Bool
  pub cpus : Scenario
  pub current_mode : Factor
  pub username : Text
  pub domain : Text
  pub username_raw : Text
  pub password : Text
  pub otp_code : Text
  pub status_text : Status
  pub number_match : Text
  pub authenticated : Bool
  pub qr_bmp : Bool  -- `m_hQrBmp` is not null
  pub worker : WorkerState
  pub job : WorkerJob
  pub job_user : Text
  pub job_domain : Text
  pub job_pass : Text
  pub job_otp : Text
  pub begin_applied : Bool
  pub pc : Pc
  pub tickets : List SsoTicket  -- the calls of `WriteSsoTicketFile`, newest first

-- What the server, the gate and the QR drawing answer to the call that the worker makes next.
pub record Reply : Type 0 where
  pub gate_satisfied : Bool
  pub ok : Bool
  pub error : Text
  pub retry_after : ℕ
  pub challenge_id : Text
  pub number_match : Text
  pub handle : Text
  pub qr_drawn : Bool
  pub status : Text
  pub sso_ticket : Text

-- `int maxPolls = cfg.pushTimeoutSec`, as rounds of `for (int i = 0; i < maxPolls; ++i)`: the int is
-- a 32-bit pattern, and a negative one gives no round.
abbrev pub max_polls : Config → ℕ
max_polls cfg = if ltb cfg.push_timeout_sec (2 ^ 31) then cfg.push_timeout_sec else 0

abbrev pub network_error : Text
network_error = codes "network_error"

abbrev pub approved : Text
approved = codes "approved"

abbrev pub denied : Text
denied = codes "denied"

abbrev pub expired : Text
expired = codes "expired"

abbrev pub timeout : Text
timeout = codes "timeout"
