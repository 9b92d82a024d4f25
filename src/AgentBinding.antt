-- ===== src/AgentBinding.antt =====
-- The binding of a host to the Link agent's service, windows/runner/link_agent_binding_bridge.cpp
-- and link_pipe_session.h: the checks of the service behind the pipe. Windows
-- and the service are the record `LinkService`.
pub mod Exchange
pub mod Calls
pub mod Trust
pub mod Handles
pub mod Reply
pub mod Body
pub mod Handler
pub mod Single
pub mod Samples
use ligament_apps.Common.{
  ℕ, zero, suc, ◌+◌, ◌-◌, ◌*◌, ◌/◌, ◌%◌, ◌^◌, ◌≤◌, ◌<◌, String, ◌≡◌, refl, sym, ap, ◌∙◌, ◌≢◌, ◌↔◌,
  ◌⊎◌, inl, inr, Bool, true, false, ◌&&◌, ◌||◌, Option, none, some, List, [], ◌∷◌, ◌++◌, map, arith,
  ltb, leb, ◌==◌, if◌then◌else◌, not, is_some, Bool-cases, Option-cases, length, take, drop,
  get_elem?, empty, any, all,
}
use ligament_apps.Common.Text.{Text, codes, decimal, eq_text, eq_icase}
use ligament_apps.Json.{quote, backslash, hex_char}

-- A call of Windows that fails with an error code, or gives a value.
pub data Asked (A : Type 0) : Type 0 where
  denied : (error : ℕ) → Asked A
  given : A → Asked A

-- What the calls of Windows give, in their order: `WaitNamedPipeW`, `CreateFileW`,
-- `GetNamedPipeServerProcessId`, `OpenSCManagerW`, `OpenServiceW`, the state and the process of
-- `QueryServiceStatusEx`, the last error and the size that the first `QueryServiceConfigW` leaves,
-- the account of the second, `GetNamedPipeServerSessionId`, the bytes that `WriteFile` takes, and
-- what `ReadFile` gives of a reply. `fold` is the case folding of `lstrcmpiW`.
pub record LinkService : Type 0 where
  pub waited : Bool
  pub opened : Bool
  pub server_pid : Asked ℕ
  pub manager : Asked (Unit {0})
  pub service : Asked (Unit {0})
  pub status : Asked (ℕ × ℕ)
  pub sizing : ℕ × ℕ
  pub account : Asked (Option Text)
  pub session : Asked ℕ
  pub write : Text → Option ℕ
  pub read : ℕ → Option Text
  pub fold : ℕ → ℕ

pub data Handle : Type 0 where
  pipe manager service : Handle

pub data Secret : Type 0 where
  token_text url_text request_text response_text : Secret

-- What the code does with its handles and secrets. `asks` is a query of the pipe's server,
-- `GetNamedPipeServerProcessId` or `GetNamedPipeServerSessionId`; `wipes` is `SecureZeroMemory`.
pub data Call : Type 0 where
  opens : Handle → Call
  closes : Handle → Call
  writes : Text → Call
  reads : Call
  asks : Call
  wipes : Secret → Call

-- A fingerprint, or a `BindingException`.
pub data Outcome : Type 0 where
  bound : (fingerprint : Text) → Outcome
  thrown : (code message : Text) → Outcome

pub record Binding : Type 0 where
  pub calls : List Call
  pub outcome : Outcome

pub data LinkPipeSessionStatus : Type 0 where
  trusted query_failed not_session_zero : LinkPipeSessionStatus

pub record LinkPipeSessionResult : Type 0 where
  pub status : LinkPipeSessionStatus
  pub session : ℕ
  pub error : ℕ

unfoldable pub check_link_pipe_session : Asked ℕ → LinkPipeSessionResult
check_link_pipe_session (denied e) = record {
  status = query_failed;
  session = 2 ^ 32 - 1;
  error = e;
}
check_link_pipe_session (given n) = record {
  status = if n == 0 then trusted else not_session_zero;
  session = n;
  error = 0;
}

unfoldable pub win32_diagnostic : Text → ℕ → Text
win32_diagnostic operation error =
    operation ++ (codes " (Win32 error " ++ (decimal error ++ codes ")"))

-- Why the service is not trusted: `trust_error_code` and `trust_error`, or nothing where it is.
pub record Identity : Type 0 where
  pub calls : List Call
  pub refusal : Option (Text × Text)

abbrev pub refuses : Text → Text → Identity
refuses code message = record { calls = []; refusal = some (code, message) }

-- What is decided with the answer to a query of the pipe.
abbrev pub asking : Identity → Identity
asking i = record i { calls = asks ∷ i.calls }

abbrev pub untrusted : Text
untrusted = codes "link_agent_service_untrusted"

abbrev pub check_session : LinkPipeSessionResult → Identity
check_session r = elim r.status [
  | query_failed ↦
      refuses (codes "link_agent_service_session_check_failed")
        (win32_diagnostic (codes "Cannot verify Link service pipe session") r.error)
  | not_session_zero ↦
      refuses (codes "link_agent_service_not_session0")
        (codes "Link service pipe is not running in Session 0")
  | trusted ↦ record { calls = []; refusal = none }
]

-- `!lpServiceStartName || lstrcmpiW(…) != 0`, negated.
abbrev pub is_local_system : (ℕ → ℕ) → Option Text → Bool
is_local_system fold none = false
is_local_system fold (some name) = eq_icase fold name (codes "LocalSystem")

unfoldable pub check_account : LinkService → Identity
unfolding check_link_pipe_session
check_account s = elim s.account [
  | denied e ↦ refuses untrusted (win32_diagnostic (codes "Cannot inspect Link service account") e)
  | given name ↦
      if not (is_local_system s.fold name)
      then refuses (codes "link_agent_service_sid_mismatch")
          (codes "Link service is not configured as LocalSystem")
      else asking (check_session (check_link_pipe_session s.session))
]

-- With the service open; 122 is ERROR_INSUFFICIENT_BUFFER, 4 is SERVICE_RUNNING.
unfoldable pub check_status : LinkService → ℕ → Identity
check_status s pid = elim s.status [
  | denied e ↦ refuses untrusted (win32_diagnostic (codes "Cannot inspect Link service status") e)
  | given (state, process) ↦
      if not (state == 4) || not (process == pid)
      then refuses untrusted (codes "Named-pipe server is not the running Link service")
      else if not (s.sizing.0 == 122) || (s.sizing.1 == 0 || ltb 65536 s.sizing.1)
      then refuses untrusted (codes "Cannot size Link service configuration")
      else check_account s
]

-- What is done between opening a handle and closing it.
abbrev pub while_open : Handle → Identity → Identity
while_open h i = record i { calls = opens h ∷ i.calls ++ closes h ∷ [] }

-- With the service manager open.
unfoldable pub inspect : LinkService → ℕ → Identity
unfolding check_status
inspect s pid = elim s.service [
  | denied e ↦ refuses untrusted (win32_diagnostic (codes "Cannot inspect Link service") e)
  | given _ ↦ while_open Handle.service (check_status s pid)
]

unfoldable pub identify : LinkService → Identity
unfolding inspect
identify s = asking (elim s.server_pid [
  | denied e ↦
      refuses (codes "link_agent_pipe_server_pid_failed")
        (win32_diagnostic (codes "Cannot identify named-pipe server") e)
  | given pid ↦ elim s.manager [
    | denied e ↦
        refuses untrusted (win32_diagnostic (codes "Cannot inspect Link service manager") e)
    | given _ ↦ while_open Handle.manager (inspect s pid)
  ]
])
