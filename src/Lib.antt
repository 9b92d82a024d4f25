-- ===== src/Lib.antt =====
-- The Windows parts of Ligament that decide a logon: the credential provider that shows a tile with
-- a second factor, with the client of its server; beside it the desktop runner with its start, its
-- remote input, its debug log and its channels to the Link service, and the service that keeps the
-- client running.
--
-- Parts, with the files that model them.
--   Config (Config, Config/Bypass, Config/Load): `Config` of windows/credential_provider/common.h.
--     `load_from_registry` is `LoadFromRegistry`, with `RegQueryValueExW` on the two keys (type `Key`)
--     and `WinHttpCrackUrl` (type `CrackUrl`) as parameters; `is_bypass_account` is
--     `IsBypassAccount`, with the C runtime's case folding as a parameter.
--   Credential (Credential and its children): class `LigamentCredential` of
--     windows/credential_provider/LigamentCredential.cpp and .h. The record `Credential` has the
--     members that its code reads. Worker is `RunAsyncJob`, the thread that asks the server; Thread
--     starts, stops and joins that thread (`StartWorkerJob`, `StopPollThread`, `JoinPollThread`,
--     `ResetAuthState`); Tile has the calls of LogonUI that edit the tile, View those that
--     show it, Serialize `GetSerialization`, and Pack `KerbInteractiveLogonPack`. The other children are proofs; Scenarios holds concrete sessions.
--   Provider (Provider): class `LigamentProvider` of windows/credential_provider/LigamentProvider.cpp,
--     which makes the tile, initialises it from the loaded configuration and hides stock tiles.
--   InputBlock (InputBlock and its children): windows/runner/input_block.cpp. InputBlock has the queue,
--     `EnqueueNativeInput`; InputBlock/Worker is the thread that takes tasks from it,
--     `DesktopInputWorkerLoop`, by rounds; InputBlock/Sas is `ExecuteSendSas`, InputBlock/Block the
--     hooks that swallow the local input, InputBlock/Monitors the rectangles of the monitors, and
--     InputBlock/Capture `ligament_capture_desktop_rect_bmp`.
--   AgentBinding (AgentBinding and its children): windows/runner/link_agent_binding_bridge.cpp and
--     link_pipe_session.h. AgentBinding has the checks of the service behind the pipe,
--     AgentBinding/Exchange the request and the reply with `BindOverNamedPipe`, and
--     AgentBinding/Handler the method channel with its flag and its threads.
--   LinkHost (LinkHost and its children): windows/runner/link_host_bridge.cpp, the channel of the worker
--     that the Link service starts.
--   Startup (Startup and its children): windows/runner/main.cpp, from the arguments to the message loop.
--   Json (Json and its children): the JSON helpers of common.h, with readers of JSON beside them.
--   Base64Url (Base64Url and its children): `Base64UrlEncode` and `Base64UrlDecode` of common.h.
--   Http (Http and its children): class `HttpApiClient` of
--     windows/credential_provider/HttpApiClient.cpp. `parse_url` and `parse_relay_url` read the two
--     URLs; Http/Calls has the five calls with the bodies of their requests; Http/FailOpen hands
--     their results to the worker.
--   RdpGate (RdpGate and its children): windows/credential_provider/rdp_gate.cpp, which asks the
--     endpoint service's pipe for a nonce and the server whether the factor is already given.
--     `check_rdp_mfa_satisfied` is `CheckRdpMfaSatisfied`; `prepare` is its part before WinHTTP.
--     RdpGate/Grant hands its answer to the worker.
--   DebugLog (DebugLog and its children): windows/runner/debug_log.h and debug_log.cpp, the debug log
--     of the desktop runner. DebugLog has the checks of the fields, DebugLog/Access `CheckHandle`,
--     DebugLog/File `WriteAll`, `Rotate` and `Append`, DebugLog/Line `Line`, and DebugLog/State the
--     calls on the log.
--   Watchdog (Watchdog and its children): `WorkerLoop` of windows/service/service.cpp, the service
--     that starts the client again; Watchdog/Service has what the loop asks of Windows,
--     and Watchdog/Control the thread of the service beside its handler, `SvcMain` and `SvcHandler`.
--   ServiceLog (ServiceLog and its children): windows/service/log_utils.h, the log of that service.
--   Common: tests on native numbers, lists, texts and integers. A text is the list of its code units.
--
-- How the parts interact. The provider loads a configuration and initialises the tile with it. The
-- tile starts a worker with copies of its name and password. The worker publishes results under a
-- lock, and LogonUI's calls read them.
--
-- The worker as steps. `worker_step` runs the worker from one place to the next, where a place (`Pc`)
-- stands before a call of the server or a test of the stop flag; one step holds one section under
-- the lock. `Reply` is what the server answers to the call of the step, and is arbitrary. A session
-- (`Event`, `run`) interleaves steps of the worker with calls of LogonUI. A call is one event, but
-- for two: while a call waits for the thread (`drain`) the worker goes on with arbitrary answers, and
-- between the clearing and the stop of `ResetAuthState` it makes the steps that `Host.race` names.
--
-- Fuel and bounds. `drain` runs on fuel. `join_poll_thread` gives it `steps_left`, a count
-- of what the worker can still do. The rounds of polling are `max_polls`, the configured seconds as a
-- 32-bit int. The loop on the pipe makes at most 100 polls, as in the source. `write_from` and
-- `copy_from` run on the number of bytes to move, since a round moves one at least. Other loops are
-- structural.
--
-- Not modelled: COM references and notifications, which change nothing that the code reads again;
-- bitmaps of the tile, but for whether the QR code is there; `CredUiPackAuthentication`, and within
-- `GetSerialization` whether the packing succeeds (a parameter); conversions between UTF-8 and UTF-16,
-- which are parameters; the log lines of the credential provider and of the service; how WinHTTP
-- performs a request (`Platform.network`, `System.post`); the lock of the debug log; the scaling of a
-- captured picture by floating-point numbers (`Screen.scaled`) and its pixels; Flutter's windows and the
-- calls of the WebAuthn library; the generator of QR codes, another project's library, whose call is a
-- parameter. An overflow of a signed int in the size of a captured bitmap is undefined: there the model
-- has no result. A literal stands for its code points.
mod Common
pub mod AgentBinding
pub mod Base64Url
pub mod Config
pub mod Credential
pub mod DebugLog
pub mod Http
pub mod InputBlock
pub mod Json
pub mod LinkHost
pub mod Provider
pub mod RdpGate
pub mod ServiceLog
pub mod Startup
pub mod Watchdog
