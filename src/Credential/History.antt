-- ===== src/Credential/History.antt =====
-- Sessions of the tile of windows/credential_provider/LigamentCredential.cpp: the calls of LogonUI and
-- the steps of its worker, in any order and with any answers, from a tile that was just set up.
use ligament_apps.Common.{
  ◌≡◌, refl, ap, ◌∙◌, ◌⊎◌, inl, inr, Bool, true, false, List, [], ◌∷◌, arith, Bool-cases,
}
use ligament_apps.Credential.{
  Scenario, push, no_job, literal, fresh_worker, absent, Credential, Reply, network_error,
}
use ligament_apps.Common.Text.{Text}
use ligament_apps.Config.{Config, default_config}
use ligament_apps.Config.Bypass.{is_bypass_account}
use ligament_apps.Credential.Worker.{worker_step}
use ligament_apps.Credential.Thread.{Host}
use ligament_apps.Credential.Tile.{
  FieldId, initialize, set_string_value, command_link_clicked, set_deselected, report_result,
}
use ligament_apps.Credential.Serialize.{get_serialization, return_credential_finished}
use ligament_apps.Credential.Invariant.{Inv, worker_step-Inv, nil-ne-approved}
use ligament_apps.Credential.Kept.{
  set_string_value-Inv, command_link_clicked-Inv, set_deselected-Inv, report_result-Inv,
}
use ligament_apps.Credential.Session.{get_serialization-Inv}
use ligament_apps.Credential.Safety.{get_serialization_confirmed}
use ligament_apps.Credential.Grants.{
  grants, worker_step-authenticated, get_serialization-authenticated,
  set_string_value-authenticated, command_link_clicked-authenticated, set_deselected-authenticated,
  report_result-authenticated,
}

-- The member initialisers of `LigamentCredential`.
unfoldable pub created : Credential
created = record {
  config = default_config;
  is_remote_session = false;
  cpus = Scenario.logon;
  current_mode = push;
  username = [];
  domain = [];
  username_raw = [];
  password = [];
  otp_code = [];
  status_text = literal "";
  number_match = [];
  authenticated = false;
  qr_bmp = false;
  worker = fresh_worker;
  job = no_job;
  job_user = [];
  job_domain = [];
  job_pass = [];
  job_otp = [];
  begin_applied = false;
  pc = absent;
  tickets = [];
}

pub data Event : Type 0 where
  worked : Reply → Event
  typed : Host → FieldId → Text → Event
  clicked : Host → FieldId → Event
  left : Host → Event
  reported : Host → Event
  submitted : Host → (drawn : Bool) → Event

unfoldable pub step : Credential → Event → Credential
step c (worked r) = worker_step r c
step c (typed host field text) = set_string_value host field text c
step c (clicked host field) = command_link_clicked host field c
step c (left host) = set_deselected host c
step c (reported host) = report_result host c
step c (submitted host drawn) = (get_serialization host drawn c).0

unfoldable pub run : Credential → List Event → Credential
run c [] = c
run c (e ∷ es) = run (step c e) es

pub initialize-created-Inv :
    (cfg : Config) (is_remote : Bool) (cpus : Scenario)
    → Inv (initialize cfg is_remote cpus created)
unfolding initialize created
initialize-created-Inv cfg is_remote cpus = ground (arith, nil-ne-approved)

step-Inv : (c : Credential) (e : Event) → Inv c → Inv (step c e)
unfolding step
step-Inv c (worked r) v = worker_step-Inv r v
step-Inv c (typed host field text) v = set_string_value-Inv host field text c v
step-Inv c (clicked host field) v = command_link_clicked-Inv host field c v
step-Inv c (left host) v = set_deselected-Inv host c v
step-Inv c (reported host) v = report_result-Inv host c
step-Inv c (submitted host drawn) v = get_serialization-Inv host drawn c v

-- The calls of LogonUI and the steps of the worker, in any order and with any answers and races,
-- keep the invariant of the tile.
pub run-Inv : (c : Credential) (es : List Event) → Inv c → Inv (run c es)
unfolding run
run-Inv c [] v = v
run-Inv c (e ∷ es) v = run-Inv (step c e) es (step-Inv c e v)

-- No worker step falls between the clearing and the stop of `ResetAuthState`.
abbrev pub IsAtomic : Event → Type 0
IsAtomic (worked r) = Unit
IsAtomic (typed host field text) = host.race ≡ []
IsAtomic (clicked host field) = host.race ≡ []
IsAtomic (left host) = host.race ≡ []
IsAtomic (reported host) = host.race ≡ []
IsAtomic (submitted host drawn) = host.race ≡ []

abbrev pub AreAtomic : List Event → Type 0
AreAtomic [] = Unit
AreAtomic (e ∷ es) = IsAtomic e × AreAtomic es

-- The event is a worker step that publishes a confirmation in this state.
abbrev pub IsGrant : Credential → Event → Type 0
IsGrant c (worked r) = (c.worker.stop ≡ false) × (grants c.pc r ≡ true)
IsGrant c _ = ⊥

step-IsGrant :
    (c : Credential) (e : Event)
    → Inv c
    → IsAtomic e
    → c.authenticated ≡ false
    → (step c e).authenticated ≡ true
    → IsGrant c e
unfolding step
step-IsGrant c (worked r) v a n h = ground (arith, worker_step-authenticated r c)
step-IsGrant c (typed host field text) v a n h =
    ground (arith, set_string_value-authenticated host field text c a h)
step-IsGrant c (clicked host field) v a n h =
    ground (arith, command_link_clicked-authenticated host field c)
step-IsGrant c (left host) v a n h = ground (arith, set_deselected-authenticated host c a)
step-IsGrant c (reported host) v a n h = ground (arith, report_result-authenticated host c a)
step-IsGrant c (submitted host drawn) v a n h =
    ground (arith, get_serialization-authenticated host drawn c v)

-- Somewhere in the session, from this state on, a worker step publishes a confirmation.
abbrev pub Granted : Credential → List Event → Type 0
Granted c [] = ⊥
Granted c (e ∷ es) = IsGrant c e ⊎ Granted (step c e) es

run-Granted :
    (c : Credential) (es : List Event)
    → Inv c
    → AreAtomic es
    → c.authenticated ≡ false
    → (run c es).authenticated ≡ true
    → Granted c es
unfolding run
run-Granted c [] v a n h = cc
run-Granted c (e ∷ es) v a n h = elim (Bool-cases (step c e).authenticated) [
  | inl confirmed ↦ inl (step-IsGrant c e v a.0 n confirmed)
  | inr not_yet ↦ inr (run-Granted (step c e) es (step-Inv c e v) a.1 not_yet h)
]

-- The tile as `SetUsageScenario` sets it up.
abbrev pub tile : Config → Bool → Scenario → Credential
tile cfg is_remote cpus = initialize cfg is_remote cpus created

-- In a session of the tile without races, LogonUI gets credentials only for a whitelisted account,
-- under a fail-open policy with network_error as the error of the worker's start, or after a
-- worker step published a grant (the gate, the code or an approved challenge) with no stop
-- requested.
pub logon_needs_grant :
    (cfg : Config) (is_remote : Bool) (cpus : Scenario) (es : List Event) (host : Host)
    (drawn : Bool) (c : Credential)
    → run (tile cfg is_remote cpus) es ≡ c
    → AreAtomic es
    → (get_serialization host drawn c).1.outcome ≡ return_credential_finished
    → (is_bypass_account host.fold c.config c.username c.domain ≡ true)
      ⊎ Granted (tile cfg is_remote cpus) es
      ⊎ ((c.config.fail_close ≡ false) × (c.worker.begin_error ≡ network_error))
logon_needs_grant cfg is_remote cpus es host drawn c e a h =
    elim (get_serialization_confirmed host drawn c c-Inv h) [
      | inl listed ↦ inl listed
      | inr (inl confirmed) ↦ inr (
          inl (
            run-Granted start es start-Inv a start-authenticated
              (ap (λ d. d.authenticated) e ∙ confirmed)))
      | inr (inr unreached) ↦ inr (inr unreached)
    ]
  where
    start : Credential
    start = tile cfg is_remote cpus

    start-Inv : Inv start
    start-Inv = initialize-created-Inv cfg is_remote cpus

    start-authenticated : start.authenticated ≡ false
    start-authenticated = unfold initialize created in refl

    c-Inv : Inv c
    c-Inv = rw e at (run-Inv start es start-Inv)
