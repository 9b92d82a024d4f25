-- ===== src/Credential/Scenarios.antt =====
-- Concrete sessions of the tile.
use ligament_apps.Common.{
  ℕ, zero, suc, ◌≡◌, refl, ◌≢◌, ◌⊎◌, true, false, ◌&&◌, ◌||◌, List, [], ◌∷◌, ◌++◌, arith, ◌==◌, not,
  any,
}
use ligament_apps.Credential.{
  Scenario, start_push, Task, polling, finished, is_running, Credential, Reply, max_polls,
  network_error, approved, denied,
}
use ligament_apps.Credential.{codes}
use ligament_apps.Credential.{Text}
use ligament_apps.Common.Text.{eq_icase, eq_text}
use ligament_apps.Config.{Config, default_config}
use ligament_apps.Config.Bypass.{is_bypass_account, matches_account, backslash}
use ligament_apps.Credential.Worker.{worker_step}
use ligament_apps.Credential.Thread.{
  Host, drain, steps_left, reset_auth_state, set_stop, run_worker, join_poll_thread,
  stop_poll_thread, post_job, start_worker_job, clear_result,
}
use ligament_apps.Credential.Tile.{
  FieldId, initialize, set_string_value, set_username, set_password, held_name, split_name,
}
use ligament_apps.Credential.Serialize.{
  get_serialization, pack_and_finish, apply_push, push_result, serialize_push, serialize_by,
  return_credential_finished,
}
use ligament_apps.Credential.Invariant.{Inv}
use ligament_apps.Credential.Joining.{drain-ended}
use ligament_apps.Credential.Grants.{worker_step-authenticated, grants}
use Prim.{tt}
use ligament_apps.Credential.History.{
  Event, step, worked, typed, submitted, run, tile, created, initialize-created-Inv, AreAtomic,
  Granted, logon_needs_grant,
}
use ligament_apps.Credential.Hazards.{
  renamed_confirmed, refused_push_as_code, listed_name_of_any_domain,
}
use ligament_apps.Credential.Typing.{retyped_confirmed, approved_logs_on, IsUnchanged}

abbrev answer : Reply
answer = record {
  gate_satisfied = false;
  ok = true;
  error = [];
  retry_after = 0;
  challenge_id = codes "c1";
  number_match = codes "42";
  handle = [];
  qr_drawn = true;
  status = approved;
  sso_ticket = codes "t";
}

abbrev host : Host
host = record {
  fold = λ c. c;
  race = [];
  answers = λ _. answer;
  thread_created = true;
  packed = true;
}

abbrev raced : Host
raced = record host { race = answer ∷ [] }

abbrev cfg : Config
cfg = record default_config { server_url = codes "https://a"; bypass_accounts = codes "svc" ∷ [] }

abbrev alice : Text
alice = codes "alice"

abbrev pw : Text
pw = codes "pw"

-- A push session: the name, the password, a submission, and the five steps of the worker up to its
-- approved challenge.
abbrev filled : List Event
filled =
    typed host FieldId.username alice ∷ typed host FieldId.password pw ∷ submitted host false ∷ []

abbrev steps : ℕ → List Event
steps zero = []
steps (suc n) = worked answer ∷ steps n

abbrev session : List Event
session = filled ++ steps 5

abbrev start : Credential
start = tile cfg true Scenario.logon

abbrev polls : Credential
polls = run start (filled ++ steps 4)

abbrev approved_tile : Credential
approved_tile = run start session

start-Inv : Inv start
start-Inv = initialize-created-Inv cfg true Scenario.logon

abbrev task : Task
task = record { job = start_push; user = alice; domain = []; pass = pw; otp = [] }

-- Before the last step the worker polls; after it the factor is confirmed.
polls_polling :
    (polls.pc ≡ polling task (codes "c1") 0 0)
    × (polls.worker.stop ≡ false)
    × (polls.username ≢ [])
    × (polls.password ≢ [])
    × (eq_text answer.status approved ≡ true)
    × (eq_icase host.fold (codes "bob") (held_name polls) ≡ false)
unfolding run step created initialize split_name held_name set_username set_password
    set_string_value pack_and_finish apply_push push_result serialize_push serialize_by
    get_serialization run_worker drain join_poll_thread set_stop stop_poll_thread post_job
    start_worker_job clear_result reset_auth_state worker_step matches_account is_bypass_account
    default_config eq_text eq_icase
polls_polling = (refl, refl, ground arith, ground arith, refl, refl)

session_logs_on :
    (get_serialization host false approved_tile).1.outcome ≡ return_credential_finished
unfolding run step created initialize split_name held_name set_username set_password
    set_string_value pack_and_finish apply_push push_result serialize_push serialize_by
    get_serialization run_worker drain join_poll_thread set_stop stop_poll_thread post_job
    start_worker_job clear_result reset_auth_state worker_step matches_account is_bypass_account
    default_config eq_text eq_icase
session_logs_on = refl

-- The same session with the challenge refused on the phone.
abbrev denied_tile : Credential
denied_tile = worker_step (record answer { status = denied }) polls

abbrev by_code : Config
by_code = record cfg { default_factor = 2 }

denied_ended :
    (is_bypass_account host.fold by_code denied_tile.username denied_tile.domain ≡ false)
    × (denied_tile.authenticated ≡ false)
    × (denied_tile.pc ≡ finished)
    × (denied_tile.worker.done ≡ true)
    × (denied_tile.worker.begin_done ≡ true)
    × (denied_tile.worker.begin_ok ≡ true)
    × (denied_tile.worker.status ≡ denied)
    × (denied_tile.username ≢ [])
    × (denied_tile.password ≢ [])
unfolding run step created initialize split_name held_name set_username set_password
    set_string_value pack_and_finish apply_push push_result serialize_push serialize_by
    get_serialization run_worker drain join_poll_thread set_stop stop_poll_thread post_job
    start_worker_job clear_result reset_auth_state worker_step matches_account is_bypass_account
    default_config eq_text eq_icase
denied_ended = (refl, refl, refl, refl, refl, refl, refl, ground arith, ground arith)

retyped :
    (set_string_value host FieldId.username (codes "Alice") approved_tile).authenticated ≡ false
unfolding run step created initialize split_name held_name set_username set_password
    set_string_value pack_and_finish apply_push push_result serialize_push serialize_by
    get_serialization run_worker drain join_poll_thread set_stop stop_poll_thread post_job
    start_worker_job clear_result reset_auth_state worker_step matches_account is_bypass_account
    default_config eq_text eq_icase
retyped = refl

same_name : (set_string_value host FieldId.username alice approved_tile).authenticated ≡ true
unfolding run step created initialize split_name held_name set_username set_password
    set_string_value pack_and_finish apply_push push_result serialize_push serialize_by
    get_serialization run_worker drain join_poll_thread set_stop stop_poll_thread post_job
    start_worker_job clear_result reset_auth_state worker_step matches_account is_bypass_account
    default_config eq_text eq_icase
same_name = refl

polls_listed : polls.config.bypass_accounts ≡ codes "svc" ∷ []
unfolding run step created initialize split_name held_name set_username set_password
    set_string_value pack_and_finish apply_push push_result serialize_push serialize_by
    get_serialization run_worker drain join_poll_thread set_stop stop_poll_thread post_job
    start_worker_job clear_result reset_auth_state worker_step matches_account is_bypass_account
    default_config eq_text eq_icase
polls_listed = refl

corp-backslash : any (λ x. x == backslash) (codes "corp") ≡ false
corp-backslash = refl

session_atomic : AreAtomic session
session_atomic = (refl, (refl, (refl, (tt, (tt, (tt, (tt, (tt, tt))))))))

logon_needs_grant_example :
    (is_bypass_account host.fold approved_tile.config approved_tile.username approved_tile.domain
      ≡ true)
    ⊎ Granted start session
    ⊎ ((approved_tile.config.fail_close ≡ false)
        × (approved_tile.worker.begin_error ≡ network_error))
logon_needs_grant_example =
    logon_needs_grant cfg true Scenario.logon session host false approved_tile refl session_atomic
      session_logs_on

drain-ended_example :
    is_running (drain (steps_left (max_polls polls.config) polls.pc) host.answers polls).pc ≡ false
drain-ended_example =
    drain-ended (steps_left (max_polls polls.config) polls.pc) host.answers polls (omega arith)

worker_step-authenticated_example :
    (worker_step answer polls).authenticated
    ≡ (polls.authenticated || not polls.worker.stop && grants polls.pc answer)
worker_step-authenticated_example = worker_step-authenticated answer polls

retyped_confirmed_example :
    (approved_tile.authenticated ≡ true) × IsUnchanged host FieldId.username alice approved_tile
retyped_confirmed_example =
    retyped_confirmed host FieldId.username alice approved_tile refl same_name

approved_logs_on_example :
    (get_serialization host false (worker_step answer polls)).1.outcome ≡ return_credential_finished
approved_logs_on_example =
    approved_logs_on host false task (codes "c1") 0 0 answer polls refl polls_polling.0
      polls_polling.1 refl polls_polling.4 polls_polling.2 polls_polling.3

renamed_confirmed_example :
    let d = set_string_value raced FieldId.username (codes "bob") polls in
    (d.authenticated ≡ true) × (d.username ≡ (split_name (codes "bob")).1)
renamed_confirmed_example =
    renamed_confirmed raced (codes "bob") task (codes "c1") 0 0 answer polls refl polls_polling.5
      polls_polling.0 polls_polling.1 refl polls_polling.4

refused_push_as_code_example :
    let (d, response) = get_serialization host false (
      set_string_value host FieldId.otp_code
        (codes "0")
        (initialize by_code true Scenario.logon denied_tile)) in
    (response.outcome ≡ return_credential_finished) × (d.authenticated ≡ true)
refused_push_as_code_example =
    refused_push_as_code host false by_code true Scenario.logon (codes "0") denied_tile refl refl
      denied_ended.0 denied_ended.1 denied_ended.2 denied_ended.3 denied_ended.4 denied_ended.5
      denied_ended.6 denied_ended.7 denied_ended.8 (ground arith)

listed_name_of_any_domain_example :
    (get_serialization host false (
      set_string_value host FieldId.username
        (codes "corp" ++ backslash ∷ codes "svc")
        polls)).1.outcome
    ≡ return_credential_finished
listed_name_of_any_domain_example =
    listed_name_of_any_domain host false (codes "corp") (codes "svc") [] [] polls refl
      corp-backslash (ground arith) polls_polling.3 polls_listed
