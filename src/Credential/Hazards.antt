-- ===== src/Credential/Hazards.antt =====
-- Calls of windows/credential_provider/LigamentCredential.cpp that leave a result which a change of
-- the name, of the scenario or of the domain would be expected to void.
use ligament_apps.Common.{
  ℕ, ◌≡◌, refl, sym, ap, ◌∙◌, ◌≢◌, Bool, true, false, List, [], ◌∷◌, ◌++◌, arith, ◌==◌, any,
}
use ligament_apps.Credential.{
  Scenario, Task, polling, finished, Credential, Reply, max_polls, approved, denied,
}
use ligament_apps.Common.Lists.{take-append, drop-append}
use ligament_apps.Common.Text.{find_if-append, Text, eq_text, eq_icase}
use ligament_apps.Config.{Config}
use ligament_apps.Config.Bypass.{backslash, is_bypass_account, is_bypass_account_listed}
use ligament_apps.Credential.Worker.{worker_step, run_at}
use ligament_apps.Credential.Thread.{
  Host, steps_left, run_worker, clear_result, set_stop, stop_poll_thread, join_poll_thread,
  reset_auth_state,
}
use ligament_apps.Credential.Tile.{
  initialize, set_string_value, set_username, held_name, split_name,
}
use ligament_apps.Credential.Tile
use ligament_apps.Credential.Serialize.{
  get_serialization, return_credential_finished, serialize_by, serialize_otp, pack_and_finish,
}
use ligament_apps.Credential.Joining.{SameInput, worker_step-SameInput, drain-SameInput}
use ligament_apps.Credential.Kept.{stop_poll_thread_lem}

-- An approval that arrives between the clearing and the stop.
approval_in_race :
    (task : Task) (challenge : Text) (round errors : ℕ) (r : Reply) (c : Credential)
    → c.pc ≡ polling task challenge round errors
    → c.worker.stop ≡ false
    → r.ok ≡ true
    → eq_text r.status approved ≡ true
    → (worker_step r (clear_result c)).authenticated ≡ true
unfolding worker_step clear_result
approval_in_race task challenge round errors r c p s k a = rw (p, run_at) (ground arith)

-- Where the worker polls and its challenge is approved after ResetAuthState has cleared the result
-- and before it sets the stop flag, typing a name that differs from the held one up to case leaves
-- the factor confirmed, for the new name.
pub renamed_confirmed :
    (host : Host) (text : Text) (task : Task) (challenge : Text) (round errors : ℕ) (r : Reply)
    (c : Credential)
    → host.race ≡ r ∷ []
    → eq_icase host.fold text (held_name c) ≡ false
    → c.pc ≡ polling task challenge round errors
    → c.worker.stop ≡ false
    → r.ok ≡ true
    → eq_text r.status approved ≡ true
    → let d = set_string_value host Tile.username text c in
      (d.authenticated ≡ true) × (d.username ≡ (split_name text).1)
unfolding set_string_value reset_auth_state run_worker
renamed_confirmed host text task challenge round errors r c race differs p s k a =
    rw (differs, race)
      (ground (
        arith,
        stop_poll_thread_lem host.answers (worker_step r (clear_result c)),
        approval_in_race task challenge round errors r c p s k a,
      ))

-- Where a push worker has ended with its challenge refused, the name and the password are filled
-- in and no factor is confirmed, a new scenario with the one-time code as its default factor
-- accepts any code that is not empty, unchecked, and counts it as a confirmed factor, for an
-- account that is not whitelisted and if Windows packs the credentials.
pub refused_push_as_code :
    (host : Host) (drawn : Bool) (cfg : Config) (is_remote : Bool) (cpus : Scenario) (code : Text)
    (c : Credential)
    → host.packed ≡ true
    → cfg.default_factor ≡ 2
    → is_bypass_account host.fold cfg c.username c.domain ≡ false
    → c.authenticated ≡ false
    → c.pc ≡ finished
    → c.worker.done ≡ true
    → c.worker.begin_done ≡ true
    → c.worker.begin_ok ≡ true
    → c.worker.status ≡ denied
    → c.username ≢ []
    → c.password ≢ []
    → code ≢ []
    → let (d, response) =
        get_serialization host drawn
          (set_string_value host Tile.otp_code code (initialize cfg is_remote cpus c)) in
      (response.outcome ≡ return_credential_finished) × (d.authenticated ≡ true)
unfolding initialize set_string_value get_serialization serialize_by serialize_otp pack_and_finish
refused_push_as_code host drawn cfg is_remote cpus code c k f y u p d b o s n w m = ground arith

split_name_domain :
    (dom account : Text)
    → any (λ x. x == backslash) dom ≡ false
    → split_name (dom ++ backslash ∷ account) ≡ (dom, account)
unfolding split_name
split_name_domain dom account h =
    rw (find_if-append (λ x. x == backslash) dom backslash account h refl, split_name)
      (rw (take-append dom (backslash ∷ account)) (rw (drop-append dom backslash account)))

run_worker-SameInput : (rs : List Reply) (c : Credential) → SameInput c (run_worker rs c)
unfolding run_worker
run_worker-SameInput [] c = ground arith
run_worker-SameInput (r ∷ rs) c =
    ground (arith, worker_step-SameInput r c, run_worker-SameInput rs (worker_step r c))

stop_poll_thread-config :
    (answers : ℕ → Reply) (c : Credential) → (stop_poll_thread answers c).config ≡ c.config
unfolding stop_poll_thread join_poll_thread set_stop
stop_poll_thread-config answers c =
    (drain-SameInput (steps_left (max_polls c.config) c.pc) answers (set_stop c)).same_config

reset_auth_state-input :
    (host : Host) (c : Credential)
    → ((reset_auth_state host c).config ≡ c.config)
      × ((reset_auth_state host c).password ≡ c.password)
unfolding reset_auth_state clear_result
reset_auth_state-input host c = ground (
  arith,
  run_worker-SameInput host.race (clear_result c),
  stop_poll_thread_lem host.answers (run_worker host.race (clear_result c)),
  stop_poll_thread-config host.answers (run_worker host.race (clear_result c)),
)

set_username-input :
    (host : Host) (text : Text) (c : Credential)
    → let d = set_username host text c in
      (d.config ≡ c.config) × (d.password ≡ c.password) × (d.username ≡ (split_name text).1)
unfolding set_username
set_username-input host text c = ground (arith, reset_auth_state-input host c)

get_serialization-listed :
    (host : Host) (drawn : Bool) (before after : List Text) (d : Credential)
    → host.packed ≡ true
    → d.username ≢ []
    → d.password ≢ []
    → d.config.bypass_accounts ≡ before ++ d.username ∷ after
    → (get_serialization host drawn d).1.outcome ≡ return_credential_finished
unfolding get_serialization pack_and_finish
get_serialization-listed host drawn before after d k n w l =
    ground (arith, is_bypass_account_listed host.fold d.config d.username d.domain before after n l)

-- An account that the whitelist names passes with no second factor also when it is typed behind
-- any domain and a backslash, where the password is filled in, the domain holds no backslash and
-- Windows packs the credentials.
pub listed_name_of_any_domain :
    (host : Host) (drawn : Bool) (dom account : Text) (before after : List Text) (c : Credential)
    → host.packed ≡ true
    → any (λ x. x == backslash) dom ≡ false
    → account ≢ []
    → c.password ≢ []
    → c.config.bypass_accounts ≡ before ++ account ∷ after
    → (get_serialization host drawn
        (set_string_value host Tile.username (dom ++ backslash ∷ account) c)).1.outcome
      ≡ return_credential_finished
unfolding set_string_value
listed_name_of_any_domain host drawn dom account before after c k h n w l =
    get_serialization-listed host drawn before after d k (λ e. n (sym name ∙ e))
      (λ e. w (sym facts.1 ∙ e)) (rw (facts.0, name) l)
  where
    d : Credential
    d = set_username host (dom ++ backslash ∷ account) c

    facts :
        (d.config ≡ c.config)
        × (d.password ≡ c.password)
        × (d.username ≡ (split_name (dom ++ backslash ∷ account)).1)
    facts = set_username-input host (dom ++ backslash ∷ account) c

    name : d.username ≡ account
    name = facts.2 ∙ ap (λ (p : Text × Text). p.1) (split_name_domain dom account h)
