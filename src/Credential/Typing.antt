-- ===== src/Credential/Typing.antt =====
-- `SetStringValue` of windows/credential_provider/LigamentCredential.cpp, and the submission after an
-- approval.
use ligament_apps.Common.{ℕ, ◌≡◌, ◌≢◌, Bool, true, false, [], arith}
use ligament_apps.Credential.{Task, polling, Credential, Reply, approved}
use ligament_apps.Common.Text.{Text, eq_text, eq_icase, eq_of_eq_text}
use ligament_apps.Credential.Worker.{worker_step}
use ligament_apps.Credential.Thread.{Host}
use ligament_apps.Credential.Tile.{FieldId, set_string_value, set_username, set_password, held_name}
use ligament_apps.Credential.Tile
use ligament_apps.Credential.Serialize.{
  get_serialization, return_credential_finished, pack_and_finish,
}
use ligament_apps.Credential.Joining.{worker_step-SameInput}
use ligament_apps.Credential.Grants.{reset_auth_state_clears, worker_step-authenticated}

-- The typed text is what the field holds: a name up to case, a password exactly.
abbrev pub IsUnchanged : Host → FieldId → Text → Credential → Type 0
IsUnchanged host Tile.username text c = eq_icase host.fold text (held_name c) ≡ true
IsUnchanged host Tile.password text c = c.password ≡ text
IsUnchanged host _ text c = Unit

-- Without a race, a factor that is confirmed after a field was typed into was confirmed before,
-- and the typed name is the held one up to case, or the typed password is the held one.
pub retyped_confirmed :
    (host : Host) (field : FieldId) (text : Text) (c : Credential)
    → host.race ≡ []
    → (set_string_value host field text c).authenticated ≡ true
    → (c.authenticated ≡ true) × IsUnchanged host field text c
unfolding set_string_value set_username set_password
retyped_confirmed host Tile.username text c e h = ground (arith, reset_auth_state_clears host c e)
retyped_confirmed host Tile.password text c e h =
    ground (arith, reset_auth_state_clears host c e, eq_of_eq_text c.password text)
retyped_confirmed host Tile.otp_code text c e h = (h, tt)
retyped_confirmed host _ text c e h = (h, tt)

-- Where the worker polls, no stop is requested and its challenge is approved, the next submission
-- of a filled tile hands the credentials over, if Windows packs them.
pub approved_logs_on :
    (host : Host) (drawn : Bool) (task : Task) (challenge : Text) (round errors : ℕ) (r : Reply)
    (c : Credential)
    → host.packed ≡ true
    → c.pc ≡ polling task challenge round errors
    → c.worker.stop ≡ false
    → r.ok ≡ true
    → eq_text r.status approved ≡ true
    → c.username ≢ []
    → c.password ≢ []
    → (get_serialization host drawn (worker_step r c)).1.outcome ≡ return_credential_finished
unfolding get_serialization pack_and_finish
approved_logs_on host drawn task challenge round errors r c k p s o a u w =
    ground (arith, worker_step-SameInput r c, worker_step-authenticated r c)
