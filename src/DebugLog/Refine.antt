-- ===== src/DebugLog/Refine.antt =====
-- `CheckHandle` of windows/runner/debug_log.cpp against the view that forgets the entries of an access
-- list for who may change the object.
use ligament_apps.Common.{
  ℕ, ◌≡◌, refl, sym, ap, ◌∙◌, ◌≢◌, ◌⊎◌, inl, inr, Bool, true, false, ◌&&◌, ◌||◌, Option, some, List,
  arith, ◌==◌, not, Option-cases, length,
}
use ligament_apps.Common.Tests.{⊎-cases}
use ligament_apps.Common.Text.{Text, eq_text}
use ligament_apps.DebugLog.Access.{
  Ace, Audit, SecurityUse, is_log_directory, is_log_file, decide_security, Security, Object,
  WellKnown, error_success, Checked, check_owner, check_security, check_once, Repair, check_handle,
  win32_failure, same, audit_acl, decided,
}
use ligament_apps.DebugLog.Guarded.{OnlyPrivileged, check_owner-OnlyThey, privileged-cases}

-- A plain object of the wanted kind with one name, that only SYSTEM and the administrators may change.
pub record IsGuarded (well_known : WellKnown) (purpose : SecurityUse) (o : Object) : Type 0 where
  pub kind : o.information ≡ inr (false, not (is_log_file purpose), 1)
  pub system_sid : Text
  pub admin_sid : Text
  pub sids : well_known ≡ inr (system_sid, admin_sid)
  pub only_privileged : OnlyPrivileged system_sid admin_sid o.security

pub win32_failure_fails : (error : ℕ) → win32_failure error ≢ error_success
unfolding win32_failure
win32_failure_fails error = ground arith

abbrev status_of : Checked → ℕ
status_of (Checked.done status) = status
status_of Checked.wants_repair = 1

done_inj : (m n : ℕ) → Checked.done m ≡ Checked.done n → m ≡ n
done_inj m n e = ap status_of e

check_security-OnlyPrivileged :
    (well_known : WellKnown) (purpose : SecurityUse) (s : Security)
    → check_security well_known purpose s ≡ Checked.done error_success
    → (system_sid : Text) × (admin_sid : Text) × (well_known ≡ inr (system_sid, admin_sid))
      × OnlyPrivileged system_sid admin_sid s
unfolding check_security
check_security-OnlyPrivileged well_known purpose s h = elim (Option-cases s.acl) [
  | inl e ↦ absurd (ground (arith, e, h))
  | inr (aces, e) ↦ elim (Option-cases s.owner) [
    | inl f ↦ absurd (ground (arith, e, f, h))
    | inr (owner, f) ↦ elim (⊎-cases well_known) [
      | inl (error, g) ↦
          absurd (
            ground (arith, e, f, g, h, win32_failure_fails error, done_inj (win32_failure error) 0))
      | inr ((system_sid, admin_sid), g) ↦
          let q =
            check_owner-OnlyThey system_sid admin_sid purpose s.dacl_protected owner aces
              (ground (arith, e, f, g, h)) in
          (
            system_sid,
            admin_sid,
            g,
            record {
              aces = aces;
              acl_lem = e;
              owner = owner;
              owner_lem = f;
              owner_privileged = privileged-cases system_sid admin_sid owner q.0;
              only_privileged = λ who m. privileged-cases system_sid admin_sid who (q.1 who m);
            },
          )
    ]
  ]
]

same_lem : (a b : Bool) → same a b ≡ true → a ≡ b
same_lem true b h = sym h
same_lem false true h = cc
same_lem false false h = refl

-- The tests that an accepted object passes before its access list is looked at.
check_once-kind :
    (well_known : WellKnown) (purpose : SecurityUse) (o : Object) (reparse_point directory : Bool)
    (links : ℕ)
    → o.information ≡ inr (reparse_point, directory, links)
    → check_once well_known true purpose o ≡ Checked.done error_success
    → (reparse_point ≡ false)
      × (same directory (not (is_log_file purpose)) ≡ true)
      × ((links == 1) ≡ true)
      × (check_security well_known purpose o.security ≡ Checked.done error_success)
unfolding check_once
check_once-kind well_known purpose o reparse_point directory links e h =
    ground (arith, e, h, done_inj o.security_status 0)

check_once-IsGuarded :
    (well_known : WellKnown) (purpose : SecurityUse) (o : Object)
    → check_once well_known true purpose o ≡ Checked.done error_success
    → IsGuarded well_known purpose o
unfolding check_once
check_once-IsGuarded well_known purpose o h = elim (⊎-cases o.information) [
  | inl (error, e) ↦
      absurd (ground (arith, e, h, win32_failure_fails error, done_inj (win32_failure error) 0))
  | inr ((reparse_point, directory, links), e) ↦
      let k = check_once-kind well_known purpose o reparse_point directory links e h in
      let q = check_security-OnlyPrivileged well_known purpose o.security k.3 in
      record {
        kind = e ∙ ground (arith, k, same_lem directory (not (is_log_file purpose)));
        system_sid = q.0;
        admin_sid = q.1;
        sids = q.2;
        only_privileged = q.3;
      }
]

-- Only the directory of the log is repaired.
decided-tighten :
    (purpose : SecurityUse) (owner safe private : Bool)
    → decided (decide_security purpose true owner safe private) ≡ Checked.wants_repair
    → is_log_directory purpose ≡ true
unfolding decide_security
decided-tighten purpose owner safe private h = ground (arith, h)

check_owner-tighten :
    (purpose : SecurityUse) (system_sid admin_sid : Text) (protected : Bool) (owner : Text)
    (aces : List (Option Ace))
    → check_owner purpose system_sid admin_sid protected owner aces ≡ Checked.wants_repair
    → is_log_directory purpose ≡ true
unfolding check_owner
check_owner-tighten purpose system_sid admin_sid protected owner aces h =
    elim (Option-cases (audit_acl system_sid admin_sid aces start)) [
      | inl e ↦ absurd (ground (arith, e, h))
      | inr (a, e) ↦
          decided-tighten purpose (eq_text owner system_sid || eq_text owner admin_sid)
            a.safe_parent_acl (a.private_acl && a.system && a.admin) (ground (arith, e, h))
    ]
  where
    start : Audit
    start = record {
      private_acl = protected && length aces == 2;
      safe_parent_acl = true;
      system = false;
      admin = false;
    }

check_security-tighten :
    (well_known : WellKnown) (purpose : SecurityUse) (s : Security)
    → check_security well_known purpose s ≡ Checked.wants_repair
    → is_log_directory purpose ≡ true
unfolding check_security
check_security-tighten well_known purpose s h = elim (Option-cases s.acl) [
  | inl e ↦ absurd (ground (arith, e, h))
  | inr (aces, e) ↦ elim (Option-cases s.owner) [
    | inl f ↦ absurd (ground (arith, e, f, h))
    | inr (owner, f) ↦ elim (⊎-cases well_known) [
      | inl (error, g) ↦ absurd (ground (arith, e, f, g, h))
      | inr ((system_sid, admin_sid), g) ↦
          check_owner-tighten purpose system_sid admin_sid s.dacl_protected owner aces
            (ground (arith, e, f, g, h))
    ]
  ]
]

wants_repair-directory :
    (well_known : WellKnown) (purpose : SecurityUse) (o : Object)
    → check_once well_known true purpose o ≡ Checked.wants_repair
    → is_log_directory purpose ≡ true
unfolding check_once
wants_repair-directory well_known purpose o h = elim (⊎-cases o.information) [
  | inl (error, e) ↦ absurd (ground (arith, e, h))
  | inr ((reparse_point, directory, links), e) ↦
      check_security-tighten well_known purpose o.security (ground (arith, e, h))
]

Checked-cases :
    (c : Checked) → ((status : ℕ) × (c ≡ Checked.done status)) ⊎ (c ≡ Checked.wants_repair)
Checked-cases (Checked.done status) = inl (status, refl)
Checked-cases Checked.wants_repair = inr refl

-- Where CheckHandle accepts an object for a worker, the object, or, for the directory of the log,
-- the object after the repair, is of the wanted kind, no reparse point and has one name, its owner
-- is SYSTEM or the administrators, and no entry of its access list allows anyone else more than to
-- read the object itself.
pub check_handle-IsGuarded :
    (well_known : WellKnown) (purpose : SecurityUse) (o : Object) (repair : Option Repair)
    → check_handle well_known true purpose o repair ≡ error_success
    → IsGuarded well_known purpose o
      ⊎ ((r : Repair) × (repair ≡ some r)
          × (is_log_directory purpose ≡ true)
          × IsGuarded well_known purpose r.1)
unfolding check_handle
check_handle-IsGuarded well_known purpose o repair h =
    elim (Checked-cases (check_once well_known true purpose o)) [
      | inl (status, e) ↦
          inl
            (check_once-IsGuarded well_known purpose o (e ∙ ap Checked.done (ground (arith, e, h))))
      | inr e ↦ elim (Option-cases repair) [
        | inl f ↦ absurd (ground (arith, e, f, h))
        | inr ((status, repaired), f) ↦
            elim (Checked-cases (check_once well_known true purpose repaired)) [
              | inl (again, g) ↦ inr (
                (status, repaired),
                f,
                wants_repair-directory well_known purpose o e,
                check_once-IsGuarded well_known purpose repaired
                    (g ∙ ap Checked.done (ground (arith, e, f, g, h))),
              )
              | inr g ↦ absurd (ground (arith, e, f, g, h))
            ]
      ]
    ]
