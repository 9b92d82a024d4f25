-- ===== src/DebugLog/Guarded.antt =====
-- Who may change an object that `CheckHandle` of windows/runner/debug_log.cpp accepts.
use ligament_apps.Common.{
  ◌≡◌, sym, ◌⊎◌, inl, inr, Bool, true, false, ◌&&◌, ◌||◌, Option, none, some, List, [], ◌∷◌, arith,
  ◌==◌, not, Bool-cases, Option-cases, length, any,
}
use mathlib.Core.Path.{subst}
use ligament_apps.Common.Tests.{and_left}
use ligament_apps.Common.Text.{Text, eq_text, eq_of_eq_text}
use ligament_apps.DebugLog.Access.{
  are_within, parent_read_only_access, safe_parent_allow, private_allow, SecurityUse,
  decide_security, Ace, Security, error_success, Audit, is_inherit_only, is_allow, audit_ace,
  audit_acl, Checked, check_owner, decided,
}

-- An entry grants a SID a right that is not one of reading, on the object itself.
abbrev pub grants_change : Text → Ace → Bool
grants_change who ace =
    eq_text ace.sid who
    && is_allow ace
    && not (is_inherit_only ace)
    && not (are_within 32 ace.mask parent_read_only_access)

abbrev grants_entry : Text → Option Ace → Bool
grants_entry who none = false
grants_entry who (some ace) = grants_change who ace

-- What a list of entries forgets of their order and number: who may change the object.
abbrev pub may_change : List (Option Ace) → Text → Bool
may_change aces who = any (λ (o : Option Ace). grants_entry who o) aces

-- Only SYSTEM and the administrators may change the object, and one of them owns it.
pub record OnlyPrivileged (system_sid admin_sid : Text) (s : Security) : Type 0 where
  pub aces : List (Option Ace)
  pub acl_lem : s.acl ≡ some aces
  pub owner : Text
  pub owner_lem : s.owner ≡ some owner
  pub owner_privileged : (owner ≡ system_sid) ⊎ (owner ≡ admin_sid)
  pub only_privileged :
      (who : Text) → may_change aces who ≡ true → (who ≡ system_sid) ⊎ (who ≡ admin_sid)

safe_bits :
    (s allow priv inherit within : Bool)
    → (s && not (allow && not (priv || inherit || within))) ≡ true
    → (s ≡ true) × ((allow && not inherit && not within) ≡ true → priv ≡ true)
safe_bits s allow priv inherit within h = ground (arith, h)

private_bits :
    (a b is_system is_admin had_system had_admin : Bool)
    → (a && b && (is_system && not had_system || is_admin && not had_admin)) ≡ true
    → (a ≡ true) × ((is_system || is_admin) ≡ true)
private_bits a b is_system is_admin had_system had_admin h = ground (arith, h)

module _ (system_sid admin_sid : Text) where
  abbrev pub privileged : Text → Bool
  privileged sid = eq_text sid system_sid || eq_text sid admin_sid

  -- The flags of the loop only fall.
  audit_ace-safe :
      (ace : Ace) (a : Audit)
      → (audit_ace system_sid admin_sid ace a).safe_parent_acl ≡ true
      → (a.safe_parent_acl ≡ true)
        × ((is_allow ace
                && not (is_inherit_only ace)
                && not (are_within 32 ace.mask parent_read_only_access))
              ≡ true
            → privileged ace.sid ≡ true)
  unfolding audit_ace safe_parent_allow
  audit_ace-safe ace a h =
      safe_bits a.safe_parent_acl (is_allow ace) (privileged ace.sid) (is_inherit_only ace)
        (are_within 32 ace.mask parent_read_only_access) h

  audit_ace-private :
      (ace : Ace) (a : Audit)
      → (audit_ace system_sid admin_sid ace a).private_acl ≡ true
      → (a.private_acl ≡ true) × (privileged ace.sid ≡ true)
  unfolding audit_ace
  audit_ace-private ace a h =
      private_bits a.private_acl (private_allow (is_allow ace) ace.mask ace.flags)
        (eq_text ace.sid system_sid) (eq_text ace.sid admin_sid) a.system a.admin h

  -- An entry that names only the two may grant anything, another only reading.
  abbrev IsHarmless : Option Ace → Type 0
  IsHarmless o = (who : Text) → grants_entry who o ≡ true → privileged who ≡ true

  change_bits :
      (ace : Ace) (who : Text)
      → grants_change who ace ≡ true
      → (ace.sid ≡ who)
        × ((is_allow ace
              && not (is_inherit_only ace)
              && not (are_within 32 ace.mask parent_read_only_access))
            ≡ true)
  change_bits ace who h = (
    eq_of_eq_text ace.sid who (and_left _ _ (and_left _ _ (and_left _ _ h))),
    three (eq_text ace.sid who) (is_allow ace) (not (is_inherit_only ace))
        (not (are_within 32 ace.mask parent_read_only_access)) h,
  )
    where
      three : (a b c d : Bool) → (a && b && c && d) ≡ true → (b && c && d) ≡ true
      three a b c d h = ground (arith, h)

  abbrev Falls : (Audit → Bool) → Type 0
  Falls flag =
      (ace : Ace) (a : Audit)
      → flag (audit_ace system_sid admin_sid ace a) ≡ true
      → (flag a ≡ true) × IsHarmless (some ace)

  safe-Falls : Falls (λ a. a.safe_parent_acl)
  safe-Falls ace a h = (
    (audit_ace-safe ace a h).0,
    (λ who g.
        let q = change_bits ace who g in
        subst (λ sid. privileged sid ≡ true) q.0 ((audit_ace-safe ace a h).1 q.1)),
  )

  private-Falls : Falls (λ a. a.private_acl)
  private-Falls ace a h = (
    (audit_ace-private ace a h).0,
    (λ who g.
        subst (λ sid. privileged sid ≡ true) (change_bits ace who g).0
          (audit_ace-private ace a h).1),
  )

  -- Whoever may change something by these entries is privileged.
  abbrev pub OnlyThey : List (Option Ace) → Type 0
  OnlyThey aces = (who : Text) → may_change aces who ≡ true → privileged who ≡ true

  OnlyThey-cons :
      (ace : Ace) (aces : List (Option Ace))
      → IsHarmless (some ace)
      → OnlyThey aces
      → OnlyThey (some ace ∷ aces)
  OnlyThey-cons ace aces f rest who g = either (Bool-cases (grants_change who ace))
    where
      either :
          (grants_change who ace ≡ true) ⊎ (grants_change who ace ≡ false) → privileged who ≡ true
      either (inl k) = f who k
      either (inr k) = rest who (subst (λ q. (q || may_change aces who) ≡ true) k g)

  -- A flag that falls at every harmful entry, and stands at the end of the loop.
  audit_acl-Falls :
      (flag : Audit → Bool)
      → Falls flag
      → (aces : List (Option Ace)) (a b : Audit) → audit_acl system_sid admin_sid aces a ≡ some b
      → flag b ≡ true
      → (flag a ≡ true) × OnlyThey aces
  unfolding audit_acl
  audit_acl-Falls flag f [] a b e h =
      (subst (λ (o : Option Audit). flag_of o ≡ true) (sym e) h, (λ who g. cc))
    where
      flag_of : Option Audit → Bool
      flag_of none = false
      flag_of (some x) = flag x
  audit_acl-Falls flag f (none ∷ aces) a b e h = cc
  audit_acl-Falls flag f (some ace ∷ aces) a b e h =
      let rest =
        audit_acl-Falls flag f aces (audit_ace system_sid admin_sid ace a) b (ground (arith, e))
          h in
      let step = f ace a rest.0 in (step.0, OnlyThey-cons ace aces step.1 rest.1)

  pub privileged-cases :
      (who : Text) → privileged who ≡ true → (who ≡ system_sid) ⊎ (who ≡ admin_sid)
  privileged-cases who h = elim (Bool-cases (eq_text who system_sid)) [
    | inl e ↦ inl (eq_of_eq_text who system_sid e)
    | inr e ↦ inr (eq_of_eq_text who admin_sid (ground (arith, e, h)))
  ]

  decided-accept :
      (purpose : SecurityUse) (owner safe private : Bool)
      → decided (decide_security purpose true owner safe private) ≡ Checked.done error_success
      → (owner ≡ true) × ((safe ≡ true) ⊎ (private ≡ true))
  unfolding decide_security
  decided-accept purpose owner safe private h = ground (arith, h)

  pub check_owner-OnlyThey :
      (purpose : SecurityUse) (protected : Bool) (owner : Text) (aces : List (Option Ace))
      → check_owner purpose system_sid admin_sid protected owner aces ≡ Checked.done error_success
      → (privileged owner ≡ true) × OnlyThey aces
  unfolding check_owner
  check_owner-OnlyThey purpose protected owner aces h =
      elim (Option-cases (audit_acl system_sid admin_sid aces start)) [
        | inl e ↦ absurd (ground (arith, e, h))
        | inr (a, e) ↦
            let q =
              decided-accept purpose (privileged owner) a.safe_parent_acl
                (a.private_acl && a.system && a.admin) (ground (arith, e, h)) in
            (q.0, only a e q.1)
      ]
    where
      start : Audit
      start = record {
        private_acl = protected && length aces == 2;
        safe_parent_acl = true;
        system = false;
        admin = false;
      }

      only :
          (a : Audit)
          → audit_acl system_sid admin_sid aces start ≡ some a
          → (a.safe_parent_acl ≡ true) ⊎ ((a.private_acl && a.system && a.admin) ≡ true)
          → OnlyThey aces
      only a e (inl s) = (audit_acl-Falls (λ x. x.safe_parent_acl) safe-Falls aces start a e s).1
      only a e (inr s) =
          (audit_acl-Falls (λ x. x.private_acl) private-Falls aces start a e
            (and_left _ _ (and_left _ _ s))).1
