-- ===== src/DebugLog/Access.antt =====
-- Who may change the files of the log: the decision of windows/runner/debug_log.h, and `CheckHandle`
-- of debug_log.cpp. What Windows tells of an opened object is the record `Object`.
use ligament_apps.Common.{
  ℕ, zero, suc, ◌-◌, ◌/◌, ◌%◌, ◌⊎◌, inl, inr, Bool, true, false, ◌&&◌, ◌||◌, Option, none, some,
  List, [], ◌∷◌, ltb, leb, ◌==◌, if◌then◌else◌, not, length,
}
use ligament_apps.Common.Text.{Text, eq_text}

-- `(a & ~mask) == 0` on the lowest `width` bits.
unfoldable pub are_within : ℕ → ℕ → ℕ → Bool
are_within zero a mask = true
are_within (suc width) a mask = (a % 2 == 0 || mask % 2 == 1) && are_within width (a / 2) (mask / 2)

-- `kParentReadOnlyAccess`: 0x001200a9 with 0xa0000000.
abbrev pub parent_read_only_access : ℕ
parent_read_only_access = 2685534377

abbrev pub file_all_access : ℕ
file_all_access = 0x1f01ff

unfoldable pub safe_parent_allow : Bool → Bool → ℕ → Bool
unfolding are_within
safe_parent_allow privileged inherit_only access =
    privileged || inherit_only || are_within 32 access parent_read_only_access

-- With `kPrivateAceFlags`, the two lowest bits.
abbrev pub private_allow : Bool → ℕ → ℕ → Bool
private_allow allow access flags = allow && access == file_all_access && ltb flags 4

pub data SecurityUse : Type 0 where
  parent log_directory log_file : SecurityUse

pub data SecurityDecision : Type 0 where
  reject accept tighten : SecurityDecision

abbrev pub is_parent : SecurityUse → Bool
is_parent SecurityUse.parent = true
is_parent _ = false

abbrev pub is_log_directory : SecurityUse → Bool
is_log_directory SecurityUse.log_directory = true
is_log_directory _ = false

abbrev pub is_log_file : SecurityUse → Bool
is_log_file SecurityUse.log_file = true
is_log_file _ = false

unfoldable pub decide_security : SecurityUse → Bool → Bool → Bool → Bool → SecurityDecision
decide_security purpose safe_object privileged_owner safe_parent_acl private_acl =
    if not safe_object || not privileged_owner
    then SecurityDecision.reject
    else if is_parent purpose
    then (if safe_parent_acl then SecurityDecision.accept else SecurityDecision.reject)
    else if private_acl
    then SecurityDecision.accept
    else if is_log_directory purpose && safe_parent_acl
    then SecurityDecision.tighten
    else SecurityDecision.reject

-- An entry of an access list. `sid_size` is `GetSidLengthRequired` of its SID.
pub record Ace : Type 0 where
  pub ace_type : ℕ
  pub flags : ℕ
  pub size : ℕ
  pub mask : ℕ
  pub sid_size : ℕ
  pub sid_valid : Bool
  pub sid : Text

-- `GetSecurityInfo`: the descriptor with its control bits, the owner and the access list, where they
-- are there and pass the API's own tests. An entry is `none` where `GetAce` fails.
pub record Security : Type 0 where
  pub descriptor_valid : Bool
  pub dacl_present : Bool
  pub dacl_protected : Bool
  pub acl : Option (List (Option Ace))
  pub owner : Option Text

-- An opened file or directory: what `GetFileInformationByHandle` gives, or the code that it fails
-- with, and the status of `GetSecurityInfo` with what it gives.
pub record Object : Type 0 where
  pub information : ℕ ⊎ (Bool × Bool × ℕ)  -- reparse point, directory, number of links
  pub security_status : ℕ
  pub security : Security

-- The SIDs of SYSTEM and of the administrators, or the code that `CreateWellKnownSid` fails with.
abbrev pub WellKnown : Type 0
WellKnown = ℕ ⊎ (Text × Text)

abbrev pub error_success : ℕ
error_success = 0

abbrev pub error_access_denied : ℕ
error_access_denied = 5

abbrev pub error_gen_failure : ℕ
error_gen_failure = 31

abbrev pub error_invalid_acl : ℕ
error_invalid_acl = 1336

abbrev pub error_invalid_owner : ℕ
error_invalid_owner = 1307

-- `Win32Failure()`, by `GetLastError()`.
unfoldable pub win32_failure : ℕ → ℕ
win32_failure error = if error == error_success then error_gen_failure else error

-- What the loop over the entries finds out.
pub record Audit : Type 0 where
  pub private_acl : Bool
  pub safe_parent_acl : Bool
  pub system : Bool
  pub admin : Bool

-- Bit 3 of the flags.
abbrev pub is_inherit_only : Ace → Bool
is_inherit_only ace = (ace.flags / 8) % 2 == 1

abbrev pub is_allow : Ace → Bool
is_allow ace = ace.ace_type == 0

-- An entry that the loop accepts to look at: allowing or denying, with known flags and a whole SID.
-- The SID stands at offset 8 of an entry.
abbrev pub is_readable : Ace → Bool
is_readable ace =
    (ace.ace_type == 0 || ace.ace_type == 1)
    && ltb ace.flags 32
    && leb 16 ace.size
    && leb ace.sid_size (ace.size - 8)
    && ace.sid_valid

-- The loop's body on an entry.
unfoldable pub audit_ace : Text → Text → Ace → Audit → Audit
unfolding safe_parent_allow
audit_ace system_sid admin_sid ace a =
    let is_system = eq_text ace.sid system_sid in
    let is_admin = eq_text ace.sid admin_sid in
    let allow = is_allow ace in
    let first_system = is_system && not a.system in
    let first_admin = is_admin && not a.admin in
    record {
      private_acl =
          a.private_acl && private_allow allow ace.mask ace.flags && (first_system || first_admin);
      safe_parent_acl =
          a.safe_parent_acl
          && not (
              allow
              && not (safe_parent_allow (is_system || is_admin) (is_inherit_only ace) ace.mask));
      system = a.system || is_system;
      admin = a.admin || not first_system && is_admin;
    }

-- The loop; `none` is its return with `ERROR_INVALID_ACL`.
unfoldable pub audit_acl : Text → Text → List (Option Ace) → Audit → Option Audit
unfolding audit_ace
audit_acl system_sid admin_sid [] a = some a
audit_acl system_sid admin_sid (none ∷ aces) a = none
audit_acl system_sid admin_sid (some ace ∷ aces) a =
    let rest = audit_acl system_sid admin_sid aces (audit_ace system_sid admin_sid ace a) in
    if is_readable ace then rest else none

-- What a check ends with: a status, or the wish to tighten the access list.
pub data Checked : Type 0 where
  done : (status : ℕ) → Checked
  wants_repair : Checked

abbrev pub decided : SecurityDecision → Checked
decided SecurityDecision.accept = Checked.done error_success
decided SecurityDecision.tighten = Checked.wants_repair
decided SecurityDecision.reject = Checked.done error_access_denied

unfoldable pub check_owner : SecurityUse → Text → Text → Bool → Text → List (Option Ace) → Checked
unfolding decide_security audit_acl
check_owner purpose system_sid admin_sid protected owner aces =
    let privileged_owner = eq_text owner system_sid || eq_text owner admin_sid in
    let start : Audit = record {
      private_acl = protected && length aces == 2;
      safe_parent_acl = true;
      system = false;
      admin = false;
    } in
    elim (audit_acl system_sid admin_sid aces start) [
      | none ↦ Checked.done error_invalid_acl
      | some a ↦ decided (
          decide_security purpose true privileged_owner a.safe_parent_acl
            (a.private_acl && a.system && a.admin))
    ]

unfoldable pub check_security : WellKnown → SecurityUse → Security → Checked
unfolding check_owner win32_failure
check_security well_known purpose s =
    if not s.descriptor_valid || not s.dacl_present
    then Checked.done error_invalid_acl
    else elim s.acl [
      | none ↦ Checked.done error_invalid_acl
      | some aces ↦ elim s.owner [
        | none ↦ Checked.done error_invalid_owner
        | some owner ↦ elim well_known [
          | inl error ↦ Checked.done (win32_failure error)
          | inr (system_sid, admin_sid) ↦
              check_owner purpose system_sid admin_sid s.dacl_protected owner aces
        ]
      ]
    ]

abbrev pub same : Bool → Bool → Bool
same true b = b
same false b = not b

-- `CheckHandle` up to the repair; `worker` is `Worker()`.
unfoldable pub check_once : WellKnown → Bool → SecurityUse → Object → Checked
unfolding check_security win32_failure
check_once well_known worker purpose o = elim o.information [
  | inl error ↦ Checked.done (win32_failure error)
  | inr (reparse_point, directory, links) ↦
      if reparse_point || not (same directory (not (is_log_file purpose))) || not (links == 1)
      then Checked.done error_access_denied
      else if not worker
      then Checked.done error_success
      else if not (o.security_status == error_success)
      then Checked.done o.security_status
      else check_security well_known purpose o.security
]

-- The repair: the status of `SetSecurityInfo`, and the object as the second check finds it.
abbrev pub Repair : Type 0
Repair = ℕ × Object

abbrev pub final_status : Checked → ℕ
final_status (Checked.done status) = status
final_status Checked.wants_repair = error_access_denied

-- `CheckHandle(handle, use, repair_acl)`; without `repair_acl` the repair is `none`.
unfoldable pub check_handle : WellKnown → Bool → SecurityUse → Object → Option Repair → ℕ
unfolding check_once
check_handle well_known worker purpose o repair = elim (check_once well_known worker purpose o) [
  | Checked.done status ↦ status
  | Checked.wants_repair ↦ elim repair [
    | none ↦ error_access_denied
    | some (status, repaired) ↦
        if not (status == error_success)
        then status
        else final_status (check_once well_known worker purpose repaired)
  ]
]
