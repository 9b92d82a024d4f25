-- ===== src/Credential/Pack.antt =====
-- `KerbInteractiveLogonPack` of windows/credential_provider/LigamentCredential.cpp, with the functions
-- that it calls there: the blob that a logon hands to Windows. The names of the machine, the accounts,
-- the protection of passwords and the LSA are parameters. A text is its UTF-16 units.
use ligament_apps.Common.{
  ℕ, zero, suc, ◌+◌, ◌*◌, ◌/◌, ◌%◌, ◌^◌, Bool, true, false, ◌&&◌, ◌||◌, Option, none, some, List,
  [], ◌∷◌, ◌++◌, ltb, ◌==◌, if◌then◌else◌, not, length, take, empty,
}
use ligament_apps.Common.Text.{Text, codes, eq_text}

-- `GetComputerNameW`, `GetComputerNameExW`, and `NetGetJoinInformation`: whether the status is that of
-- a domain's member, and the name.
pub record Network : Type 0 where
  pub computer_name : Option Text
  pub computer_name_ex : Option Text
  pub join : Option (Bool × Option Text)

pub record MachineAndDomain : Type 0 where
  pub net_bios : Text
  pub joined_domain : Text
  pub is_domain_joined : Bool

abbrev given : Option Text → Text
given none = []
given (some s) = s

unfoldable pub get_machine_and_domain : Network → MachineAndDomain
get_machine_and_domain n =
    let unjoined : MachineAndDomain = record {
      net_bios =
          if empty (given n.computer_name) then given n.computer_name_ex else given n.computer_name;
      joined_domain = [];
      is_domain_joined = false;
    } in
    elim n.join [
      | some (true, some name) ↦ record unjoined { joined_domain = name; is_domain_joined = true }
      | _ ↦ unjoined
    ]

-- The calls of the credential protection on a password: whether it is protected, the room that its
-- plain text needs, whether that is allocated, and the plain text.
pub record Protection : Type 0 where
  pub is_protected : Text → Bool
  pub needed : Text → Option ℕ
  pub allocated : Bool
  pub unprotected : Text → Option Text

abbrev needs_room : Option ℕ → Bool
needs_room none = false
needs_room (some n) = ltb 0 n

unfoldable pub get_plain_password : Protection → Text → Text
get_plain_password p pass =
    if empty pass
    then []
    else if p.is_protected pass && needs_room (p.needed pass) && p.allocated
    then elim (p.unprotected pass) [ some plain ↦ plain | none ↦ pass ]
    else pass

-- The static variables of `GetNegotiateAuthPackage`.
pub record Packages : Type 0 where
  pub resolved : Bool
  pub auth_pkg_id : ℕ
  pub auth_pkg_valid : Bool

-- The loop over the packages' names, by the status and the id that each lookup gives.
first_package : List (ℕ × ℕ) → Option ℕ
first_package [] = none
first_package ((status, id) ∷ lookups) = if status == 0 then some id else first_package lookups

unfoldable pub get_negotiate_auth_package : Bool → List (ℕ × ℕ) → Packages → ℕ × Packages
unfolding first_package
get_negotiate_auth_package connected lookups p =
    if p.resolved || not connected then (p.auth_pkg_id, p) else elim (first_package lookups) [
      | some id ↦ (id, record { resolved = true; auth_pkg_id = id; auth_pkg_valid = true })
      | none ↦ (0, record p { resolved = p.auth_pkg_valid; auth_pkg_id = 0 })
    ]

-- The domain that a logon goes to. `is_local` is whether `NetUserGetInfo` finds the user.
unfoldable pub effective_domain : MachineAndDomain → (Text → Bool) → Text → Text → Text
effective_domain m is_local domain user =
    let asked =
      if eq_text domain (codes ".") || eq_text domain (codes "\\") then m.net_bios else domain in
    let found =
      if not (empty asked)
      then asked
      else if m.is_domain_joined
      then (if is_local user then m.net_bios else m.joined_domain)
      else m.net_bios in
    if not (empty found) then found else if empty m.net_bios then codes "." else m.net_bios

-- The bytes of a text, the low byte of each unit first.
abbrev pub bytes_of : Text → List ℕ
bytes_of [] = []
bytes_of (c ∷ s) = c % 256 ∷ c / 256 ∷ bytes_of s

-- `(DWORD)(s.length() * sizeof(wchar_t))`.
abbrev pub byte_count : Text → ℕ
byte_count s = (length s * 2) % 2 ^ 32

-- A `UNICODE_STRING` whose buffer is an offset.
pub record UnicodeString : Type 0 where
  pub size : ℕ
  pub maximum : ℕ
  pub offset : ℕ

-- The blob: what its structure says, the structure's room of zeros with the texts behind it, and what
-- is told to Windows of it.
pub record Blob : Type 0 where
  pub is_unlock : Bool
  pub domain_name : UnicodeString
  pub user_name : UnicodeString
  pub password : UnicodeString
  pub buffer : List ℕ
  pub serialization_size : ℕ
  pub pkg : ℕ

pub data PackResult : Type 0 where
  invalid_argument out_of_memory failed : PackResult
  packed : (blob : Blob) → PackResult

abbrev pub zeros : ℕ → List ℕ
zeros zero = []
zeros (suc n) = 0 ∷ zeros n

-- `(USHORT)` of a number of bytes.
abbrev pub ushort : ℕ → ℕ
ushort n = n % 2 ^ 16

-- Where a text of so many bytes stands.
abbrev placed : ℕ → ℕ → UnicodeString
placed size offset = record { size = ushort size; maximum = ushort size; offset = offset }

-- The blob of three texts, behind a structure of `header` bytes.
unfoldable pub blob_of : ℕ → Bool → ℕ → Text → Text → Text → Blob
blob_of header is_unlock pkg domain user plain = record {
  is_unlock = is_unlock;
  domain_name = placed (byte_count domain) header;
  user_name = placed (byte_count user) (header + byte_count domain);
  password = placed (byte_count plain) (header + byte_count domain + byte_count user);
  buffer =
      zeros header
      ++ (take (byte_count domain) (bytes_of domain)
          ++ (take (byte_count user) (bytes_of user) ++ take (byte_count plain) (bytes_of plain)));
  serialization_size = (header + byte_count domain + byte_count user + byte_count plain) % 2 ^ 32;
  pkg = pkg;
}

-- The surroundings of a call: `header` is the size of `KERB_INTERACTIVE_UNLOCK_LOGON`.
pub record PackHost : Type 0 where
  pub network : Network
  pub is_local : Text → Bool
  pub protection : Protection
  pub header : ℕ
  pub allocated : Bool
  pub connected : Bool
  pub lookups : List (ℕ × ℕ)
  pub packages : Packages

abbrev pub target_domain : PackHost → Text → Text → Text
target_domain h domain user =
    effective_domain (get_machine_and_domain h.network) h.is_local domain user

unfoldable pub kerb_interactive_logon_pack : PackHost → Bool → Text → Text → Text → PackResult
unfolding get_machine_and_domain effective_domain get_plain_password get_negotiate_auth_package
    blob_of
kerb_interactive_logon_pack h is_unlock domain user password =
    let target = target_domain h domain user in
    let plain = get_plain_password h.protection password in
    let (pkg, packages) = get_negotiate_auth_package h.connected h.lookups h.packages in
    if ltb 0xffff (byte_count target)
      || ltb 0xffff (byte_count user)
      || ltb 0xffff (byte_count plain)
    then invalid_argument
    else if not h.allocated
    then out_of_memory
    else if not packages.auth_pkg_valid
    then failed
    else packed (blob_of h.header is_unlock pkg target user plain)
