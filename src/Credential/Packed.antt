-- ===== src/Credential/Packed.antt =====
-- What can be read of the blob of windows/credential_provider/LigamentCredential.cpp.
use ligament_apps.Common.{
  ℕ, zero, suc, ◌+◌, ◌*◌, ◌≤◌, ◌<◌, ◌≡◌, refl, sym, ap, ◌∙◌, inl, inr, Bool, true, false, ◌||◌,
  List, [], ◌∷◌, ◌++◌, arith, ltb, Bool-cases, length, take, drop, empty,
}
use mathlib.Core.List.{append_assoc, append-nil}
use mathlib.Core.Path.{subst}
use ligament_apps.Common.Lists.{length-append, take-append, drop-length, take-length}
use ligament_apps.Common.Text.{Text}
use ligament_apps.Credential.Pack.{
  MachineAndDomain, get_machine_and_domain, get_plain_password, get_negotiate_auth_package,
  effective_domain, bytes_of, byte_count, ushort, UnicodeString, Blob, PackResult, zeros, blob_of,
  PackHost, target_domain, kerb_interactive_logon_pack,
}

-- The bytes that a string of the blob points to.
abbrev pub bytes_at : Blob → UnicodeString → List ℕ
bytes_at blob u = take u.size (drop u.offset blob.buffer)

length-bytes_of : (s : Text) → length (bytes_of s) ≡ length s * 2
length-bytes_of [] = omega arith
length-bytes_of (c ∷ s) = omega (arith, length-bytes_of s)

length-zeros : (n : ℕ) → length (zeros n) ≡ n
length-zeros zero = refl
length-zeros (suc n) = ap suc (length-zeros n)

slice :
    (front mid back : List ℕ) (n m : ℕ)
    → length front ≡ n
    → length mid ≡ m
    → take m (drop n (front ++ (mid ++ back))) ≡ mid
slice front mid back n m e f =
    subst (λ k. take m (drop k (front ++ (mid ++ back))) ≡ mid) e
      (ap (take m) (drop-length front (mid ++ back))
        ∙ subst (λ k. take k (mid ++ back) ≡ mid) f (take-append mid back))

-- A text whose size in bytes is a DWORD.
whole : (s : Text) → length s < 2147483648 → take (byte_count s) (bytes_of s) ≡ bytes_of s
whole s l = take-length (byte_count s) (bytes_of s) (omega (arith, length-bytes_of s, l))

-- Read at this place, a text whose size fits in 16 bits is whole.
ushort_lem : (n : ℕ) → n ≤ 0xffff → ushort n ≡ n
ushort_lem n h = omega (arith, h)

module _ (header : ℕ) (is_unlock : Bool) (pkg : ℕ) (domain user plain : Text)
    (ld : length domain < 2147483648) (lu : length user < 2147483648)
    (lp : length plain < 2147483648) (sd : byte_count domain ≤ 0xffff)
    (su : byte_count user ≤ 0xffff) (sp : byte_count plain ≤ 0xffff) where
  abbrev made_blob : Blob
  made_blob = blob_of header is_unlock pkg domain user plain

  buffer_lem :
      made_blob.buffer ≡ zeros header ++ (bytes_of domain ++ (bytes_of user ++ bytes_of plain))
  unfolding blob_of
  buffer_lem = rw (whole domain ld, whole user lu, whole plain lp) refl

  domain_at : bytes_at made_blob made_blob.domain_name ≡ bytes_of domain
  unfolding blob_of
  domain_at =
      ap (λ m. take m (drop header made_blob.buffer)) (ushort_lem (byte_count domain) sd)
      ∙ ap (λ b. take (byte_count domain) (drop header b)) buffer_lem
      ∙ slice (zeros header) (bytes_of domain) (bytes_of user ++ bytes_of plain) header
          (byte_count domain) (length-zeros header) (omega (arith, length-bytes_of domain, ld))

  user_at : bytes_at made_blob made_blob.user_name ≡ bytes_of user
  unfolding blob_of
  user_at =
      ap (λ m. take m (drop (header + byte_count domain) made_blob.buffer))
        (ushort_lem (byte_count user) su)
      ∙ ap (λ b. take (byte_count user) (drop (header + byte_count domain) b))
          (buffer_lem
            ∙ sym (append_assoc (zeros header) (bytes_of domain) (bytes_of user ++ bytes_of plain)))
      ∙ slice (zeros header ++ bytes_of domain) (bytes_of user) (bytes_of plain)
          (header + byte_count domain) (byte_count user)
          (omega (
            arith,
            length-append (zeros header) (bytes_of domain),
            length-zeros header,
            length-bytes_of domain,
            ld,
          ))
          (omega (arith, length-bytes_of user, lu))

  password_at : bytes_at made_blob made_blob.password ≡ bytes_of plain
  unfolding blob_of
  password_at =
      ap (λ m. take m (drop (header + byte_count domain + byte_count user) made_blob.buffer))
        (ushort_lem (byte_count plain) sp)
      ∙ ap (λ b. take (byte_count plain) (drop (header + byte_count domain + byte_count user) b))
          (buffer_lem
            ∙ sym (append_assoc (zeros header) (bytes_of domain) (bytes_of user ++ bytes_of plain))
            ∙ sym (append_assoc (zeros header ++ bytes_of domain) (bytes_of user) (bytes_of plain))
            ∙ ap ((zeros header ++ bytes_of domain ++ bytes_of user) ++◌)
                (sym (append-nil (bytes_of plain))))
      ∙ slice (zeros header ++ bytes_of domain ++ bytes_of user) (bytes_of plain) []
          (header + byte_count domain + byte_count user) (byte_count plain)
          (omega (
            arith,
            length-append (zeros header ++ bytes_of domain) (bytes_of user),
            length-append (zeros header) (bytes_of domain),
            length-zeros header,
            length-bytes_of domain,
            length-bytes_of user,
            ld,
            lu,
          ))
          (omega (arith, length-bytes_of plain, lp))

  maximum_lem :
      (made_blob.domain_name.maximum ≡ made_blob.domain_name.size)
      × (made_blob.user_name.maximum ≡ made_blob.user_name.size)
      × (made_blob.password.maximum ≡ made_blob.password.size)
  unfolding blob_of
  maximum_lem = (refl, refl, refl)

  size_lem :
      header + byte_count domain + byte_count user + byte_count plain < 4294967296
      → made_blob.serialization_size ≡ length made_blob.buffer
  unfolding blob_of
  size_lem l = omega (
    arith,
    l,
    ap (λ (b : List ℕ). length b) buffer_lem,
    length-append (zeros header) (bytes_of domain ++ (bytes_of user ++ bytes_of plain)),
    length-append (bytes_of domain) (bytes_of user ++ bytes_of plain),
    length-append (bytes_of user) (bytes_of plain),
    length-zeros header,
    length-bytes_of domain,
    length-bytes_of user,
    length-bytes_of plain,
    ld,
    lu,
    lp,
  )

-- A reader of the blob finds the three texts, each string has the room that it fills, the whole blob is
-- told to Windows, and its domain is not blank.
pub record ReadsBack (domain user plain : Text) (blob : Blob) : Type 0 where
  pub domain_read : bytes_at blob blob.domain_name ≡ bytes_of domain
  pub user_read : bytes_at blob blob.user_name ≡ bytes_of user
  pub password_read : bytes_at blob blob.password ≡ bytes_of plain
  pub no_room_left :
      (blob.domain_name.maximum ≡ blob.domain_name.size)
      × (blob.user_name.maximum ≡ blob.user_name.size)
      × (blob.password.maximum ≡ blob.password.size)
  pub size_whole : blob.serialization_size ≡ length blob.buffer
  pub domain_full : empty domain ≡ false

effective_domain-full :
    (m : MachineAndDomain) (is_local : Text → Bool) (domain user : Text)
    → empty (effective_domain m is_local domain user) ≡ false
unfolding effective_domain
effective_domain-full m is_local domain user = ground arith

abbrev blob_in : Blob → PackResult → Blob
blob_in other (PackResult.packed blob) = blob
blob_in other _ = other

abbrev is_packed : PackResult → Bool
is_packed (PackResult.packed blob) = true
is_packed _ = false

is_too_long : Text → Text → Text → Bool
is_too_long domain user plain =
    ltb 0xffff (byte_count domain) || ltb 0xffff (byte_count user) || ltb 0xffff (byte_count plain)

module _ (h : PackHost) (is_unlock : Bool) (domain user password : Text) where
  abbrev target : Text
  target = target_domain h domain user

  abbrev plain_password : Text
  plain_password = get_plain_password h.protection password

  abbrev result : PackResult
  result = kerb_interactive_logon_pack h is_unlock domain user password

  packed_blob :
      (blob : Blob)
      → result ≡ PackResult.packed blob
      → (is_too_long target user plain_password ≡ false)
        × (blob_of h.header is_unlock
              (get_negotiate_auth_package h.connected h.lookups h.packages).0
              target
              user
              plain_password
            ≡ blob)
  unfolding kerb_interactive_logon_pack is_too_long
  packed_blob blob e =
      elim (Bool-cases (
        ltb 0xffff (byte_count target)
        || ltb 0xffff (byte_count user)
        || ltb 0xffff (byte_count plain_password))) [
          | inl long ↦ absurd (not_packed (rw (long, kerb_interactive_logon_pack) refl) e)
          | inr short ↦ elim (Bool-cases h.allocated) [
            | inr a ↦ absurd (not_packed (rw (short, a, kerb_interactive_logon_pack) refl) e)
            | inl a ↦
                elim (Bool-cases
                  (get_negotiate_auth_package h.connected h.lookups h.packages).1.auth_pkg_valid) [
                    | inr v ↦
                        absurd (not_packed (rw (short, a, v, kerb_interactive_logon_pack) refl) e)
                    | inl v ↦
                        let made : result
                            ≡ PackResult.packed (
                                blob_of h.header is_unlock
                                  (get_negotiate_auth_package h.connected h.lookups h.packages).0
                                  target user plain_password) =
                          rw (short, a, v, kerb_interactive_logon_pack) refl in
                        (short, ap (blob_in blob) (sym made ∙ e))
                  ]
          ]
        ]
    where
      not_packed : is_packed result ≡ false → result ≡ PackResult.packed blob → ⊥
      not_packed k e = let c : false ≡ true = sym k ∙ ap is_packed e in cc

-- Of a blob that KerbInteractiveLogonPack makes of a domain, a user and a password of less than 2
-- ^ 31 units each and with a structure of less than 2 ^ 31 bytes, the offsets and the 16-bit
-- lengths read back the domain that the logon goes to, the user's name and the plain password,
-- each maximum is its length, the size that is told to Windows is that of the buffer, and that
-- domain is not blank.
pub kerb_interactive_logon_pack-ReadsBack :
    (h : PackHost) (is_unlock : Bool) (domain user password : Text) (blob : Blob)
    → length (target_domain h domain user) < 2147483648
    → length user < 2147483648
    → length (get_plain_password h.protection password) < 2147483648
    → h.header < 2147483648
    → kerb_interactive_logon_pack h is_unlock domain user password ≡ PackResult.packed blob
    → ReadsBack (target_domain h domain user) user (get_plain_password h.protection password) blob
unfolding is_too_long
kerb_interactive_logon_pack-ReadsBack h is_unlock domain user password blob ld lu lp lh e =
    let q = packed_blob h is_unlock domain user password blob e in
    let sd : byte_count (target_domain h domain user) ≤ 0xffff = ground (arith, q.0) in
    let su : byte_count user ≤ 0xffff = ground (arith, q.0) in
    let sp : byte_count (get_plain_password h.protection password) ≤ 0xffff = ground (arith, q.0) in
    let goal =
      ReadsBack (target_domain h domain user) user (get_plain_password h.protection password) in
    subst goal q.1 (record {
      domain_read = domain_at _ _ _ _ _ _ ld lu lp sd su sp;
      user_read = user_at _ _ _ _ _ _ ld lu lp sd su sp;
      password_read = password_at _ _ _ _ _ _ ld lu lp sd su sp;
      no_room_left = maximum_lem _ _ _ _ _ _ ld lu lp sd su sp;
      size_whole = size_lem _ _ _ _ _ _ ld lu lp sd su sp (ground (arith, q.0, lh));
      domain_full = effective_domain-full (get_machine_and_domain h.network) h.is_local domain user;
    })
