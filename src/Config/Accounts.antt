-- ===== src/Config/Accounts.antt =====
-- The list of accounts after `LoadFromRegistry` of windows/credential_provider/common.h.
use ligament_apps.Common.{
  ℕ, zero, suc, ◌+◌, ◌-◌, ◌<◌, ◌≡◌, refl, sym, ap, ◌≢◌, inl, inr, Bool, true, false, Option, none,
  some, List, [], ◌∷◌, arith, not, Option-cases, length, take, drop, any, all,
}
use mathlib.Core.Path.{subst}
use ligament_apps.Common.Text.{Text, codes, find_if, find_last_if, find_if_lt}
use ligament_apps.Common.Lists.{length-drop}
use ligament_apps.Config.{Config, default_config, CrackUrl, trimmed, is_blank}
use ligament_apps.Config.Load.{
  Key, load_from_registry, read_accounts, check_url, read_values, is_separator, split_items,
  trim_items, read_string,
}

-- An account that the list can hold: not empty, with no separator inside.
abbrev pub IsAccount : Text → Type 0
IsAccount s = (s ≢ []) × (any is_separator s ≡ false)

abbrev pub AllAccounts : List Text → Type 0
AllAccounts [] = Unit
AllAccounts (s ∷ ss) = IsAccount s × AllAccounts ss

any-take : (p : ℕ → Bool) (n : ℕ) (s : Text) → any p s ≡ false → any p (take n s) ≡ false
any-take p zero s h = refl
any-take p (suc n) [] h = refl
any-take p (suc n) (c ∷ s) h = ground (arith, any-take p n s)

any-drop : (p : ℕ → Bool) (n : ℕ) (s : Text) → any p s ≡ false → any p (drop n s) ≡ false
any-drop p zero s h = h
any-drop p (suc n) [] h = refl
any-drop p (suc n) (c ∷ s) h = ground (arith, any-drop p n s)

add_one : (n : ℕ) → n + 1 ≡ suc n
add_one n = omega arith

take_suc : (n : ℕ) (c : ℕ) (s : Text) → take (n + 1) (c ∷ s) ≡ c ∷ take n s
take_suc n c s = ap (λ m. take m (c ∷ s)) (add_one n)

take-nonempty : (n : ℕ) (s : Text) → 0 < length s → take (n + 1) s ≢ []
take-nonempty n [] h = absurd (omega arith)
take-nonempty n (c ∷ s) h = ground (arith, take_suc n c s)

trimmed-IsAccount : (s t : Text) → any is_separator s ≡ false → trimmed s ≡ some t → IsAccount t
unfolding trimmed
trimmed-IsAccount s t h e = elim (Option-cases (find_if (λ c. not (is_blank c)) s)) [
  | inl absent ↦ ground (arith, absent)
  | inr (i, first) ↦ elim (Option-cases (find_last_if (λ c. not (is_blank c)) s)) [
    | inl absent ↦ ground (arith, first, absent)
    | inr (j, last) ↦ ground (
      arith,
      first,
      last,
      find_if_lt (λ c. not (is_blank c)) s i first,
      length-drop i s,
      take-nonempty (j - i) (drop i s),
      any-take is_separator (j - i + 1) (drop i s),
      any-drop is_separator i s h,
    )
  ]
]

trim_items_blank :
    (s : Text) (items : List Text) → trimmed s ≡ none → trim_items (s ∷ items) ≡ trim_items items
unfolding trim_items
trim_items_blank s items e = ground (arith, e)

trim_items-some :
    (s t : Text) (items : List Text)
    → trimmed s ≡ some t
    → trim_items (s ∷ items) ≡ t ∷ trim_items items
unfolding trim_items
trim_items-some s t items e = ground (arith, e)

trim_items-AllAccounts :
    (items : List Text)
    → all (λ s. not (any is_separator s)) items ≡ true
    → AllAccounts (trim_items items)
trim_items-AllAccounts [] h = unfold trim_items in tt
trim_items-AllAccounts (s ∷ items) h = elim (Option-cases (trimmed s)) [
  | inl e ↦
      subst AllAccounts (sym (trim_items_blank s items e))
        (trim_items-AllAccounts items (ground arith))
  | inr (t, e) ↦
      subst AllAccounts (sym (trim_items-some s t items e))
        (trimmed-IsAccount s t (ground arith) e, trim_items-AllAccounts items (ground arith))
]

split_items-separated : (s : Text) → all (λ t. not (any is_separator t)) (split_items s) ≡ true
unfolding split_items
split_items-separated [] = refl
split_items-separated (c ∷ s) = ground (arith, split_items-separated s)

read_accounts-AllAccounts :
    (policy local_key : Option Key) (cfg : Config)
    → AllAccounts cfg.bypass_accounts
    → AllAccounts (read_accounts policy local_key cfg).bypass_accounts
unfolding read_accounts
read_accounts-AllAccounts policy local_key cfg h =
    elim (read_string policy local_key (codes "BypassAccounts"))
      as (λ r.
        AllAccounts
          (elim r as (λ _. Config) [
            | none ↦ cfg
            | some raw ↦ record cfg { bypass_accounts = trim_items (split_items raw) }
          ]).bypass_accounts) [
            | none ↦ h
            | some raw ↦ trim_items-AllAccounts (split_items raw) (split_items-separated raw)
          ]

check_url-accounts :
    (crack : CrackUrl) (cfg : Config) → (check_url crack cfg).bypass_accounts ≡ cfg.bypass_accounts
unfolding check_url
check_url-accounts crack cfg = ground arith

-- No account of a loaded configuration is empty or holds a semicolon, a vertical bar or a comma.
pub load_from_registry-AllAccounts :
    (crack : CrackUrl) (policy local_key : Option Key)
    → AllAccounts (load_from_registry crack policy local_key).bypass_accounts
unfolding load_from_registry read_values default_config
load_from_registry-AllAccounts crack policy local_key =
    read_accounts-AllAccounts policy local_key (check_url crack (read_values policy local_key))
      (subst AllAccounts (sym (check_url-accounts crack (read_values policy local_key))) tt)
