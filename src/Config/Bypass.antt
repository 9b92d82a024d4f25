-- ===== src/Config/Bypass.antt =====
-- `Config::IsBypassAccount` of windows/credential_provider/common.h: the accounts that log on
-- without a second factor.
use ligament_apps.Common.{
  ℕ, suc, ◌≡◌, Bool, true, false, ◌||◌, ◌&&◌, none, some, List, [], ◌∷◌, ◌++◌, ◌==◌, if◌then◌else◌,
  take, drop, length, not, empty, any, arith, ltb, ◌≢◌,
}
use ligament_apps.Common.Text.{Text, find_if, find_last_if, eq_icase, eq_icase_refl}
use ligament_apps.Config.{Config}

abbrev pub backslash : ℕ
backslash = b'\\'

-- A name without what stands before its last `\` or `/`, and whether there was such a part.
after_slash : Text → Text × Bool
after_slash s = elim (find_last_if (λ c. c == backslash || c == b'/') s) [
  | none ↦ (s, false)
  | some i ↦ if ltb (suc i) (length s) then (drop (suc i) s, true) else (s, false)
]

-- A name without what stands behind its first `@`, and whether there was one.
before_at : Text → Text × Bool
before_at s = elim (find_if (λ c. c == b'@') s) [ none ↦ (s, false) | some i ↦ (take i s, true) ]

raw_user : Text → Text × Bool
raw_user username =
    let (user, slashed) = after_slash username in
    let (bare, had_at) = before_at user in (bare, slashed || had_at)

-- One round of the loop over the list.
unfoldable pub matches_account : (ℕ → ℕ) → Text → Text → Text × Bool → Text → Bool
unfolding eq_icase
matches_account fold username domain (user, had_domain) acc =
    eq_icase fold acc username
    || (not had_domain && eq_icase fold acc user
        || not (empty domain)
          && (eq_icase fold acc (domain ++ backslash ∷ user)
              || eq_icase fold acc (user ++ b'@' ∷ domain)))

unfoldable pub is_bypass_account : (ℕ → ℕ) → Config → Text → Text → Bool
unfolding raw_user after_slash before_at matches_account
is_bypass_account fold cfg username domain =
    if empty username || empty cfg.bypass_accounts
    then false
    else any (matches_account fold username domain (raw_user username)) cfg.bypass_accounts

matches_account_self :
    (fold : ℕ → ℕ) (username domain : Text) (parts : Text × Bool)
    → matches_account fold username domain parts username ≡ true
unfolding matches_account
matches_account_self fold username domain parts = rw (eq_icase_refl fold username)

-- The whitelist matches a listed name, whatever domain is given beside it.
any-matches_account :
    (fold : ℕ → ℕ) (username domain : Text) (parts : Text × Bool) (before after : List Text)
    → any (matches_account fold username domain parts) (before ++ username ∷ after) ≡ true
any-matches_account fold username domain parts [] after =
    ground (arith, matches_account_self fold username domain parts)
any-matches_account fold username domain parts (x ∷ before) after =
    ground (arith, any-matches_account fold username domain parts before after)

pub is_bypass_account_listed :
    (fold : ℕ → ℕ) (cfg : Config) (username domain : Text) (before after : List Text)
    → username ≢ []
    → cfg.bypass_accounts ≡ before ++ username ∷ after
    → is_bypass_account fold cfg username domain ≡ true
unfolding is_bypass_account
is_bypass_account_listed fold cfg username domain before after named listed =
    ground (arith, any-matches_account fold username domain (raw_user username) before after)
