-- ===== src/Credential/Buttons.antt =====
-- The two buttons of the tile: what they say and what a click on them does.
use ligament_apps.Common.{
  ◌≡◌, refl, ◌⊎◌, inl, inr, true, false, ◌&&◌, arith, if◌then◌else◌, not, Bool-cases,
}
use ligament_apps.Credential.{Factor, fido2, push, otp, Credential, denied}
use ligament_apps.Common.Text.{Text, codes}
use ligament_apps.Credential.Thread.{Host, start_worker_job, post_job}
use ligament_apps.Credential.Tile.{
  FieldId, is_fido2, fido2_btn, switch_factor_btn, fido2_allowed, same_factor, command_link_clicked,
  switch_to_mode, show_mode, trigger_fido2_auth,
}
use ligament_apps.Credential.Kept.{show_mode-mode, stop_poll_thread_lem}
use ligament_apps.Credential.View.{
  get_field_state, get_string_value, button1_caption, button2_caption,
}

trigger_fido2_auth-mode :
    (host : Host) (c : Credential) → (trigger_fido2_auth host c).current_mode ≡ c.current_mode
unfolding trigger_fido2_auth start_worker_job post_job
trigger_fido2_auth-mode host c = ground (arith, stop_poll_thread_lem host.answers c)

same_factor_lem : (a b : Factor) → same_factor a b ≡ true → a ≡ b
same_factor_lem fido2 fido2 h = refl
same_factor_lem fido2 push h = cc
same_factor_lem fido2 otp h = cc
same_factor_lem push fido2 h = cc
same_factor_lem push push h = refl
same_factor_lem push otp h = cc
same_factor_lem otp fido2 h = cc
same_factor_lem otp push h = cc
same_factor_lem otp otp h = refl

switch_to_mode-mode :
    (host : Host) (mode : Factor) (c : Credential)
    → (switch_to_mode host mode c).current_mode
      ≡ (if is_fido2 mode && not (fido2_allowed c) then c.current_mode else mode)
unfolding switch_to_mode
switch_to_mode-mode host mode c = ground (
  arith,
  show_mode-mode host mode c,
  same_factor_lem c.current_mode mode,
  trigger_fido2_auth-mode host (show_mode host mode c),
)

-- The caption that a button to a factor has.
abbrev pub caption : Factor → Text
caption fido2 = codes "📱 Войти по Passkey (QR-код)"
caption push = codes "📲 Войти через Push в приложение"
caption otp = codes "🔑 Войти по коду TOTP / YubiKey"

-- The button is shown, its caption is that of the factor that a click leads to, and that is another
-- one; or it is hidden, and a click on it does nothing.
abbrev pub IsHonest : Host → (Text → Text) → Text → FieldId → Credential → Type 0
IsHonest host to_wide pc button c =
    (((get_field_state button c).is_shown ≡ true)
      × (get_string_value to_wide pc button c
          ≡ caption (command_link_clicked host button c).current_mode)
      × (same_factor c.current_mode (command_link_clicked host button c).current_mode ≡ false))
    ⊎ (((get_field_state button c).is_shown ≡ false) × (command_link_clicked host button c ≡ c))

switch_hidden :
    (host : Host) (c : Credential) → fido2_allowed c ≡ false → switch_to_mode host fido2 c ≡ c
unfolding switch_to_mode
switch_hidden host c h = ground (arith, h)

module _ (host : Host) (to_wide : Text → Text) (pc : Text) (c : Credential) where
  button1 : (mode : Factor) → c.current_mode ≡ mode → IsHonest host to_wide pc fido2_btn c
  unfolding get_field_state get_string_value button1_caption command_link_clicked
  button1 fido2 e = inl (
    ground (arith, e),
    ground (arith, e, switch_to_mode-mode host push c),
    ground (arith, e, switch_to_mode-mode host push c),
  )
  button1 push e = elim (Bool-cases (fido2_allowed c)) [
    | inl allowed ↦ inl (
      ground (arith, e, allowed),
      ground (arith, e, allowed, switch_to_mode-mode host fido2 c),
      ground (arith, e, allowed, switch_to_mode-mode host fido2 c),
    )
    | inr denied ↦ inr (ground (arith, e, denied), ground (arith, e, switch_hidden host c denied))
  ]
  button1 otp e = inl (
    ground (arith, e),
    ground (arith, e, switch_to_mode-mode host push c),
    ground (arith, e, switch_to_mode-mode host push c),
  )

  button2 : (mode : Factor) → c.current_mode ≡ mode → IsHonest host to_wide pc switch_factor_btn c
  unfolding get_field_state get_string_value button2_caption command_link_clicked
  button2 fido2 e = inl (
    ground (arith, e),
    ground (arith, e, switch_to_mode-mode host otp c),
    ground (arith, e, switch_to_mode-mode host otp c),
  )
  button2 push e = inl (
    ground (arith, e),
    ground (arith, e, switch_to_mode-mode host otp c),
    ground (arith, e, switch_to_mode-mode host otp c),
  )
  button2 otp e = elim (Bool-cases (fido2_allowed c)) [
    | inl allowed ↦ inl (
      ground (arith, e, allowed),
      ground (arith, e, allowed, switch_to_mode-mode host fido2 c),
      ground (arith, e, allowed, switch_to_mode-mode host fido2 c),
    )
    | inr denied ↦ inr (ground (arith, e, denied), ground (arith, e, switch_hidden host c denied))
  ]

-- Each of the two buttons of the tile is shown, bears the caption of the factor that a click on it
-- leads to, and that is not the present one; or it is hidden, and a click on it changes nothing.
pub buttons-IsHonest :
    (host : Host) (to_wide : Text → Text) (pc : Text) (c : Credential)
    → IsHonest host to_wide pc fido2_btn c × IsHonest host to_wide pc switch_factor_btn c
buttons-IsHonest host to_wide pc c =
    (button1 host to_wide pc c c.current_mode refl, button2 host to_wide pc c c.current_mode refl)
