-- ===== src/Watchdog/Absent.antt =====
-- When the loop of windows/service/service.cpp starts the application in a session.
use ligament_apps.Common.{
  ℕ, suc, ◌+◌, ◌-◌, ◌%◌, ◌^◌, ◌≤◌, ◌<◌, ◌≡◌, refl, ap, ◌∙◌, ◌≢◌, ◌↔◌, ◌⊎◌, inl, inr, Bool, true,
  false, ◌&&◌, ◌||◌, none, some, List, [], ◌∷◌, ◌++◌, arith, ltb, ◌==◌, not, Bool-cases,
  Option-cases, length, take, empty, any,
}
use mathlib.Core.Path.{subst}
use ligament_apps.Common.Lists.{length-append}
use ligament_apps.Common.Text.{Text, codes, eq_icase, find_last_if}
use ligament_apps.Watchdog.{Session, Watchdog, visit, elapsed, relaunch_cooldown}
use ligament_apps.Watchdog.Service.{
  Process, Machine, app_exe, installed_app_path, is_installed_app, app_running_in_session,
  seen_session,
}

-- The process is the application beside the service, in this session, and Windows opens it and tells
-- its image.
pub record IsClient (m : Machine) (dir : Text) (id : ℕ) (p : Process) : Type 0 where
  pub is_named : eq_icase m.fold p.exe_file (codes "ligament_authenticator.exe") ≡ true
  pub in_place : p.session ≡ some id
  pub image : Text
  pub told : p.image_path ≡ some image
  pub is_beside : eq_icase m.fold image (dir ++ 92 ∷ codes "ligament_authenticator.exe") ≡ true

abbrev pub AreOthers : Machine → Text → ℕ → List Process → Type 0
AreOthers m dir id [] = Unit
AreOthers m dir id (p ∷ ps) = (¬ IsClient m dir id p) × AreOthers m dir id ps

-- The session is one of a user, no launch in it is recent, and the list of the processes is there, with
-- none that is known as the client.
pub record IsDue (m : Machine) (dir : Text) (id : ℕ) (is_active : Bool) (now : ℕ) (w : Watchdog)
    : Type 0 where
  pub active : is_active ≡ true
  pub of_user : id ≢ 0
  pub cooled : (w.last_launch id ≡ 0) ⊎ (60000 ≤ (now + 2 ^ 64 - w.last_launch id) % 2 ^ 64)
  pub processes : List Process
  pub listed : m.snapshot ≡ some processes
  pub others : AreOthers m dir id processes

abbrev is_slash : ℕ → Bool
is_slash c = c == 92

no_slash : (name : Text) → any is_slash name ≡ false → find_last_if is_slash name ≡ none
no_slash [] h = refl
no_slash (c ∷ name) h = ground (arith, h, no_slash name)

last_slash :
    (dir name : Text)
    → any is_slash name ≡ false
    → find_last_if is_slash (dir ++ 92 ∷ name) ≡ some (length dir)
last_slash [] name h = rw (no_slash name h) refl
last_slash (c ∷ dir) name h = rw (last_slash dir name h) refl

take_dir_suc : (dir name : Text) → take (suc (length dir)) (dir ++ 92 ∷ name) ≡ dir ++ 92 ∷ []
take_dir_suc [] name = refl
take_dir_suc (c ∷ dir) name = ap (c ∷◌) (take_dir_suc dir name)

take_dir : (dir name : Text) → take (length dir + 1) (dir ++ 92 ∷ name) ≡ dir ++ 92 ∷ []
take_dir dir name =
    let one_more : length dir + 1 ≡ suc (length dir) = omega arith in
    ap (λ n. take n (dir ++ 92 ∷ name)) one_more ∙ take_dir_suc dir name

beside : (dir : Text) → (dir ++ 92 ∷ []) ++ app_exe ≡ dir ++ 92 ∷ app_exe
beside [] = refl
beside (c ∷ dir) = ap (c ∷◌) (beside dir)

not_empty : (dir name : Text) → empty (dir ++ 92 ∷ name) ≡ false
not_empty [] name = refl
not_empty (c ∷ dir) name = refl

path_lem :
    (dir name : Text)
    → any is_slash name ≡ false
    → length (dir ++ 92 ∷ name) < 260
    → length dir + 27 < 260
    → installed_app_path (dir ++ 92 ∷ name) ≡ some (dir ++ 92 ∷ app_exe)
unfolding installed_app_path
path_lem dir name h l m = ground (
  arith,
  not_empty dir name,
  l,
  last_slash dir name h,
  take_dir dir name,
  beside dir,
  length-append dir (92 ∷ app_exe),
  m,
)

is_installed_app-IsClient :
    (m : Machine) (dir : Text) (id : ℕ) (p : Process)
    → is_installed_app m.fold (dir ++ 92 ∷ app_exe) id p ≡ true
    → IsClient m dir id p
unfolding is_installed_app
is_installed_app-IsClient m dir id p h = elim (Option-cases p.session) [
  | inl e ↦ absurd (ground (arith, h, e))
  | inr (n, e) ↦ elim (Option-cases p.image_path) [
    | inl f ↦ absurd (ground (arith, h, e, f))
    | inr (image, f) ↦ record {
      is_named = ground (arith, h, e, f);
      in_place = ground (arith, h, e, f);
      image = image;
      told = f;
      is_beside = ground (arith, h, e, f);
    }
  ]
]

IsClient-is_installed_app :
    (m : Machine) (dir : Text) (id : ℕ) (p : Process)
    → IsClient m dir id p
    → is_installed_app m.fold (dir ++ 92 ∷ app_exe) id p ≡ true
unfolding is_installed_app
IsClient-is_installed_app m dir id p c = ground (arith, c.is_named, c.in_place, c.told, c.is_beside)

any-AreOthers :
    (m : Machine) (dir : Text) (id : ℕ) (ps : List Process)
    → any (is_installed_app m.fold (dir ++ 92 ∷ app_exe) id) ps ≡ false
    → AreOthers m dir id ps
any-AreOthers m dir id [] h = tt
any-AreOthers m dir id (p ∷ ps) h = (
  λ c. ground (arith, h, IsClient-is_installed_app m dir id p c),
  any-AreOthers m dir id ps (ground (arith, h)),
)

AreOthers-any :
    (m : Machine) (dir : Text) (id : ℕ) (ps : List Process)
    → AreOthers m dir id ps
    → any (is_installed_app m.fold (dir ++ 92 ∷ app_exe) id) ps ≡ false
AreOthers-any m dir id [] o = refl
AreOthers-any m dir id (p ∷ ps) (not_p, o) =
    elim (Bool-cases (is_installed_app m.fold (dir ++ 92 ∷ app_exe) id p)) [
      | inl e ↦ absurd (not_p (is_installed_app-IsClient m dir id p e))
      | inr e ↦ ground (arith, e, AreOthers-any m dir id ps o)
    ]

longer : (x : ℕ × ℕ) (xs : List (ℕ × ℕ)) → xs ≢ x ∷ xs
longer x xs h = omega (arith, ap length h)

-- A visit launches the application exactly where the session is active, not 0, without the
-- application, and past the cooldown.
visit-launches :
    (s : Session) (w : Watchdog)
    → ((visit s w).launches ≡ (s.id, s.now) ∷ w.launches) ↔ (
        (s.is_active ≡ true)
        × (s.id ≢ 0)
        × (s.app_running ≡ false)
        × ((w.last_launch s.id ≡ 0) ⊎ (60000 ≤ (s.now + 2 ^ 64 - w.last_launch s.id) % 2 ^ 64)))
unfolding visit
visit-launches s w = elim (Bool-cases (not s.is_active || (s.id == 0 || s.app_running))) [
  | inl skipped ↦ (
    λ h. absurd (longer (s.id, s.now) w.launches (ground (arith, h, skipped))),
    λ (active, used, absent, cooled). absurd (ground (arith, skipped, active, used, absent)),
  )
  | inr due ↦
      elim (Bool-cases (
        not (w.last_launch s.id == 0)
        && ltb (elapsed s.now (w.last_launch s.id)) relaunch_cooldown)) [
          | inl early ↦ (
            λ h. absurd (longer (s.id, s.now) w.launches (ground (arith, h, due, early))),
            λ (active, used, absent, cooled). elim cooled [
              | inl z ↦ absurd (ground (arith, early, z))
              | inr l ↦ absurd (ground (arith, early, l))
            ],
          )
          | inr late ↦ (
            λ h. (
              ground (arith, due),
              ground (arith, due),
              ground (arith, due),
              elim (Bool-cases (w.last_launch s.id == 0)) [
                | inl z ↦ inl (ground (arith, z))
                | inr n ↦ inr (ground (arith, late, n))
              ],
            ),
            λ _. ground (arith, due, late),
          )
        ]
]

module _ (m : Machine) (dir name : Text) (id now : ℕ) (is_active : Bool) (w : Watchdog)
    (beside_it : m.exe_path ≡ dir ++ 92 ∷ name) (plain : any is_slash name ≡ false)
    (short : length m.exe_path < 260) (fits : length dir + 27 < 260) where
  abbrev with_app : Bool → Session
  with_app running = record { id = id; is_active = is_active; app_running = running; now = now }

  path_is : installed_app_path m.exe_path ≡ some (dir ++ 92 ∷ app_exe)
  path_is =
      ap installed_app_path beside_it
      ∙ path_lem dir name plain (subst (λ t. length t < 260) beside_it short) fits

  seen_unlisted : m.snapshot ≡ none → seen_session m id is_active now ≡ some (with_app true)
  unfolding seen_session app_running_in_session
  seen_unlisted e = ground (arith, path_is, not_empty dir app_exe, e)

  seen_listed :
      (ps : List Process)
      → m.snapshot ≡ some ps
      → seen_session m id is_active now
        ≡ some (with_app (any (is_installed_app m.fold (dir ++ 92 ∷ app_exe) id) ps))
  unfolding seen_session app_running_in_session
  seen_listed ps e = ground (arith, path_is, not_empty dir app_exe, e)

  seen_and_visited :
      (s : Session) × (seen_session m id is_active now ≡ some s)
      × (((visit s w).launches ≡ (id, now) ∷ w.launches) ↔ IsDue m dir id is_active now w)
  seen_and_visited = elim (Option-cases m.snapshot) [
    | inl e ↦ (
      with_app true,
      seen_unlisted e,
      (
        λ h. absurd (ground (arith, ((visit-launches (with_app true) w).0 h).2)),
        λ d. absurd (ground (arith, e, d.listed)),
      ),
    )
    | inr (ps, e) ↦
        let running = any (is_installed_app m.fold (dir ++ 92 ∷ app_exe) id) ps in
        let (to, from) = visit-launches (with_app running) w in
        (
          with_app running,
          seen_listed ps e,
          (
            λ h.
                let (active, used, absent, cooled) = to h in
                record {
                  active = active;
                  of_user = used;
                  cooled = cooled;
                  processes = ps;
                  listed = e;
                  others = any-AreOthers m dir id ps absent;
                },
            λ d. from (
              d.active,
              d.of_user,
              AreOthers-any m dir id ps
                  (subst (AreOthers m dir id) (ground (arith, e, d.listed)) d.others),
              d.cooled,
            ),
          ),
        )
  ]

-- Where the path of the service has less than 260 units and a backslash, and that of the
-- application beside it has less than 260 units too, the loop sees a session, and its visit
-- launches the application exactly where the session is active and not 0, no launch in it is
-- recorded or the last one is 60000 ticks or more ago, and the list of the processes is known and
-- has none that bears the application's file name and is in this session and whose image Windows
-- tells to be the application beside the service, names compared up to case; a process that it
-- does not tell counts as another.
pub seen_session-IsDue :
    (m : Machine) (dir name : Text) (id now : ℕ) (is_active : Bool) (w : Watchdog)
    → m.exe_path ≡ dir ++ 92 ∷ name
    → any (λ c. c == 92) name ≡ false
    → length m.exe_path < 260
    → length dir + 27 < 260
    → (s : Session) × (seen_session m id is_active now ≡ some s)
      × (((visit s w).launches ≡ (id, now) ∷ w.launches) ↔ IsDue m dir id is_active now w)
seen_session-IsDue m dir name id now is_active w beside_it plain short fits =
    seen_and_visited m dir name id now is_active w beside_it plain short fits
