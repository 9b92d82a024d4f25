-- ===== src/InputBlock/Releases.antt =====
-- The releases of keys and buttons in the queue of windows/runner/input_block.cpp.
use ligament_apps.Common.{
  ℕ, ◌-◌, ◌≡◌, refl, sym, ap, ◌∙◌, ◌⊎◌, inl, inr, Bool, true, false, ◌&&◌, ◌||◌, some, List, [],
  ◌∷◌, ◌++◌, arith, ◌==◌, if◌then◌else◌, not, Bool-cases, Option-cases, length,
}
use mathlib.Core.List.{append-nil}
use ligament_apps.InputBlock.{
  unicode, vk, sas, NativeInputTask, is_move, is_release, evict, make_room, coalesce, enqueue,
  move_flags, up_flags, mouse, is_mouse,
}
use ligament_apps.Common.{==_iff}
use ligament_apps.InputBlock.{is_key}
use ligament_apps.InputBlock.{bit_and}

-- The releases of a queue, in order.
pub releases : List NativeInputTask → List NativeInputTask
releases [] = []
releases (t ∷ q) = if is_release t then t ∷ releases q else releases q

releases-append : (p q : List NativeInputTask) → releases (p ++ q) ≡ releases p ++ releases q
unfolding releases
releases-append [] q = refl
releases-append (t ∷ p) q = ground (arith, releases-append p q)

move_flags_raise : (flags : ℕ) → flags ≡ move_flags → (bit_and flags up_flags == 0) ≡ true
move_flags_raise flags e = ap (λ f. bit_and f up_flags == 0) e

is_release_of_move : (t : NativeInputTask) → is_move t ≡ true → is_release t ≡ false
unfolding is_move is_release
is_release_of_move t h =
    elim t.kind
        as (λ k.
          is_mouse k && t.mouse_flags == move_flags ≡ true
          → (is_key k && not t.is_down || is_mouse k && not (bit_and t.mouse_flags up_flags == 0))
            ≡ false) [
              | unicode ↦ λ e. ground (arith, e)
              | vk ↦ λ e. ground (arith, e)
              | mouse ↦ λ e.
                  ground
                    (arith, move_flags_raise t.mouse_flags ((==_iff t.mouse_flags move_flags).0 e))
              | sas ↦ λ e. refl
            ]
      h

is_move_of_flags :
    (last t : NativeInputTask)
    → is_move t ≡ true
    → (is_mouse last.kind && last.mouse_flags == t.mouse_flags) ≡ true
    → is_move last ≡ true
unfolding is_move
is_move_of_flags last t m e = ground (
  arith,
  ==_iff t.mouse_flags move_flags,
  ==_iff last.mouse_flags t.mouse_flags,
  ==_iff last.mouse_flags move_flags,
)

releases_behind :
    (t : NativeInputTask) (q : List NativeInputTask)
    → is_release t ≡ false
    → releases (q ++ t ∷ []) ≡ releases q
unfolding releases
releases_behind t q h = ground (arith, releases-append q (t ∷ []), append-nil (releases q))

releases-evict :
    (drops : NativeInputTask → Bool) (size : ℕ) (q : List NativeInputTask)
    → ((t : NativeInputTask) → drops t ≡ true → is_release t ≡ false)
    → releases (evict drops size q) ≡ releases q
unfolding evict releases
releases-evict drops size [] h = refl
releases-evict drops size (t ∷ q) h =
    ground (arith, h t, releases-evict drops size q h, releases-evict drops (size - 1) q h)

releases-make_room : (q : List NativeInputTask) → releases (make_room q) ≡ releases q
unfolding make_room
releases-make_room q = ground (
  arith,
  releases-evict is_move (length q) q is_release_of_move,
  releases-evict (λ t. not (is_release t)) (length (evict is_move (length q) q))
      (evict is_move (length q) q) (λ t h. ground arith),
)

releases-coalesce :
    (t : NativeInputTask) (q merged : List NativeInputTask)
    → is_move t ≡ true
    → coalesce t q ≡ some merged
    → releases merged ≡ releases q
unfolding coalesce releases
releases-coalesce t [] merged m h = cc
releases-coalesce t (last ∷ []) merged m h =
    ground (arith, is_release_of_move t m, is_release_of_move last, is_move_of_flags last t m)
releases-coalesce t (x ∷ y ∷ q) merged m h = elim (Option-cases (coalesce t (y ∷ q))) [
  | inl e ↦ ground (arith, e)
  | inr (rest, e) ↦ ground (arith, e, releases-coalesce t (y ∷ q) rest m e)
]

-- Either the newest move takes the place of the last one, or the task goes behind what room is made for.
pub enqueue-cases :
    (t : NativeInputTask) (q : List NativeInputTask)
    → (enqueue t q ≡ make_room q ++ t ∷ [])
      ⊎ ((merged : List NativeInputTask) × (is_move t ≡ true)
          × (coalesce t q ≡ some merged)
          × (enqueue t q ≡ merged))
unfolding enqueue
enqueue-cases t q = elim (Bool-cases (is_move t)) [
  | inl m ↦ elim (Option-cases (coalesce t q)) [
    | inl e ↦ inl (ground (arith, m, e))
    | inr (merged, e) ↦ inr (merged, m, e, ground (arith, m, e))
  ]
  | inr m ↦ inl (ground (arith, m))
]

-- Enqueueing drops and reorders no release of a key or a button: the releases of the new queue are
-- those of the old one, followed by the new task where it is a release.
pub releases-enqueue :
    (t : NativeInputTask) (q : List NativeInputTask)
    → releases (enqueue t q) ≡ releases (q ++ t ∷ [])
releases-enqueue t q = elim (enqueue-cases t q) [
  | inl e ↦
      ap releases e
      ∙ releases-append (make_room q) (t ∷ [])
      ∙ ap (λ r. r ++ releases (t ∷ [])) (releases-make_room q)
      ∙ sym (releases-append q (t ∷ []))
  | inr (merged, m, c, e) ↦
      ap releases e
      ∙ releases-coalesce t q merged m c
      ∙ sym (releases_behind t q (is_release_of_move t m))
]
