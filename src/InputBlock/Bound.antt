-- ===== src/InputBlock/Bound.antt =====
-- The length of the queue of windows/runner/input_block.cpp.
use ligament_apps.Common.{
  ℕ, ◌+◌, ◌-◌, ◌≤◌, ◌<◌, ◌≡◌, refl, ap, ◌⊎◌, inl, inr, Bool, true, some, List, [], ◌∷◌, ◌++◌, arith,
  not, Option-cases, length, all,
}
use ligament_apps.Common.Lists.{length-append}
use ligament_apps.InputBlock.{
  NativeInputTask, is_move, is_release, evict, make_room, coalesce, enqueue, max_queued,
}
use ligament_apps.InputBlock.Releases.{enqueue-cases}

-- The queue without its last task.
front : List NativeInputTask → List NativeInputTask
front [] = []
front (t ∷ []) = []
front (t ∷ u ∷ q) = t ∷ front (u ∷ q)

-- At most 512 tasks, or nothing but releases in front of the last one.
unfoldable pub IsBounded : List NativeInputTask → Type 0
unfolding front
IsBounded q = (length q ≤ max_queued) ⊎ (all is_release (front q) ≡ true)

front-append : (q : List NativeInputTask) (t : NativeInputTask) → front (q ++ t ∷ []) ≡ q
unfolding front
front-append [] t = refl
front-append (x ∷ []) t = refl
front-append (x ∷ y ∷ q) t = ap (◌∷◌ x) (front-append (y ∷ q) t)

-- The loop ends below the bound, or it has dropped all that it may.
evict-bounded :
    (drops : NativeInputTask → Bool) (size : ℕ) (q : List NativeInputTask)
    → length q ≤ size
    → (length (evict drops size q) + (size - length q) < max_queued)
      ⊎ (all (λ t. not (drops t)) (evict drops size q) ≡ true)
unfolding evict
evict-bounded drops size [] h = inr refl
evict-bounded drops size (t ∷ q) h =
    ground (arith, evict-bounded drops size q, evict-bounded drops (size - 1) q)

all-not-not :
    (q : List NativeInputTask)
    → all (λ t. not (not (is_release t))) q ≡ true
    → all is_release q ≡ true
all-not-not [] h = refl
all-not-not (t ∷ q) h = ground (arith, all-not-not q)

make_room-bounded :
    (q : List NativeInputTask)
    → (length (make_room q) < max_queued) ⊎ (all is_release (make_room q) ≡ true)
unfolding make_room
make_room-bounded q = ground (
  arith,
  evict-bounded (λ t. not (is_release t)) (length (evict is_move (length q) q))
      (evict is_move (length q) q),
  all-not-not (
      evict (λ t. not (is_release t)) (length (evict is_move (length q) q))
        (evict is_move (length q) q)),
)

front_cons :
    (t : NativeInputTask) (q : List NativeInputTask) → 0 < length q → front (t ∷ q) ≡ t ∷ front q
unfolding front
front_cons t [] h = absurd (omega arith)
front_cons t (u ∷ q) h = refl

coalesce-front :
    (t : NativeInputTask) (q merged : List NativeInputTask)
    → coalesce t q ≡ some merged
    → (length merged ≡ length q) × (front merged ≡ front q)
unfolding coalesce front
coalesce-front t [] merged h = cc
coalesce-front t (last ∷ []) merged h = ground arith
coalesce-front t (x ∷ y ∷ q) merged h = elim (Option-cases (coalesce t (y ∷ q))) [
  | inl e ↦ ground (arith, e)
  | inr (rest, e) ↦ ground (arith, e, coalesce-front t (y ∷ q) rest e, front_cons x rest)
]

-- Enqueueing keeps this bound: the queue holds at most 512 tasks, or only releases in front of its
-- last task.
pub enqueue-IsBounded :
    (t : NativeInputTask) (q : List NativeInputTask) → IsBounded q → IsBounded (enqueue t q)
unfolding IsBounded
enqueue-IsBounded t q b = elim (enqueue-cases t q) [
  | inl e ↦ rw e (
      ground (
        arith,
        make_room-bounded q,
        front-append (make_room q) t,
        length-append (make_room q) (t ∷ []),
      ))
  | inr (merged, m, c, e) ↦ rw e (ground (arith, coalesce-front t q merged c, b))
]
