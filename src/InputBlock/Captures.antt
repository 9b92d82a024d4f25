-- ===== src/InputBlock/Captures.antt =====
-- What a capture of windows/runner/input_block.cpp gives back, and where it writes.
use ligament_apps.Common.{
  ℕ, ◌+◌, ◌*◌, ◌^◌, ◌≤◌, ◌<◌, ◌≡◌, refl, ◌≢◌, inl, inr, Bool, true, ◌&&◌, Option, none, some, List,
  [], ◌∷◌, ◌++◌, arith, ltb, leb, ◌==◌, Bool-cases, Option-cases, false,
}
use ligament_apps.Common.Integers.{ℤ}
use ligament_apps.InputBlock.Capture.{
  src_dc, src_dib, src_selection, Step, takes, gives, loses, copies, Display, Screen, pos_part,
  Captured, total_bmp_size, overflows, from_display, capture_one_to_one, capture_scaled,
  encode_jpeg, encode_bmp, store, draw, capture_target, target_size, source_of, capture_thread,
  capture_desktop_rect_bmp, leave_bitmap,
}
use ligament_apps.InputBlock.Resources.{gives_back, target-gives_back}

-- Each copy stays within a buffer of this size.
abbrev pub fits : ℕ → List Step → Bool
fits n [] = true
fits n (takes r ∷ steps) = fits n steps
fits n (gives r ∷ steps) = fits n steps
fits n (loses r ∷ steps) = fits n steps
fits n (copies offset size ∷ steps) = leb (offset + size) n && fits n steps

fits-append : (n : ℕ) (xs ys : List Step) → fits n (xs ++ ys) ≡ (fits n xs && fits n ys)
fits-append n [] ys = refl
fits-append n (takes r ∷ xs) ys = fits-append n xs ys
fits-append n (gives r ∷ xs) ys = fits-append n xs ys
fits-append n (loses r ∷ xs) ys = fits-append n xs ys
fits-append n (copies offset size ∷ xs) ys = ground (arith, fits-append n xs ys)

from_display-fits : (n : ℕ) (ds : List Display) (x y : ℤ) → fits n (from_display ds x y).0 ≡ true
unfolding from_display
from_display-fits n [] x y = refl
from_display-fits n (d ∷ ds) x y = ground (arith, from_display-fits n ds x y)

one_to_one-fits : (n : ℕ) (s : Screen) (x y : ℤ) → fits n (capture_one_to_one s x y).0 ≡ true
unfolding capture_one_to_one
one_to_one-fits n s x y = ground (arith, from_display-fits n s.displays x y)

scaled-fits : (n : ℕ) (s : Screen) (x y : ℤ) → fits n (capture_scaled s x y).0 ≡ true
unfolding capture_scaled
scaled-fits n s x y = ground (
  arith,
  one_to_one-fits n s x y,
  fits-append n (capture_one_to_one s x y).0
      (gives src_selection ∷ gives src_dib ∷ gives src_dc ∷ []),
)

leave_bitmap-fits : (n : ℕ) (s : Screen) → fits n (leave_bitmap s) ≡ true
leave_bitmap-fits n s = ground arith

-- A size that is stored is at most that of the buffer.
abbrev pub IsStored : ℕ → Option (ℕ × ℕ × ℕ) → Type 0
IsStored n none = Unit
IsStored n (some (size, w, h)) = size ≤ n

-- Where a capture writes in a buffer of this size, and what it says that it wrote.
abbrev pub WritesWithin : ℕ → Captured → Type 0
WritesWithin n c = (fits n c.steps ≡ true) × IsStored n c.stored

jpeg-fits :
    (s : Screen) (n : ℕ)
    → (fits n (encode_jpeg s n).0 ≡ true)
      × ((size : ℕ) → (encode_jpeg s n).1 ≡ some size → size ≤ n)
unfolding encode_jpeg
jpeg-fits s n = (ground arith, λ size h. ground (arith, h))

bmp-fits : (n : ℕ) (t : ℕ × ℕ) → total_bmp_size t ≤ n → fits n (encode_bmp t) ≡ true
unfolding encode_bmp total_bmp_size
bmp-fits n (w, h) l = ground (arith, l)

store-WritesWithin :
    (s : Screen) (n : ℕ) (t : ℕ × ℕ) → total_bmp_size t ≤ n → WritesWithin n (store s n t)
unfolding store
store-WritesWithin s n t l = elim (Option-cases (encode_jpeg s n).1) [
  | inr (size, e) ↦ ground (
    arith,
    e,
    (jpeg-fits s n).0,
    (jpeg-fits s n).1 size e,
    fits-append n (encode_jpeg s n).0 (leave_bitmap s),
    leave_bitmap-fits n s,
  )
  | inl e ↦ ground (
    arith,
    e,
    l,
    (jpeg-fits s n).0,
    fits-append n (encode_jpeg s n).0 (encode_bmp t ++ leave_bitmap s),
    fits-append n (encode_bmp t) (leave_bitmap s),
    bmp-fits n t l,
    leave_bitmap-fits n s,
  )
]

draw-WritesWithin :
    (s : Screen) (n : ℕ) (x y : ℤ) (same : Bool) (t : ℕ × ℕ)
    → total_bmp_size t ≤ n
    → WritesWithin n (draw s n x y same t)
unfolding draw
draw-WritesWithin s n x y same t l =
    let stored = (store s n t).steps in
    let one = (capture_one_to_one s x y).0 in
    let two = (capture_scaled s x y).0 in
    ground (
      arith,
      store-WritesWithin s n t l,
      one_to_one-fits n s x y,
      scaled-fits n s x y,
      leave_bitmap-fits n s,
      fits-append n one stored,
      fits-append n one (leave_bitmap s),
      fits-append n two stored,
      fits-append n two (leave_bitmap s),
    )

target-WritesWithin :
    (s : Screen) (n : ℕ) (x y : ℤ) (same : Bool) (t : ℕ × ℕ)
    → WritesWithin n (capture_target s n x y same t)
unfolding capture_target
target-WritesWithin s n x y same t = elim (Bool-cases (ltb n (total_bmp_size t))) [
  | inl small ↦ ground (arith, small)
  | inr fitting ↦
      ground (arith, fitting, draw-WritesWithin s n x y same t (ground (arith, fitting)))
]

-- A capture gives back what it takes, but for the desktop that its thread is attached to, and writes
-- within its buffer.
abbrev pub IsSound : Bool → ℕ → Captured → Type 0
IsSound attached n c = (gives_back attached [] c.steps ≡ true) × WritesWithin n c

thread-IsSound :
    (s : Screen) (src_x src_y src_w src_h max_w max_h : ℤ) (n : ℕ) (c : Captured)
    → capture_thread s src_x src_y src_w src_h max_w max_h n ≡ some c
    → IsSound s.desk_attached n c
unfolding capture_thread
thread-IsSound s src_x src_y src_w src_h max_w max_h n c h =
    let source = source_of s src_x src_y src_w src_h in
    let target = target_size s (pos_part max_w) (pos_part max_h) source.1 in
    let same = source.1.0 == target.0 && source.1.1 == target.1 in
    ground (
      arith,
      h,
      target-gives_back s n source.0.0 source.0.1 same target,
      target-WritesWithin s n source.0.0 source.0.1 same target,
    )

capture-cases :
    (s : Screen) (is_free : Bool) (src_x src_y src_w src_h max_w max_h buf_size : ℤ) (c : Captured)
    → capture_desktop_rect_bmp s is_free src_x src_y src_w src_h max_w max_h buf_size ≡ some c
    → IsSound s.desk_attached (pos_part buf_size) c
unfolding capture_desktop_rect_bmp
capture-cases s is_free src_x src_y src_w src_h max_w max_h buf_size c h =
    ground (arith, h, thread-IsSound s src_x src_y src_w src_h max_w max_h (pos_part buf_size) c)

-- The size of the picture that a call asks for.
abbrev pub asked_size : Screen → ℤ → ℤ → ℤ → ℤ → ℤ → ℤ → ℕ × ℕ
asked_size s src_x src_y src_w src_h max_w max_h =
    target_size s (pos_part max_w) (pos_part max_h) (source_of s src_x src_y src_w src_h).1

-- The size of a picture's row in bits, and that of its bitmap in bytes, are ints.
abbrev pub FitsInt : ℕ × ℕ → Type 0
FitsInt (w, h) = (w * 32 + 31 < 2 ^ 31) × (total_bmp_size (w, h) < 2 ^ 31)

overflows-FitsInt : (t : ℕ × ℕ) → FitsInt t → overflows t ≡ false
unfolding overflows total_bmp_size
overflows-FitsInt (w, h) (l, m) = ground (arith, l, m)

thread-returns :
    (s : Screen) (src_x src_y src_w src_h max_w max_h : ℤ) (n : ℕ)
    → FitsInt (asked_size s src_x src_y src_w src_h max_w max_h)
    → capture_thread s src_x src_y src_w src_h max_w max_h n ≢ none
unfolding capture_thread
thread-returns s src_x src_y src_w src_h max_w max_h n l h =
    ground (arith, h, overflows-FitsInt (asked_size s src_x src_y src_w src_h max_w max_h) l)

capture-returns :
    (s : Screen) (is_free : Bool) (src_x src_y src_w src_h max_w max_h buf_size : ℤ)
    → FitsInt (asked_size s src_x src_y src_w src_h max_w max_h)
    → capture_desktop_rect_bmp s is_free src_x src_y src_w src_h max_w max_h buf_size ≢ none
unfolding capture_desktop_rect_bmp
capture-returns s is_free src_x src_y src_w src_h max_w max_h buf_size l h =
    ground (arith, h, thread-returns s src_x src_y src_w src_h max_w max_h (pos_part buf_size) l)

-- Where the bits of a row of the bitmap asked for, with 31 added, and its bytes are less than 2 ^
-- 31, a capture returns, gives back each resource that it takes once, the last taken first, but
-- for the desktop that its thread is attached to, which CloseDesktop does not close, copies
-- nothing past the end of the caller's buffer, and tells a length that fits in it, on every path.
pub capture-IsSound :
    (s : Screen) (is_free : Bool) (src_x src_y src_w src_h max_w max_h buf_size : ℤ)
    → FitsInt (asked_size s src_x src_y src_w src_h max_w max_h)
    → (c : Captured) × (capture_desktop_rect_bmp s is_free src_x src_y src_w src_h max_w max_h
          buf_size
        ≡ some c)
      × IsSound s.desk_attached (pos_part buf_size) c
capture-IsSound s is_free src_x src_y src_w src_h max_w max_h buf_size l =
    elim (Option-cases
      (capture_desktop_rect_bmp s is_free src_x src_y src_w src_h max_w max_h buf_size)) [
        | inl e ↦
            absurd (capture-returns s is_free src_x src_y src_w src_h max_w max_h buf_size l e)
        | inr (c, e) ↦
            (c, e, capture-cases s is_free src_x src_y src_w src_h max_w max_h buf_size c e)
      ]
