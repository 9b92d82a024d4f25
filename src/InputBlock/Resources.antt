-- ===== src/InputBlock/Resources.antt =====
-- The resources that a capture of windows/runner/input_block.cpp takes and gives back.
use ligament_apps.Common.{
  ℕ, ◌≡◌, refl, ap, inl, inr, Bool, true, false, ◌&&◌, List, [], ◌∷◌, ◌++◌, arith, ◌==◌,
  if◌then◌else◌, not, Option-cases, empty,
}
use mathlib.Core.List.{append_assoc}
use ligament_apps.Common.Integers.{ℤ}
use ligament_apps.InputBlock.Capture.{
  Resource, apartment, desk, screen_dc, mem_dc, dib, selection, src_dc, src_dib, src_selection,
  monitor_dc, stream, lock, Step, takes, gives, loses, copies, Display, Screen, from_display,
  capture_one_to_one, capture_scaled, encode_jpeg, encode_bmp, store, draw, capture_target,
  leave_bitmap,
}

-- A number for each resource, to compare them by.
abbrev index : Resource → ℕ
index apartment = 0
index desk = 1
index screen_dc = 2
index mem_dc = 3
index dib = 4
index selection = 5
index src_dc = 6
index src_dib = 7
index src_selection = 8
index monitor_dc = 9
index stream = 10
index lock = 11

-- With these resources held, the last one first: each that is taken is given back once, the last one
-- first, and nothing is held at the end; but where `attached`, the desktop is lost, and only that.
abbrev pub gives_back : Bool → List Resource → List Step → Bool
gives_back attached held [] = empty held
gives_back attached held (takes r ∷ steps) = gives_back attached (r ∷ held) steps
gives_back attached [] (gives r ∷ steps) = false
gives_back attached (q ∷ held) (gives r ∷ steps) =
    index q == index r && (not (attached && index r == 1) && gives_back attached held steps)
gives_back attached [] (loses r ∷ steps) = false
gives_back attached (q ∷ held) (loses r ∷ steps) =
    index q == index r && ((attached && index r == 1) && gives_back attached held steps)
gives_back attached held (copies offset size ∷ steps) = gives_back attached held steps

from_display-gives_back :
    (b : Bool) (ds : List Display) (x y : ℤ) (held : List Resource) (rest : List Step)
    → gives_back b held ((from_display ds x y).0 ++ rest) ≡ gives_back b held rest
unfolding from_display
from_display-gives_back b [] x y held rest = refl
from_display-gives_back b (d ∷ ds) x y held rest =
    ground (arith, from_display-gives_back b ds x y held rest)

one_to_one-gives_back :
    (b : Bool) (s : Screen) (x y : ℤ) (held : List Resource) (rest : List Step)
    → gives_back b held ((capture_one_to_one s x y).0 ++ rest) ≡ gives_back b held rest
unfolding capture_one_to_one
one_to_one-gives_back b s x y held rest =
    ground (arith, from_display-gives_back b s.displays x y held rest)

scaled-gives_back :
    (b : Bool) (s : Screen) (x y : ℤ) (held : List Resource) (rest : List Step)
    → gives_back b held ((capture_scaled s x y).0 ++ rest) ≡ gives_back b held rest
unfolding capture_scaled
scaled-gives_back b s x y held rest =
    let drawn = (capture_one_to_one s x y).0 in
    let freed : List Step = gives src_selection ∷ gives src_dib ∷ gives src_dc ∷ [] in
    let taken : List Resource = src_selection ∷ src_dib ∷ src_dc ∷ held in
    ground (
      arith,
      ap (gives_back b taken) (append_assoc drawn freed rest),
      one_to_one-gives_back b s x y taken (freed ++ rest),
    )

jpeg-gives_back :
    (b : Bool) (s : Screen) (n : ℕ) (held : List Resource) (rest : List Step)
    → gives_back b held ((encode_jpeg s n).0 ++ rest) ≡ gives_back b held rest
unfolding encode_jpeg
jpeg-gives_back b s n held rest = ground arith

bmp-gives_back :
    (b : Bool) (t : ℕ × ℕ) (held : List Resource) (rest : List Step)
    → gives_back b held (encode_bmp t ++ rest) ≡ gives_back b held rest
unfolding encode_bmp
bmp-gives_back b (w, h) held rest = refl

-- What is held when the context of the screen is.
abbrev pub on_screen : Screen → List Resource
on_screen s = if s.has_desk then screen_dc ∷ desk ∷ apartment ∷ [] else screen_dc ∷ apartment ∷ []

abbrev on_bitmap : Screen → List Resource
on_bitmap s = selection ∷ dib ∷ mem_dc ∷ on_screen s

leave_bitmap-gives_back :
    (s : Screen) → gives_back s.desk_attached (on_bitmap s) (leave_bitmap s) ≡ true
leave_bitmap-gives_back s = ground arith

store-gives_back :
    (s : Screen) (n : ℕ) (t : ℕ × ℕ)
    → gives_back s.desk_attached (on_bitmap s) (store s n t).steps ≡ true
unfolding store
store-gives_back s n t = elim (Option-cases (encode_jpeg s n).1) [
  | inr (size, e) ↦ ground (
    arith,
    e,
    jpeg-gives_back s.desk_attached s n (on_bitmap s) (leave_bitmap s),
    leave_bitmap-gives_back s,
  )
  | inl e ↦ ground (
    arith,
    e,
    jpeg-gives_back s.desk_attached s n (on_bitmap s) (encode_bmp t ++ leave_bitmap s),
    bmp-gives_back s.desk_attached t (on_bitmap s) (leave_bitmap s),
    leave_bitmap-gives_back s,
  )
]

draw-gives_back :
    (s : Screen) (n : ℕ) (x y : ℤ) (same : Bool) (t : ℕ × ℕ)
    → gives_back s.desk_attached (on_bitmap s) (draw s n x y same t).steps ≡ true
unfolding draw
draw-gives_back s n x y same t =
    let stored = (store s n t).steps in
    ground (
      arith,
      one_to_one-gives_back s.desk_attached s x y (on_bitmap s) stored,
      one_to_one-gives_back s.desk_attached s x y (on_bitmap s) (leave_bitmap s),
      scaled-gives_back s.desk_attached s x y (on_bitmap s) stored,
      scaled-gives_back s.desk_attached s x y (on_bitmap s) (leave_bitmap s),
      store-gives_back s n t,
      leave_bitmap-gives_back s,
    )

pub target-gives_back :
    (s : Screen) (n : ℕ) (x y : ℤ) (same : Bool) (t : ℕ × ℕ)
    → gives_back s.desk_attached (on_screen s) (capture_target s n x y same t).steps ≡ true
unfolding capture_target
target-gives_back s n x y same t = ground (arith, draw-gives_back s n x y same t)
