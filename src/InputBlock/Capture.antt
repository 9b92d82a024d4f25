-- ===== src/InputBlock/Capture.antt =====
-- `ligament_capture_desktop_rect_bmp` of windows/runner/input_block.cpp: the resources of Windows that
-- it takes, and what it writes to the caller's buffer. Windows is the record `Screen`; the scaling by
-- floating-point numbers is one of its fields.
use ligament_apps.Common.{
  ℕ, ◌+◌, ◌*◌, ◌/◌, ◌^◌, Bool, true, false, ◌&&◌, ◌||◌, Option, none, some, List, [], ◌∷◌, ◌++◌,
  ltb, leb, ◌==◌, if◌then◌else◌, not,
}
use ligament_apps.Common.Integers.{ℤ, pos, negsuc}

pub data Resource : Type 0 where
  apartment desk screen_dc mem_dc dib selection src_dc src_dib src_selection monitor_dc stream
        lock :
      Resource

-- What the capture does: it takes a resource and gives it back, or fails to, and copies so many bytes
-- to this offset of the buffer.
pub data Step : Type 0 where
  takes : Resource → Step
  gives : Resource → Step
  loses : Resource → Step
  copies : (offset size : ℕ) → Step

-- A display of `EnumDisplayDevicesW`: whether it is attached, its position, whether it has a context,
-- and what the two copies from that give.
pub record Display : Type 0 where
  pub attached : Bool
  pub position : Option (ℤ × ℤ)
  pub has_dc : Bool
  pub layered : Bool
  pub plain : Bool

-- What the calls of Windows give. `has_desk` is whether `FindActiveInputDesktop` opens a desktop, and
-- `desk_attached` whether `SetThreadDesktop` attaches the thread to it. `scaled` is the size that the scale leads to.
pub record Screen : Type 0 where
  pub has_desk : Bool
  pub desk_attached : Bool
  pub has_screen_dc : Bool
  pub metrics : ℤ × ℤ
  pub scaled : ℕ → ℕ → ℕ → ℕ → ℕ × ℕ
  pub has_mem_dc : Bool
  pub has_dib : Bool
  pub has_bits : Bool
  pub layered : Bool
  pub plain : Bool
  pub displays : List Display
  pub has_src_dc : Bool
  pub has_src_dib : Bool
  pub has_src_bits : Bool
  pub stretched : Bool
  pub has_stream : Bool
  pub has_encoder : Bool
  pub saved : Bool
  pub has_global : Bool
  pub jpeg_size : ℕ
  pub locked : Bool

-- The size of a positive number, 0 of any other.
abbrev pub pos_part : ℤ → ℕ
pos_part (pos n) = n
pos_part (negsuc n) = 0

abbrev pub eq_int : ℤ → ℤ → Bool
eq_int (pos a) (pos b) = a == b
eq_int (negsuc a) (negsuc b) = a == b
eq_int _ _ = false

-- What the capture returns and stores behind its pointers, if it stores anything.
pub record Captured : Type 0 where
  pub steps : List Step
  pub result : ℤ
  pub stored : Option (ℕ × ℕ × ℕ)

-- `sizeof(BITMAPFILEHEADER)` and `sizeof(BITMAPINFOHEADER)`.
abbrev pub file_header : ℕ
file_header = 14

abbrev pub info_header : ℕ
info_header = 40

abbrev pub headers : ℕ
headers = file_header + info_header

-- `row_stride`, where `w * 32 + 31` is an int.
abbrev pub row_stride : ℕ → ℕ
row_stride w = (w * 32 + 31) / 32 * 4

-- `total_bmp_size`, where it and its parts are ints.
unfoldable pub total_bmp_size : ℕ × ℕ → ℕ
total_bmp_size (w, h) = headers + row_stride w * h

-- Whether a step of the arithmetic of the size overflows an int, which is undefined.
unfoldable pub overflows : ℕ × ℕ → Bool
unfolding total_bmp_size
overflows (w, h) =
    leb (2 ^ 31) (w * 32 + 31)
    || (leb (2 ^ 31) (row_stride w * h) || leb (2 ^ 31) (total_bmp_size (w, h)))

-- The copy from the display whose position is that of the rectangle.
unfoldable pub from_display : List Display → ℤ → ℤ → List Step × Bool
from_display [] x y = ([], false)
from_display (d ∷ ds) x y =
    let rest = from_display ds x y in
    if not d.attached then rest else elim d.position [
      | none ↦ rest
      | some (px, py) ↦
          if eq_int px x && eq_int py y
          then (if d.has_dc
              then (takes monitor_dc ∷ gives monitor_dc ∷ [], d.layered || d.plain)
              else ([], false))
          else rest
    ]

-- `captureOneToOne`.
unfoldable pub capture_one_to_one : Screen → ℤ → ℤ → List Step × Bool
unfolding from_display
capture_one_to_one s x y = if s.layered || s.plain then ([], true) else from_display s.displays x y

-- The copy to a bitmap of the source's size, and from there to the target.
unfoldable pub capture_scaled : Screen → ℤ → ℤ → List Step × Bool
unfolding capture_one_to_one
capture_scaled s x y =
    if not s.has_src_dc
    then ([], false)
    else if s.has_src_dib && s.has_src_bits
    then (
      takes src_dc ∷ takes src_dib ∷ takes src_selection ∷ (capture_one_to_one s x y).0
          ++ gives src_selection ∷ gives src_dib ∷ gives src_dc ∷ [],
      (capture_one_to_one s x y).1 && s.stretched,
    )
    else if s.has_src_dib
    then (takes src_dc ∷ takes src_dib ∷ gives src_dib ∷ gives src_dc ∷ [], false)
    else (takes src_dc ∷ gives src_dc ∷ [], false)

-- The picture as JPEG, where Windows makes one that fits: the steps, and its size.
unfoldable pub encode_jpeg : Screen → ℕ → List Step × Option ℕ
encode_jpeg s buf_size =
    if not s.has_stream
    then ([], none)
    else if not (s.has_encoder && (s.saved && s.has_global))
    then (takes stream ∷ gives stream ∷ [], none)
    else if not s.locked
    then (takes stream ∷ gives stream ∷ [], none)
    else if ltb 0 s.jpeg_size && leb s.jpeg_size buf_size
    then (
      takes stream ∷ takes lock ∷ copies 0 s.jpeg_size ∷ gives lock ∷ gives stream ∷ [],
      some s.jpeg_size,
    )
    else (takes stream ∷ takes lock ∷ gives lock ∷ gives stream ∷ [], none)

-- The bitmap with its two headers.
unfoldable pub encode_bmp : ℕ × ℕ → List Step
encode_bmp (w, h) =
    copies 0 file_header ∷ copies file_header info_header ∷ copies headers (row_stride w * h) ∷ []

abbrev when : Bool → Step → List Step → List Step
when true step steps = step ∷ steps
when false step steps = steps

-- `if (desk) CloseDesktop(desk);`, and the end of the thread. `CloseDesktop` fails on the desktop that a
-- thread of the process is attached to.
abbrev pub leave_desk : Screen → List Step
leave_desk s =
    when s.has_desk (if s.desk_attached then loses desk else gives desk) (gives apartment ∷ [])

abbrev pub leave_screen : Screen → List Step
leave_screen s = gives screen_dc ∷ leave_desk s

abbrev pub leave_bitmap : Screen → List Step
leave_bitmap s = gives selection ∷ gives dib ∷ gives mem_dc ∷ leave_screen s

abbrev failed : List Step → ℤ → Captured
failed steps result = record { steps = steps; result = result; stored = none }

-- With the bitmap drawn.
unfoldable pub store : Screen → ℕ → ℕ × ℕ → Captured
unfolding encode_jpeg encode_bmp
store s buf_size target = elim (encode_jpeg s buf_size).1 [
  | some size ↦ record {
    steps = (encode_jpeg s buf_size).0 ++ leave_bitmap s;
    result = pos 0;
    stored = some (size, target.0, target.1);
  }
  | none ↦ record {
    steps = (encode_jpeg s buf_size).0 ++ (encode_bmp target ++ leave_bitmap s);
    result = pos 0;
    stored = some (total_bmp_size target, target.0, target.1);
  }
]

-- With the bitmap selected: it is drawn from the rectangle at this place.
unfoldable pub draw : Screen → ℕ → ℤ → ℤ → Bool → ℕ × ℕ → Captured
unfolding capture_one_to_one capture_scaled store
draw s buf_size x y same_size target =
    let drawn = if same_size then capture_one_to_one s x y else capture_scaled s x y in
    if drawn.1
    then record (store s buf_size target) { steps = drawn.0 ++ (store s buf_size target).steps }
    else failed (drawn.0 ++ leave_bitmap s) (negsuc 6)

abbrev prepend : List Step → Captured → Captured
prepend steps c = record c { steps = steps ++ c.steps }

-- With the context of the screen.
unfoldable pub capture_target : Screen → ℕ → ℤ → ℤ → Bool → ℕ × ℕ → Captured
unfolding draw total_bmp_size
capture_target s buf_size x y same_size target =
    if ltb buf_size (total_bmp_size target)
    then failed (leave_screen s) (negsuc 3)
    else if not s.has_mem_dc
    then failed (leave_screen s) (negsuc 4)
    else if not s.has_dib
    then failed (takes mem_dc ∷ gives mem_dc ∷ leave_screen s) (negsuc 5)
    else if not s.has_bits
    then failed (takes mem_dc ∷ takes dib ∷ gives dib ∷ gives mem_dc ∷ leave_screen s) (negsuc 5)
    else prepend (takes mem_dc ∷ takes dib ∷ takes selection ∷ [])
        (draw s buf_size x y same_size target)

abbrev at_least_one : ℕ → ℕ
at_least_one n = if ltb n 1 then 1 else n

-- The size of the picture for a source of this size.
unfoldable pub target_size : Screen → ℕ → ℕ → ℕ × ℕ → ℕ × ℕ
target_size s max_w max_h (w, h) =
    if ltb 0 max_w && (ltb 0 max_h && (ltb max_w w || ltb max_h h))
    then (at_least_one (s.scaled max_w max_h w h).0, at_least_one (s.scaled max_w max_h w h).1)
    else (w, h)

-- The rectangle that is captured: the whole screen where none is given.
unfoldable pub source_of : Screen → ℤ → ℤ → ℤ → ℤ → (ℤ × ℤ) × (ℕ × ℕ)
source_of s x y w h =
    if pos_part w == 0 || pos_part h == 0
    then ((pos 0, pos 0), (pos_part s.metrics.0, pos_part s.metrics.1))
    else ((x, y), (pos_part w, pos_part h))

abbrev same_size : ℕ × ℕ → ℕ × ℕ → Bool
same_size (w, h) (v, g) = w == v && h == g

-- The thread of a capture; `none` where the size of the bitmap `overflows`.
unfoldable pub capture_thread : Screen → ℤ → ℤ → ℤ → ℤ → ℤ → ℤ → ℕ → Option Captured
unfolding source_of target_size capture_target overflows
capture_thread s src_x src_y src_w src_h max_w max_h buf_size =
    let ((x, y), source) = source_of s src_x src_y src_w src_h in
    let target = target_size s (pos_part max_w) (pos_part max_h) source in
    let entered = takes apartment ∷ when s.has_desk (takes desk) [] in
    if not s.has_screen_dc
    then some (failed (entered ++ leave_desk s) (negsuc 1))
    else if source.0 == 0 || source.1 == 0
    then some (failed (entered ++ takes screen_dc ∷ leave_screen s) (negsuc 2))
    else if overflows target
    then none
    else some (
        prepend (entered ++ takes screen_dc ∷ [])
          (capture_target s buf_size x y (same_size source target) target))

-- The exported call; the pointers are there, and `is_free` is the lock that keeps captures apart.
unfoldable pub capture_desktop_rect_bmp :
    Screen → Bool → ℤ → ℤ → ℤ → ℤ → ℤ → ℤ → ℤ → Option Captured
unfolding capture_thread
capture_desktop_rect_bmp s is_free src_x src_y src_w src_h max_w max_h buf_size =
    if leb (pos_part buf_size) headers
    then some (failed [] (negsuc 0))
    else if not is_free
    then some (failed [] (negsuc 97))
    else capture_thread s src_x src_y src_w src_h max_w max_h (pos_part buf_size)

unfoldable pub capture_desktop_bmp : Screen → Bool → ℤ → ℤ → ℤ → Option Captured
unfolding capture_desktop_rect_bmp
capture_desktop_bmp s is_free max_w max_h buf_size =
    capture_desktop_rect_bmp s is_free (pos 0) (pos 0) (pos 0) (pos 0) max_w max_h buf_size
