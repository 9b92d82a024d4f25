-- ===== src/InputBlock.antt =====
-- The queue of remote input, windows/runner/input_block.cpp: `NativeInputTask`, `EnqueueNativeInput`
-- and the exported functions that make a task. Coordinates and flags are their 32-bit patterns.
pub mod Capture
pub mod Captures
pub mod Resources
pub mod Monitors
pub mod Releases
pub mod Block
pub mod Bound
pub mod Sas
pub mod Worker
pub mod Scope
pub mod Samples
pub mod WindowsSamples
use ligament_apps.Common.{
  ℕ, zero, suc, ◌+◌, ◌-◌, ◌*◌, ◌/◌, ◌%◌, ◌^◌, ◌≤◌, ◌<◌, String, ◌≡◌, refl, sym, ap, ◌∙◌, ◌≢◌, ◌↔◌,
  ◌⊎◌, inl, inr, Bool, true, false, ◌&&◌, ◌||◌, Option, none, some, List, [], ◌∷◌, ◌++◌, map, arith,
  ltb, leb, ◌==◌, if◌then◌else◌, not, is_some, Bool-cases, Option-cases, length, take, drop,
  get_elem?, empty, any, all,
}
use Prim.Native.Nat.{bit_and}

pub data Kind : Type 0 where
  unicode vk mouse sas : Kind

pub record NativeInputTask : Type 0 where
  pub kind : Kind
  pub ch : ℕ
  pub key : ℕ
  pub is_down : Bool
  pub abs_x : ℕ
  pub abs_y : ℕ
  pub norm_vx : ℕ
  pub norm_vy : ℕ
  pub mouse_flags : ℕ
  pub mouse_data : ℕ

-- `NativeInputTask task{}`.
abbrev pub no_task : NativeInputTask
no_task = record {
  kind = unicode;
  ch = 0;
  key = 0;
  is_down = false;
  abs_x = 0;
  abs_y = 0;
  norm_vx = 0;
  norm_vy = 0;
  mouse_flags = 0;
  mouse_data = 0;
}

-- `ligament_send_unicode_char`, `ligament_send_vk`, `ligament_send_mouse`, `ligament_send_sas`.
unfoldable pub unicode_task : ℕ → Bool → NativeInputTask
unicode_task ch is_down = record no_task { kind = unicode; ch = ch; is_down = is_down }

unfoldable pub vk_task : ℕ → Bool → NativeInputTask
vk_task key is_down = record no_task { kind = vk; key = key; is_down = is_down }

unfoldable pub mouse_task : (abs_x abs_y norm_vx norm_vy flags mouse_data : ℕ) → NativeInputTask
mouse_task abs_x abs_y norm_vx norm_vy flags mouse_data = record no_task {
  kind = mouse;
  abs_x = abs_x;
  abs_y = abs_y;
  norm_vx = norm_vx;
  norm_vy = norm_vy;
  mouse_flags = flags;
  mouse_data = mouse_data;
}

unfoldable pub sas_task : NativeInputTask
sas_task = record no_task { kind = sas }

abbrev pub is_mouse : Kind → Bool
is_mouse mouse = true
is_mouse _ = false

abbrev pub is_key : Kind → Bool
is_key unicode = true
is_key vk = true
is_key _ = false

-- `MOUSEEVENTF_MOVE | MOUSEEVENTF_ABSOLUTE | MOUSEEVENTF_VIRTUALDESK`.
abbrev pub move_flags : ℕ
move_flags = 0xc001

-- `MOUSEEVENTF_LEFTUP | MOUSEEVENTF_RIGHTUP | MOUSEEVENTF_MIDDLEUP | MOUSEEVENTF_XUP`.
abbrev pub up_flags : ℕ
up_flags = 0x154

abbrev pub max_queued : ℕ
max_queued = 512

unfoldable pub is_move : NativeInputTask → Bool
is_move t = is_mouse t.kind && t.mouse_flags == move_flags

-- `is_key_up || is_mouse_up`.
unfoldable pub is_release : NativeInputTask → Bool
is_release t =
    is_key t.kind && not t.is_down || is_mouse t.kind && not (bit_and t.mouse_flags up_flags == 0)

-- The loops that erase: `size` is that of the whole queue, and a task that `drops` names goes while
-- the queue is full.
unfoldable pub evict : (NativeInputTask → Bool) → ℕ → List NativeInputTask → List NativeInputTask
evict drops size [] = []
evict drops size (t ∷ q) =
    if ltb size max_queued
    then t ∷ q
    else if drops t
    then evict drops (size - 1) q
    else t ∷ evict drops size q

-- Room for one task more: moves go first, then what is no release.
unfoldable pub make_room : List NativeInputTask → List NativeInputTask
make_room q =
    let thinned = evict is_move (length q) q in
    if ltb (length q) max_queued
    then q
    else if ltb (length thinned) max_queued
    then thinned
    else evict (λ t. not (is_release t)) (length thinned) thinned

-- The queue with its last task replaced, where that is a move with the same flags.
unfoldable pub coalesce : NativeInputTask → List NativeInputTask → Option (List NativeInputTask)
coalesce t [] = none
coalesce t (last ∷ []) =
    if is_mouse last.kind && last.mouse_flags == t.mouse_flags then some (t ∷ []) else none
coalesce t (x ∷ y ∷ q) = elim (coalesce t (y ∷ q)) [ none ↦ none | some q' ↦ some (x ∷ q') ]

unfoldable pub enqueue : NativeInputTask → List NativeInputTask → List NativeInputTask
enqueue t q = elim (if is_move t then coalesce t q else none) [
  | some merged ↦ merged
  | none ↦ make_room q ++ t ∷ []
]
