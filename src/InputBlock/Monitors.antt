-- ===== src/InputBlock/Monitors.antt =====
-- The rectangles of the monitors in windows/runner/input_block.cpp, by the place of a monitor and by the
-- place of a device. What Windows tells of the monitors and the devices are lists.
use ligament_apps.Common.{
  ℕ, zero, suc, Bool, ◌&&◌, Option, none, some, List, [], ◌∷◌, ltb, if◌then◌else◌, not, get_elem?,
}
use ligament_apps.Common.Integers.{ℤ, pos, ◌+ℤ◌}
use ligament_apps.Common.Text.{Text, eq_text}

pub record Rect : Type 0 where
  pub left : ℤ
  pub top : ℤ
  pub right : ℤ
  pub bottom : ℤ

-- A monitor of `EnumDisplayMonitors`: its device's name and its rectangle, if `GetMonitorInfoW` tells.
abbrev pub Monitor : Type 0
Monitor = Option (Text × Rect)

-- The current settings of a device: its position and its size in pixels.
pub record Mode : Type 0 where
  pub x : ℤ
  pub y : ℤ
  pub width : ℕ
  pub height : ℕ

-- A device of `EnumDisplayDevicesW`.
pub record Device : Type 0 where
  pub name : Text
  pub attached : Bool
  pub mode : Option Mode

abbrev pub mode_rect : Mode → Rect
mode_rect m = record {
  left = m.x;
  top = m.y;
  right = m.x +ℤ pos m.width;
  bottom = m.y +ℤ pos m.height;
}

-- The rectangle of settings that are read and of a positive size.
unfoldable pub usable_mode : Option Mode → Option Rect
usable_mode none = none
usable_mode (some m) = if ltb 0 m.width && ltb 0 m.height then some (mode_rect m) else none

-- The monitor at this place; one that does not tell is passed over, and then none is found.
unfoldable pub monitor_at : ℕ → List Monitor → Option Rect
monitor_at i [] = none
monitor_at zero (some (name, rect) ∷ ms) = some rect
monitor_at zero (none ∷ ms) = none
monitor_at (suc i) (m ∷ ms) = monitor_at i ms

-- The device at this place among those that are attached.
unfoldable pub attached_at : ℕ → List Device → Option Device
attached_at i [] = none
attached_at i (d ∷ ds) =
    if not d.attached then attached_at i ds else elim i [ zero ↦ some d | suc j ↦ attached_at j ds ]

-- What is stored behind the four pointers, for an index that is not negative; `none` returns -1.
unfoldable pub monitor_rect_by_index : List Monitor → List Device → ℕ → Option Rect
unfolding monitor_at attached_at usable_mode
monitor_rect_by_index ms ds i = elim (monitor_at i ms) [
  | some rect ↦ some rect
  | none ↦ elim (attached_at i ds) [ none ↦ none | some d ↦ usable_mode d.mode ]
]

-- The device at this place if it is attached, else by its place among those that are.
unfoldable pub device_at : List Device → ℕ → Option Device
unfolding attached_at
device_at ds i = elim (get_elem? ds i) [
  | none ↦ attached_at i ds
  | some d ↦ if d.attached then some d else attached_at i ds
]

-- The first monitor that tells this name.
unfoldable pub monitor_named : Text → List Monitor → Option Rect
monitor_named want [] = none
monitor_named want (none ∷ ms) = monitor_named want ms
monitor_named want (some (name, rect) ∷ ms) =
    if eq_text name want then some rect else monitor_named want ms

unfoldable pub monitor_rect_by_device_index : List Monitor → List Device → ℕ → Option Rect
unfolding device_at usable_mode monitor_named
monitor_rect_by_device_index ms ds i = elim (device_at ds i) [
  | none ↦ none
  | some d ↦ elim (usable_mode d.mode) [ some rect ↦ some rect | none ↦ monitor_named d.name ms ]
]
