-- ===== src/InputBlock/WindowsSamples.antt =====
-- A registry with values of two sizes, the hooks, two captures and three devices.
use ligament_apps.Common.{
  ℕ, ◌≡◌, refl, ◌↔◌, Bool, true, false, Option, none, some, List, [], ◌∷◌, arith,
}
use ligament_apps.Common.Integers.{ℤ, pos, negsuc}
use ligament_apps.InputBlock.Sas.{
  Windows, Registry, Value, IsDword, execute_send_sas, allowed, execute_send_sas_iff,
}
use ligament_apps.InputBlock.Block.{Start, unblocked, install_input_block, keyboard_ll_proc}
use ligament_apps.InputBlock.Capture.{
  Screen, Captured, capture_desktop_rect_bmp, capture_desktop_bmp, total_bmp_size, target_size,
  source_of,
}
use ligament_apps.InputBlock.Captures.{IsSound, FitsInt, asked_size, capture-IsSound}
use ligament_apps.InputBlock.Monitors.{
  Rect, Device, monitor_rect_by_index, monitor_rect_by_device_index,
}

abbrev obeying : Windows
obeying = record {
  opened = true;
  loaded = true;
  has_send_sas = true;
  set_before = true;
  set_behind = true;
  deleted = true;
}

abbrev registry_with : Option Value → Registry
registry_with value = record { value = value; sent = [] }

-- A value of five bytes is gone.
long_value_lost :
    (execute_send_sas obeying (registry_with (some (3, 1 ∷ 2 ∷ 3 ∷ 4 ∷ 5 ∷ [])))).value ≡ none
unfolding execute_send_sas
long_value_lost = refl

execute_send_sas_iff_example :
    (((execute_send_sas obeying (registry_with (some (4, 1 ∷ 0 ∷ 0 ∷ 0 ∷ [])))).value
        ≡ some (4, 1 ∷ 0 ∷ 0 ∷ 0 ∷ []))
      ↔ IsDword (some (4, 1 ∷ 0 ∷ 0 ∷ 0 ∷ [])))
    × ((execute_send_sas obeying (registry_with (some (4, 1 ∷ 0 ∷ 0 ∷ 0 ∷ [])))).sent
        ≡ allowed ∷ [])
execute_send_sas_iff_example =
    execute_send_sas_iff obeying (registry_with (some (4, 1 ∷ 0 ∷ 0 ∷ 0 ∷ [])))
      (record { opened = refl; set_before = refl; set_behind = refl; deleted = refl })

abbrev both_hooks : Start
both_hooks = record {
  event_made = true;
  thread_made = true;
  kbd_given = true;
  mouse_given = true;
  in_time = true;
  raises = false;
}

installed : (install_input_block both_hooks unblocked).1 ≡ pos 0
unfolding install_input_block
installed = refl

-- Without the hook of the mouse the call reports a failure, and the keyboard is swallowed.
one_hook_swallows :
    ((install_input_block (record both_hooks { mouse_given = false }) unblocked).1 ≡ negsuc 0)
    × (keyboard_ll_proc
          (pos 0)
          0
          (install_input_block (record both_hooks { mouse_given = false }) unblocked).0
        ≡ true)
unfolding install_input_block keyboard_ll_proc
one_hook_swallows = (refl, refl)

abbrev screen : Screen
screen = record {
  has_desk = true;
  desk_attached = true;
  has_screen_dc = true;
  metrics = (pos 4, pos 2);
  scaled = λ max_w max_h w h. (max_w, max_h);
  has_mem_dc = true;
  has_dib = true;
  has_bits = true;
  layered = true;
  plain = true;
  displays = [];
  has_src_dc = true;
  has_src_dib = true;
  has_src_bits = true;
  stretched = true;
  has_stream = true;
  has_encoder = true;
  saved = true;
  has_global = true;
  jpeg_size = 200;
  locked = true;
}

-- The JPEG does not fit in 100 bytes, the bitmap does.
stored_of : Option Captured → Option (ℕ × ℕ × ℕ)
stored_of none = none
stored_of (some c) = c.stored

bitmap_stored :
    stored_of (capture_desktop_bmp screen true (pos 0) (pos 0) (pos 100)) ≡ some (86, 4, 2)
unfolding stored_of capture_desktop_bmp
bitmap_stored = refl

small_enough : FitsInt (asked_size screen (pos 0) (pos 0) (pos 0) (pos 0) (pos 2) (pos 1))
unfolding total_bmp_size target_size source_of
small_enough = (omega arith, omega arith)

capture-IsSound_example :
    (c : Captured) × (capture_desktop_rect_bmp screen true
        (pos 0)
        (pos 0)
        (pos 0)
        (pos 0)
        (pos 2)
        (pos 1)
        (pos 100)
      ≡ some c)
    × IsSound true 100 c
capture-IsSound_example =
    capture-IsSound screen true (pos 0) (pos 0) (pos 0) (pos 0) (pos 2) (pos 1) (pos 100)
      small_enough

abbrev device_of : Bool → ℤ → Device
device_of attached x = record {
  name = [];
  attached = attached;
  mode = some (record { x = x; y = pos 0; width = 10; height = 5 });
}

abbrev devices : List Device
devices = device_of true (negsuc 9) ∷ device_of false (pos 0) ∷ device_of true (pos 0) ∷ []

abbrev second_rect : Rect
second_rect = record { left = pos 0; top = pos 0; right = pos 10; bottom = pos 5 }

-- The index of a device that is not attached is read as a place among those that are.
second_twice :
    (monitor_rect_by_device_index [] devices 1 ≡ some second_rect)
    × (monitor_rect_by_device_index [] devices 2 ≡ some second_rect)
    × (monitor_rect_by_index [] devices 1 ≡ some second_rect)
unfolding monitor_rect_by_device_index monitor_rect_by_index
second_twice = (refl, refl, refl)
