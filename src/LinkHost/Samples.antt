-- ===== src/LinkHost/Samples.antt =====
-- A worker that bootstraps, sends a frame, shows its window and closes the pipe.
use ligament_apps.Common.{◌≡◌, refl, true, false, Option, none, some, List, [], ◌∷◌, ◌++◌, length}
use ligament_apps.Common.Text.{Text, codes, eq_text}
use ligament_apps.LinkHost.{Environment, Call, new_bridge, life, pipe_prefix}
use ligament_apps.LinkHost.Held.{track, held_of, life-track}
use ligament_apps.LinkHost.Peer.{ToldTo, new_bridge-ToldTo, frames}

abbrev pipe_name : Text
pipe_name = pipe_prefix ++ codes "0123456789abcdef0123456789abcdef"

abbrev windows : Environment
windows = record {
  waited = λ name. true;
  opened = λ name. true;
  server_pid = some 4;
  client_pid = some 9;
  current_pid = 9;
  process = λ pid. record {
    opened = true;
    token_opened = true;
    needed = 36;
    user_read = true;
    system_made = true;
    is_equal = true;
    session = some 0;
  };
  mode_set = true;
  read = λ n. some (codes "{}");
  peek = some 2;
  write = λ s. some (length s);
  iconic = false;
  foreground_thread = 5;
  current_thread = 6;
}

abbrev call_of : Text → Option Text → Call
call_of method argument = record { method = method; argument = argument; environment = windows }

abbrev session : List Call
session =
    call_of (codes "send") (some (codes "early"))
    ∷ call_of (codes "bootstrap") (some pipe_name)
    ∷ call_of (codes "send") (some (codes "frame"))
    ∷ call_of (codes "bringToFront") none
    ∷ call_of (codes "close") none
    ∷ []

-- Only the frame that follows the bootstrap is written.
session_frames : frames (life true session) ≡ codes "frame" ∷ []
unfolding life eq_text
session_frames = refl

life-track_example : track (life true session) (held_of false) ≡ some (held_of false)
life-track_example = life-track true session

new_bridge-ToldTo_example : ToldTo none session (new_bridge true)
new_bridge-ToldTo_example = new_bridge-ToldTo true session
