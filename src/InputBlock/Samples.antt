-- ===== src/InputBlock/Samples.antt =====
-- Concrete queues of remote input.
use ligament_apps.Common.{
  ℕ, zero, suc, ◌≡◌, refl, true, false, none, some, List, [], ◌∷◌, ◌++◌, ◌==◌, empty,
}
use ligament_apps.Common.Text.{Text, codes, eq_text, eq_icase}
use ligament_apps.InputBlock.{make_room}
use ligament_apps.InputBlock.Worker.{
  Desktops, Worker, started_at, is_secure_desktop, find_active_input_desktop, attach_to,
  attach_current_input_desktop, Effect, release_keys, release_modifier_keys, execute, WorkerRound,
  enqueue_all, check_desktop, handle_task, worker_round,
}
use ligament_apps.InputBlock.Scope.{ArePermitted, started-ArePermitted}
use ligament_apps.InputBlock.{
  NativeInputTask, enqueue, is_move, coalesce, vk_task, mouse_task, move_flags,
}
use ligament_apps.InputBlock.Releases.{releases, releases-enqueue}

abbrev moved : ℕ → NativeInputTask
unfolding mouse_task
moved x = mouse_task x 0 x 0 move_flags 0

abbrev queue : List NativeInputTask
unfolding vk_task
queue = vk_task 65 true ∷ vk_task 65 false ∷ moved 1 ∷ []

releases-enqueue_example : releases (enqueue (moved 2) queue) ≡ releases (queue ++ moved 2 ∷ [])
releases-enqueue_example = releases-enqueue (moved 2) queue

-- The newest move takes the place of the last.
enqueue-moved : enqueue (moved 2) queue ≡ vk_task 65 true ∷ vk_task 65 false ∷ moved 2 ∷ []
unfolding enqueue moved queue is_move coalesce
enqueue-moved = refl

-- Desktop 0 is the usual one, the others are those of the logon.
abbrev names : ℕ → Text
names zero = codes "Default"
names (suc n) = codes "Winlogon"

names_full : (desk : ℕ) → empty (names desk) ≡ false
names_full zero = refl
names_full (suc n) = refl

-- The input goes to one desktop.
abbrev at_desktop : ℕ → Desktops
at_desktop desk = record {
  input = some desk;
  named = λ _. none;
  receiving = λ other. other == desk;
  can_attach = λ _. true;
}

abbrev round_at : ℕ → ℕ → NativeInputTask → WorkerRound
round_at desk now task = record {
  arrivals = task ∷ [];
  now = now;
  desktops = at_desktop desk;
  keyboard = record { is_held = λ vk. vk == 0x11; scan_of = λ _. 0 };
  keep_awake = false;
  allowed = false;
  allowed_later = false;
}

-- A key on the usual desktop, then one after the switch to the logon's.
abbrev rounds : List WorkerRound
unfolding vk_task
rounds = round_at 0 50000 (vk_task 65 true) ∷ round_at 1 51000 (vk_task 66 true) ∷ []

started-ArePermitted_example : ArePermitted names (λ c. c) rounds [] (started_at 49000)
started-ArePermitted_example = started-ArePermitted names (λ c. c) rounds [] 49000 names_full

-- The effects of some rounds.
abbrev effects_of : (ℕ → Text) → List WorkerRound → List NativeInputTask → Worker → List Effect
effects_of titles [] tasks w = []
effects_of titles (r ∷ rs) tasks w =
    let (effects, rest, after) = worker_round titles (λ c. c) r tasks w in
    effects ++ effects_of titles rs rest after

-- The second key is not injected; the held modifier is released.
second_key_dropped :
    effects_of names rounds [] (started_at 49000)
    ≡ Effect.inject_key 65 0 0 ∷ Effect.release_key 0x11 0 ∷ []
unfolding rounds worker_round enqueue is_move coalesce make_room enqueue_all check_desktop
    handle_task attach_current_input_desktop find_active_input_desktop attach_to is_secure_desktop
    release_modifier_keys release_keys execute eq_text eq_icase
second_key_dropped = refl

-- Where Windows does not tell the name of the logon's desktop, it is.
abbrev unnamed : ℕ → Text
unnamed zero = codes "Default"
unnamed (suc n) = []

second_key_injected :
    effects_of unnamed rounds [] (started_at 49000)
    ≡ Effect.inject_key 65 0 0 ∷ Effect.inject_key 66 0 0 ∷ []
unfolding rounds worker_round enqueue is_move coalesce make_room enqueue_all check_desktop
    handle_task attach_current_input_desktop find_active_input_desktop attach_to is_secure_desktop
    release_modifier_keys release_keys execute eq_text eq_icase
second_key_injected = refl
