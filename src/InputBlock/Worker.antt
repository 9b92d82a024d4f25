-- ===== src/InputBlock/Worker.antt =====
-- The thread that takes tasks from the queue of windows/runner/input_block.cpp, as rounds of
-- `DesktopInputWorkerLoop`, with the desktop that it is attached to. What Windows tells of the
-- desktops is the record `Desktops`; a desktop's handle is a number, and its name a parameter.
use ligament_apps.Common.{
  ℕ, ◌+◌, ◌-◌, Bool, true, false, ◌&&◌, ◌||◌, Option, none, some, List, [], ◌∷◌, ◌++◌, leb, ◌==◌,
  if◌then◌else◌, not, is_some, empty,
}
use ligament_apps.Common.Text.{Text, codes, eq_text, eq_icase}
use ligament_apps.InputBlock.{NativeInputTask, Kind, enqueue}

-- In one round: `OpenInputDesktop`, `OpenDesktopW` by a name, `IsDesktopReceivingInput`, and whether
-- `SetThreadDesktop` succeeds.
pub record Desktops : Type 0 where
  pub input : Option ℕ
  pub named : Text → Option ℕ
  pub receiving : ℕ → Bool
  pub can_attach : ℕ → Bool

-- The thread's variables, with the handles that it has closed.
pub record Worker : Type 0 where
  pub active_desk : Option ℕ
  pub last_awake_tick : ℕ
  pub last_desktop_check : ℕ
  pub last_desktop_name : Text
  pub desktop_changed : Bool
  pub closed : List ℕ

-- The thread as it starts, at a time in milliseconds.
abbrev pub started_at : ℕ → Worker
started_at now = record {
  active_desk = none;
  last_awake_tick = now - 30000;
  last_desktop_check = now - 250;
  last_desktop_name = [];
  desktop_changed = false;
  closed = [];
}

-- `IsSecureDesktop(name)`, with the case folding of the C runtime.
unfoldable pub is_secure_desktop : (ℕ → ℕ) → Text → Bool
unfolding eq_icase
is_secure_desktop fold name =
    if empty name
    then false
    else eq_icase fold name (codes "Winlogon") || eq_icase fold name (codes "Screen-saver")

-- The desktop to fall back on is closed, unless it is the one that is taken.
abbrev closing : Option ℕ → ℕ → List ℕ
closing none taken = []
closing (some fallback) taken = if fallback == taken then [] else fallback ∷ []

-- The candidates of `FindActiveInputDesktop`, with the desktop to fall back on: what is found, and
-- the handles that are closed.
unfoldable pub find_candidate : Desktops → Option ℕ → List ℕ → List Text → Option ℕ × List ℕ
find_candidate d fallback closed [] = (fallback, closed)
find_candidate d fallback closed (name ∷ names) = elim (d.named name) [
  | none ↦ find_candidate d fallback closed names
  | some cand ↦ elim (d.receiving cand) [
    | true ↦ (some cand, closed ++ closing fallback cand)
    | false ↦ elim (not (is_some fallback) && eq_text name (codes "Default")) [
      | true ↦ find_candidate d (some cand) closed names
      | false ↦ find_candidate d fallback (closed ++ cand ∷ []) names
    ]
  ]
]

abbrev candidates : List Text
candidates = codes "Default" ∷ codes "Winlogon" ∷ codes "Screen-saver" ∷ []

unfoldable pub find_active_input_desktop : Desktops → Option ℕ × List ℕ
unfolding find_candidate
find_active_input_desktop d = elim d.input [
  | none ↦ find_candidate d none [] candidates
  | some desk ↦
      if d.receiving desk then (some desk, []) else find_candidate d (some desk) [] candidates
]

abbrev listed : Option ℕ → List ℕ
listed none = []
listed (some desk) = desk ∷ []

abbrev pub is_receiving : Desktops → Option ℕ → Bool
is_receiving d none = false
is_receiving d (some desk) = d.receiving desk

-- `AttachCurrentInputDesktop` to a desktop that was found.
unfoldable pub attach_to : (ℕ → Text) → Desktops → ℕ → Worker → Worker
attach_to names d target w =
    let name = names target in
    let changed = not (empty name) && not (eq_text name w.last_desktop_name) in
    if d.can_attach target
    then record w {
      active_desk = some target;
      closed = w.closed ++ listed w.active_desk;
      desktop_changed = w.desktop_changed || changed && not (empty w.last_desktop_name);
      last_desktop_name = if changed then name else w.last_desktop_name;
    }
    else record w { closed = w.closed ++ target ∷ [] }

unfoldable pub attach_current_input_desktop : (ℕ → Text) → Desktops → Worker → Worker
unfolding find_active_input_desktop attach_to
attach_current_input_desktop names d w =
    if is_receiving d w.active_desk
    then w
    else let (found, closed) = find_active_input_desktop d in
      let after : Worker = record w { closed = w.closed ++ closed } in
      elim found [ none ↦ after | some target ↦ attach_to names d target after ]

-- What the thread does to the input of Windows.
pub data Effect : Type 0 where
  keep_alive : Effect
  release_key : (vk scan : ℕ) → Effect
  inject_key : (vk scan flags : ℕ) → Effect
  inject_mouse : (dx dy flags mouse_data : ℕ) → Effect
  inject_sas : Effect

abbrev pub modifier_keys : List ℕ
modifier_keys = 0xa2 ∷ 0xa3 ∷ 0x11 ∷ 0xa4 ∷ 0xa5 ∷ 0x12 ∷ 0xa0 ∷ 0xa1 ∷ 0x10 ∷ 0x5b ∷ 0x5c ∷ []

-- The keyboard: `GetAsyncKeyState` by a key, and `MapVirtualKeyW`.
pub record Keyboard : Type 0 where
  pub is_held : ℕ → Bool
  pub scan_of : ℕ → ℕ

unfoldable pub release_keys : Keyboard → List ℕ → List Effect
release_keys k [] = []
release_keys k (vk ∷ keys) =
    let rest = release_keys k keys in
    if k.is_held vk then release_key vk (k.scan_of vk) ∷ rest else rest

-- `ReleaseModifierKeys()`.
unfoldable pub release_modifier_keys : Keyboard → List Effect
unfolding release_keys
release_modifier_keys k = release_keys k modifier_keys

-- The keys that `ExecuteSendVk` marks as extended.
abbrev is_extended : ℕ → Bool
is_extended vk =
    vk == 0xa3
    || vk == 0xa5
    || vk == 0x2d
    || vk == 0x2e
    || vk == 0x24
    || vk == 0x23
    || vk == 0x21
    || vk == 0x22
    || leb 0x25 vk && leb vk 0x28

abbrev key_up : Bool → ℕ
key_up is_down = if is_down then 0 else 2

-- The functions `ExecuteSend…`, by the kind of the task. `allowed` is read again for SAS.
unfoldable pub execute : Keyboard → Bool → NativeInputTask → List Effect
execute k allowed t = elim t.kind [
  | Kind.unicode ↦ inject_key 0 t.ch (4 + key_up t.is_down) ∷ []
  | Kind.vk ↦
      inject_key t.key (k.scan_of t.key) (key_up t.is_down + (if is_extended t.key then 1 else 0))
      ∷ []
  | Kind.mouse ↦ inject_mouse t.norm_vx t.norm_vy t.mouse_flags t.mouse_data ∷ []
  | Kind.sas ↦ if allowed then inject_sas ∷ [] else []
]

-- One round: the tasks that arrive before it, its time, and what it reads of the shared flags; the
-- scope is read twice.
pub record WorkerRound : Type 0 where
  pub arrivals : List NativeInputTask
  pub now : ℕ
  pub desktops : Desktops
  pub keyboard : Keyboard
  pub keep_awake : Bool
  pub allowed : Bool
  pub allowed_later : Bool

unfoldable pub enqueue_all : List NativeInputTask → List NativeInputTask → List NativeInputTask
unfolding enqueue
enqueue_all [] queue = queue
enqueue_all (t ∷ ts) queue = enqueue_all ts (enqueue t queue)

-- The look at the desktop, at most every 250 ms.
unfoldable pub check_desktop : (ℕ → Text) → WorkerRound → Worker → Worker
unfolding attach_current_input_desktop
check_desktop names r w =
    if leb (w.last_desktop_check + 250) r.now
    then attach_current_input_desktop names r.desktops (record w { last_desktop_check = r.now })
    else w

-- Whether the thread keeps Windows awake in this round.
abbrev pub is_awake_due : WorkerRound → Worker → Bool
is_awake_due r w = r.keep_awake && leb (w.last_awake_tick + 15000) r.now

-- What becomes of the task.
unfoldable pub handle_task : (ℕ → ℕ) → WorkerRound → Worker → Option NativeInputTask → List Effect
unfolding is_secure_desktop release_modifier_keys execute
handle_task fold r w none = []
handle_task fold r w (some t) =
    if is_secure_desktop fold w.last_desktop_name && not r.allowed
    then release_modifier_keys r.keyboard
    else execute r.keyboard r.allowed_later t

abbrev pub pop_front : List NativeInputTask → Option NativeInputTask × List NativeInputTask
pop_front [] = (none, [])
pop_front (t ∷ ts) = (some t, ts)

-- A round of `DesktopInputWorkerLoop`: the effects, the queue and the thread after it.
unfoldable pub worker_round :
    (ℕ → Text)
    → (ℕ → ℕ)
    → WorkerRound
    → List NativeInputTask
    → Worker
    → List Effect × List NativeInputTask × Worker
unfolding enqueue_all check_desktop handle_task
worker_round names fold r queue w =
    let (task, rest) = pop_front (enqueue_all r.arrivals queue) in
    let attached = check_desktop names r w in
    if is_awake_due r attached
    then (
      keep_alive ∷ handle_task fold r attached task,
      rest,
      record attached { last_awake_tick = r.now },
    )
    else (handle_task fold r attached task, rest, attached)
