-- ===== src/LinkHost/Peer.antt =====
-- Whom the channel of windows/runner/link_host_bridge.cpp talks to, and with what frames.
use ligament_apps.Common.{
  ℕ, ◌≤◌, ◌<◌, ◌≡◌, refl, ap, ◌∙◌, ◌⊎◌, inl, inr, Bool, true, false, Option, none, some, List, [],
  ◌∷◌, ◌++◌, arith, ◌==◌, if◌then◌else◌, Bool-cases, Option-cases, length,
}
use ligament_apps.Common.{==_iff}
use ligament_apps.Common.Text.{Text, codes, eq_text}
use ligament_apps.LinkHost.{
  Process, Environment, Handle, Effect, opens, closes, writes, reads, peeks, attaches, detaches,
  restores, shows, raises, Bridge, Call, valid_pipe_name, is_system_process_in_session_zero,
  check_peer, connect_to_service, bootstrap, send, receive, close_pipe, piped_call, on_call,
  new_bridge, raised, frame_limit, is_zero,
}

-- This call reaches the pipe of this name: this process opened it, and a LocalSystem process of
-- session 0 serves it.
pub record IsWorkerPipe (env : Environment) (name : Text) : Type 0 where
  pub reached : (env.waited name ≡ true) × (env.opened name ≡ true)
  pub server : ℕ
  pub serves : env.server_pid ≡ some server
  pub own : env.client_pid ≡ some env.current_pid
  pub is_system : (env.process server).is_equal ≡ true
  pub in_session_0 : (env.process server).session ≡ some 0

-- The call is a bootstrap with a valid name, for a pipe of the service.
pub record Bootstraps (c : Call) : Type 0 where
  pub is_bootstrap : eq_text c.method (codes "bootstrap") ≡ true
  pub value : Text
  pub given : c.argument ≡ some value
  pub name : Text
  pub valid : valid_pipe_name value ≡ some name
  pub peer : IsWorkerPipe c.environment name

is_zero-lem : (o : Option ℕ) → is_zero o ≡ true → o ≡ some 0
is_zero-lem none h = cc
is_zero-lem (some n) h = ap some ((==_iff n 0).0 h)

system_process-lem :
    (p : Process)
    → (is_system_process_in_session_zero p).1 ≡ true
    → (p.is_equal ≡ true) × (p.session ≡ some 0)
unfolding is_system_process_in_session_zero
system_process-lem p h = ground (arith, h, is_zero-lem p.session)

check_peer-server :
    (env : Environment)
    → (check_peer env).1 ≡ true
    → (server : ℕ) × (env.server_pid ≡ some server)
      × (env.client_pid ≡ some env.current_pid)
      × ((is_system_process_in_session_zero (env.process server)).1 ≡ true)
unfolding check_peer
check_peer-server env h = elim (Option-cases env.server_pid) [
  | inl e ↦ absurd (ground (arith, h, e))
  | inr (server, e) ↦ elim (Option-cases env.client_pid) [
    | inl f ↦ absurd (ground (arith, h, e, f))
    | inr (client, f) ↦ elim (Bool-cases (client == env.current_pid)) [
      | inl own ↦ (
        server,
        e,
        f ∙ ap some ((==_iff client env.current_pid).0 own),
        ground (arith, h, e, f, own),
      )
      | inr other ↦ absurd (ground (arith, h, e, f, other))
    ]
  ]
]

connect-IsWorkerPipe :
    (env : Environment) (name : Text)
    → (connect_to_service env name).1 ≡ true
    → IsWorkerPipe env name
unfolding connect_to_service
connect-IsWorkerPipe env name h =
    let (server, serves, own, system) = check_peer-server env (ground (arith, h)) in
    let (is_equal, zero_session) = system_process-lem (env.process server) system in
    record {
      reached = (ground (arith, h), ground (arith, h));
      server = server;
      serves = serves;
      own = own;
      is_system = is_equal;
      in_session_0 = zero_session;
    }

bootstrap-opens :
    (c : Call) (b : Bridge)
    → eq_text c.method (codes "bootstrap") ≡ true
    → b.has_pipe ≡ false
    → (bootstrap c.environment c.argument b).bridge.has_pipe ≡ true
    → Bootstraps c
unfolding bootstrap
bootstrap-opens c b m closed h = elim (Option-cases c.argument) [
  | inl e ↦ absurd (ground (arith, e, closed, h))
  | inr (value, e) ↦ elim (Option-cases (valid_pipe_name value)) [
    | inl f ↦ absurd (ground (arith, e, f, closed, h))
    | inr (name, f) ↦ record {
      is_bootstrap = m;
      value = value;
      given = e;
      name = name;
      valid = f;
      peer = connect-IsWorkerPipe c.environment name (ground (arith, e, f, closed, h));
    }
  ]
]

on_call-opens :
    (c : Call) (b : Bridge)
    → b.has_pipe ≡ false
    → (on_call c b).bridge.has_pipe ≡ true
    → Bootstraps c
unfolding on_call
on_call-opens c b closed h = elim (Bool-cases (eq_text c.method (codes "bootstrap"))) [
  | inl m ↦ bootstrap-opens c b m closed (ground (arith, m, closed, h))
  | inr m ↦ absurd (ground (arith, m, closed, h))
]

-- The frames that are written, in order.
abbrev pub frames : List Effect → List Text
frames [] = []
frames (writes frame ∷ es) = frame ∷ frames es
frames (opens h ∷ es) = frames es
frames (closes h ∷ es) = frames es
frames (reads ∷ es) = frames es
frames (peeks ∷ es) = frames es
frames (attaches ∷ es) = frames es
frames (detaches ∷ es) = frames es
frames (restores ∷ es) = frames es
frames (shows ∷ es) = frames es
frames (raises ∷ es) = frames es

-- Each frame has 1 to so many bytes.
abbrev pub AreFrames : List Text → Type 0
AreFrames [] = Unit
AreFrames (frame ∷ fs) = (0 < length frame) × (length frame ≤ frame_limit) × AreFrames fs

-- The call that opened the pipe that is open after this one.
abbrev pub peer_after : Call → Bridge → Option Call → Option Call
peer_after c b peer =
    if (on_call c b).bridge.has_pipe then (if b.has_pipe then peer else some c) else none

-- Nothing is written, or frames to the pipe that this call opened.
abbrev pub Told : Option Call → List Text → Type 0
Told peer fs = (fs ≡ []) ⊎ ((c : Call) × (peer ≡ some c) × Bootstraps c × AreFrames fs)

-- So for each of these calls, from this bridge with this peer on.
abbrev pub ToldTo : Option Call → List Call → Bridge → Type 0
ToldTo peer [] b = Unit
ToldTo peer (c ∷ cs) b =
    Told peer (frames (on_call c b).effects) × ToldTo (peer_after c b peer) cs (on_call c b).bridge

frames-append : (es fs : List Effect) → frames (es ++ fs) ≡ frames es ++ frames fs
frames-append [] fs = refl
frames-append (writes frame ∷ es) fs = ap (◌∷◌ frame) (frames-append es fs)
frames-append (opens h ∷ es) fs = frames-append es fs
frames-append (closes h ∷ es) fs = frames-append es fs
frames-append (reads ∷ es) fs = frames-append es fs
frames-append (peeks ∷ es) fs = frames-append es fs
frames-append (attaches ∷ es) fs = frames-append es fs
frames-append (detaches ∷ es) fs = frames-append es fs
frames-append (restores ∷ es) fs = frames-append es fs
frames-append (shows ∷ es) fs = frames-append es fs
frames-append (raises ∷ es) fs = frames-append es fs

system_process-frames : (p : Process) → frames (is_system_process_in_session_zero p).0 ≡ []
unfolding is_system_process_in_session_zero
system_process-frames p = ground arith

check_peer-frames : (env : Environment) → frames (check_peer env).0 ≡ []
unfolding check_peer
check_peer-frames env = elim (Option-cases env.server_pid) [
  | inl e ↦ rw e
  | inr (server, e) ↦ ground (arith, e, system_process-frames (env.process server))
]

connect-frames : (env : Environment) (name : Text) → frames (connect_to_service env name).0 ≡ []
unfolding connect_to_service
connect-frames env name =
    ground
      (arith, check_peer-frames env, frames-append (check_peer env).0 (closes Handle.pipe ∷ []))

bootstrap-frames :
    (env : Environment) (argument : Option Text) (b : Bridge)
    → frames (bootstrap env argument b).effects ≡ []
unfolding bootstrap
bootstrap-frames env none b = refl
bootstrap-frames env (some value) b = elim (Option-cases (valid_pipe_name value)) [
  | inl e ↦ ground (arith, e)
  | inr (name, e) ↦
      let connected = (connect_to_service env name).0 in
      ground (
        arith,
        e,
        connect-frames env name,
        frames-append connected (reads ∷ closes Handle.pipe ∷ []),
        frames-append connected (reads ∷ []),
      )
]

send-frames :
    (env : Environment) (argument : Option Text) → AreFrames (frames (send env argument).0)
unfolding send
send-frames env none = tt
send-frames env (some []) = tt
send-frames env (some (c ∷ s)) = ground arith

piped_call-frames : (c : Call) (b : Bridge) → AreFrames (frames (piped_call c b).effects)
unfolding piped_call receive close_pipe
piped_call-frames c b = ground (arith, send-frames c.environment c.argument)

raised-frames : (env : Environment) → frames (raised env) ≡ []
raised-frames env = ground arith

on_call-frames :
    (c : Call) (b : Bridge)
    → (frames (on_call c b).effects ≡ [])
      ⊎ ((b.has_pipe ≡ true) × AreFrames (frames (on_call c b).effects))
unfolding on_call
on_call-frames c b = elim (Bool-cases b.has_pipe) [
  | inl e ↦ inr (
    e,
    ground (
      arith,
      e,
      raised-frames c.environment,
      bootstrap-frames c.environment c.argument b,
      piped_call-frames c b,
    ),
  )
  | inr e ↦
      inl (
        ground (arith, e, raised-frames c.environment, bootstrap-frames c.environment c.argument b))
]

peer_after-lem :
    (peer : Option Call) (c : Call) (b : Bridge)
    → (b.has_pipe ≡ true → (c : Call) × (peer ≡ some c) × Bootstraps c)
    → (on_call c b).bridge.has_pipe ≡ true
    → (c' : Call) × (peer_after c b peer ≡ some c') × Bootstraps c'
peer_after-lem peer c b h e = elim (Bool-cases b.has_pipe) [
  | inl old ↦ let (c', p, boots) = h old in (c', ground (arith, e, old, p), boots)
  | inr new ↦ (c, ground (arith, e, new), on_call-opens c b new e)
]

ToldTo-from :
    (peer : Option Call) (cs : List Call) (b : Bridge)
    → (b.has_pipe ≡ true → (c : Call) × (peer ≡ some c) × Bootstraps c)
    → ToldTo peer cs b
ToldTo-from peer [] b h = tt
ToldTo-from peer (c ∷ cs) b h = (
  elim (on_call-frames c b) [
    | inl e ↦ inl e
    | inr (open_pipe, sized) ↦ let (c', e, boots) = h open_pipe in inr (c', e, boots, sized)
  ],
  ToldTo-from (peer_after c b peer) cs (on_call c b).bridge (peer_after-lem peer c b h),
)

-- Over any calls of a new channel, each call writes nothing, or only frames of 1 to 512 KiB, and
-- then the pipe is one that a bootstrap of these calls opened: with a valid name, by this process,
-- and served by a process that Windows takes for LocalSystem in session 0.
pub new_bridge-ToldTo :
    (has_window : Bool) (cs : List Call) → ToldTo none cs (new_bridge has_window)
new_bridge-ToldTo has_window cs =
    ToldTo-from none cs (new_bridge has_window) (λ h. absurd (ground (arith, h)))
