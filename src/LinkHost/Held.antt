-- ===== src/LinkHost/Held.antt =====
-- The handles that the channel of windows/runner/link_host_bridge.cpp holds.
use ligament_apps.Common.{
  ◌≡◌, refl, ap, ◌∙◌, inl, inr, Bool, true, false, Option, none, some, List, [], ◌∷◌, ◌++◌, arith,
  not, Option-cases,
}
use ligament_apps.Common.Text.{Text}
use ligament_apps.LinkHost.{
  Process, Environment, Handle, Effect, opens, closes, writes, reads, peeks, attaches, detaches,
  restores, shows, raises, Bridge, Call, valid_pipe_name, is_system_process_in_session_zero,
  check_peer, connect_to_service, bootstrap, send, receive, close_pipe, piped_call, on_call,
  run_calls, new_bridge, life, raised,
}

-- Which handles are open, and whether the input of the foreground thread is attached.
pub record Held : Type 0 where
  pub has_pipe : Bool
  pub has_process : Bool
  pub has_token : Bool
  pub attached : Bool

abbrev when : Bool → Held → Option Held
when true h = some h
when false h = none

-- Nothing is opened or attached twice, nothing is closed or detached that is not open, and the pipe is
-- used only while it is open.
abbrev pub effect_step : Effect → Held → Option Held
effect_step (opens Handle.pipe) h = when (not h.has_pipe) (record h { has_pipe = true })
effect_step (opens Handle.process) h = when (not h.has_process) (record h { has_process = true })
effect_step (opens Handle.token) h = when (not h.has_token) (record h { has_token = true })
effect_step (closes Handle.pipe) h = when h.has_pipe (record h { has_pipe = false })
effect_step (closes Handle.process) h = when h.has_process (record h { has_process = false })
effect_step (closes Handle.token) h = when h.has_token (record h { has_token = false })
effect_step (writes frame) h = when h.has_pipe h
effect_step reads h = when h.has_pipe h
effect_step peeks h = when h.has_pipe h
effect_step attaches h = when (not h.attached) (record h { attached = true })
effect_step detaches h = when h.attached (record h { attached = false })
effect_step restores h = some h
effect_step shows h = some h
effect_step raises h = some h

abbrev pub track : List Effect → Held → Option Held
track [] h = some h
track (e ∷ es) h = elim (effect_step e h) [ none ↦ none | some h' ↦ track es h' ]

-- Nothing is held but the pipe, where the bridge has one.
abbrev pub held_of : Bool → Held
held_of has_pipe = record {
  has_pipe = has_pipe;
  has_process = false;
  has_token = false;
  attached = false;
}

track-append :
    (es fs : List Effect) (h h' : Held) → track es h ≡ some h' → track (es ++ fs) h ≡ track fs h'
track-append [] fs h h' e = ap (track fs) (ground (arith, e))
track-append (x ∷ es) fs h h' e = elim (Option-cases (effect_step x h)) [
  | inl f ↦ absurd (ground (arith, e, f))
  | inr (g, f) ↦ rw (f, track) (track-append es fs g h' (ground (arith, e, f)))
]

system_process-track :
    (p : Process)
    → track (is_system_process_in_session_zero p).0 (held_of true) ≡ some (held_of true)
unfolding is_system_process_in_session_zero
system_process-track p = ground arith

check_peer-track :
    (env : Environment) → track (check_peer env).0 (held_of true) ≡ some (held_of true)
unfolding check_peer
check_peer-track env = elim (Option-cases env.server_pid) [
  | inl e ↦ rw e
  | inr (server, e) ↦ ground (arith, e, system_process-track (env.process server))
]

connect-track :
    (env : Environment) (name : Text)
    → track (connect_to_service env name).0 (held_of false)
      ≡ some (held_of (connect_to_service env name).1)
unfolding connect_to_service
connect-track env name = ground (
  arith,
  check_peer-track env,
  track-append (check_peer env).0 (closes Handle.pipe ∷ []) (held_of true) (held_of true),
)

bootstrap-track :
    (env : Environment) (argument : Option Text) (b : Bridge)
    → track (bootstrap env argument b).effects (held_of b.has_pipe)
      ≡ some (held_of (bootstrap env argument b).bridge.has_pipe)
unfolding bootstrap
bootstrap-track env none b = refl
bootstrap-track env (some value) b = elim (Option-cases (valid_pipe_name value)) [
  | inl e ↦ ground (arith, e)
  | inr (name, e) ↦
      let connected = (connect_to_service env name).0 in
      ground (
        arith,
        e,
        connect-track env name,
        track-append connected (reads ∷ closes Handle.pipe ∷ []) (held_of false) (held_of true),
        track-append connected (reads ∷ []) (held_of false) (held_of true),
      )
]

piped_call-track :
    (c : Call) (b : Bridge)
    → b.has_pipe ≡ true
    → track (piped_call c b).effects (held_of b.has_pipe)
      ≡ some (held_of (piped_call c b).bridge.has_pipe)
unfolding piped_call send receive close_pipe
piped_call-track c b e = ground arith

raised-track :
    (env : Environment) (has_pipe : Bool)
    → track (raised env) (held_of has_pipe) ≡ some (held_of has_pipe)
raised-track env has_pipe = ground arith

on_call-track :
    (c : Call) (b : Bridge)
    → track (on_call c b).effects (held_of b.has_pipe)
      ≡ some (held_of (on_call c b).bridge.has_pipe)
unfolding on_call
on_call-track c b = ground (
  arith,
  raised-track c.environment b.has_pipe,
  bootstrap-track c.environment c.argument b,
  piped_call-track c b,
)

run_calls-track :
    (cs : List Call) (b : Bridge)
    → track (run_calls cs b).1 (held_of b.has_pipe) ≡ some (held_of (run_calls cs b).0.has_pipe)
unfolding run_calls
run_calls-track [] b = refl
run_calls-track (c ∷ cs) b =
    track-append (on_call c b).effects (run_calls cs (on_call c b).bridge).1 (held_of b.has_pipe)
      (held_of (on_call c b).bridge.has_pipe) (on_call-track c b)
    ∙ run_calls-track cs (on_call c b).bridge

close_pipe-track : (b : Bridge) → track (close_pipe b).1 (held_of b.has_pipe) ≡ some (held_of false)
unfolding close_pipe
close_pipe-track b = ground arith

-- From its constructor to its destructor, over any calls, the channel opens no handle twice,
-- closes each that it opens and only those, uses its pipe only while that is open, detaches the
-- input of the foreground thread where it attached it, and holds nothing at the end.
pub life-track :
    (has_window : Bool) (cs : List Call)
    → track (life has_window cs) (held_of false) ≡ some (held_of false)
unfolding life
life-track has_window cs =
    let b = (run_calls cs (new_bridge has_window)).0 in
    track-append (run_calls cs (new_bridge has_window)).1 (close_pipe b).1 (held_of false)
      (held_of b.has_pipe) (run_calls-track cs (new_bridge has_window))
    ∙ close_pipe-track b
