-- ===== src/LinkHost.antt =====
-- The channel of the Link host worker, windows/runner/link_host_bridge.cpp: the pipe to the service
-- that started the worker, by the calls of the channel. Windows and the service are the record
-- `Environment`, one for each call.
pub mod Held
pub mod Peer
pub mod Samples
use ligament_apps.Common.{
  ℕ, zero, suc, ◌+◌, ◌-◌, ◌*◌, ◌/◌, ◌%◌, ◌^◌, ◌≤◌, ◌<◌, String, ◌≡◌, refl, sym, ap, ◌∙◌, ◌≢◌, ◌↔◌,
  ◌⊎◌, inl, inr, Bool, true, false, ◌&&◌, ◌||◌, Option, none, some, List, [], ◌∷◌, ◌++◌, map, arith,
  ltb, leb, ◌==◌, if◌then◌else◌, not, is_some, Bool-cases, Option-cases, length, take, drop,
  get_elem?, empty, any, all,
}
use ligament_apps.Common.Text.{Text, codes, eq_text}

-- `kFrameLimit`.
abbrev pub frame_limit : ℕ
frame_limit = 524288

abbrev pub pipe_prefix : Text
pipe_prefix = codes "\\\\.\\pipe\\LigamentLinkHost-"

-- What Windows tells of a process: whether it opens, its token too, the room that `TokenUser` asks
-- for, whether it is then read and a SID of LocalSystem is made, whether the two are equal, and the
-- session.
pub record Process : Type 0 where
  pub opened : Bool
  pub token_opened : Bool
  pub needed : ℕ
  pub user_read : Bool
  pub system_made : Bool
  pub is_equal : Bool
  pub session : Option ℕ

-- Windows as a call meets it. `pipe` is what the other end of a pipe gives: the bytes of a message
-- of at most so many, and what `PeekNamedPipe` tells of it.
pub record Environment : Type 0 where
  pub waited : Text → Bool
  pub opened : Text → Bool
  pub server_pid : Option ℕ
  pub client_pid : Option ℕ
  pub current_pid : ℕ
  pub process : ℕ → Process
  pub mode_set : Bool
  pub read : ℕ → Option Text
  pub peek : Option ℕ
  pub write : Text → Option ℕ
  pub iconic : Bool
  pub foreground_thread : ℕ
  pub current_thread : ℕ

pub data Handle : Type 0 where
  pipe process token : Handle

-- What a call does: with handles, with the pipe, with the input of the foreground thread, and with
-- the window; `raises` sets it on top, in the foreground and in front of the others.
pub data Effect : Type 0 where
  opens : Handle → Effect
  closes : Handle → Effect
  writes : Text → Effect
  reads : Effect
  peeks : Effect
  attaches : Effect
  detaches : Effect
  restores : Effect
  shows : Effect
  raises : Effect

-- What a call of the channel is answered.
pub data Answer : Type 0 where
  success : Answer
  text : Text → Answer
  truth : Bool → Answer
  failure : Text → Answer
  not_implemented : Answer

-- `pipe_ != INVALID_HANDLE_VALUE`, and `window_handle_ != nullptr`.
pub record Bridge : Type 0 where
  pub has_pipe : Bool
  pub has_window : Bool

-- A call of the channel: its method, its argument where that is a text, and its surroundings.
pub record Call : Type 0 where
  pub method : Text
  pub argument : Option Text
  pub environment : Environment

abbrev pub is_lower_hex : ℕ → Bool
is_lower_hex c = leb b'0' c && leb c b'9' || leb b'a' c && leb c b'f'

unfoldable pub valid_pipe_name : Text → Option Text
valid_pipe_name value =
    if not (length value == length pipe_prefix + 32)
    then none
    else if not (eq_text (take (length pipe_prefix) value) pipe_prefix)
    then none
    else if not (all is_lower_hex (drop (length pipe_prefix) value))
    then none
    else some (pipe_prefix ++ drop (length pipe_prefix) value)

abbrev pub is_zero : Option ℕ → Bool
is_zero none = false
is_zero (some n) = n == 0

unfoldable pub is_system_process_in_session_zero : Process → List Effect × Bool
is_system_process_in_session_zero p =
    if not p.opened
    then ([], false)
    else if not p.token_opened
    then (opens Handle.process ∷ closes Handle.process ∷ [], false)
    else (
      opens Handle.process ∷ opens Handle.token ∷ closes Handle.process ∷ closes Handle.token ∷ [],
      ltb 0 p.needed && (p.user_read && (p.system_made && (p.is_equal && is_zero p.session))),
    )

-- The tests of a pipe that is open.
unfoldable pub check_peer : Environment → List Effect × Bool
unfolding is_system_process_in_session_zero
check_peer env = elim env.server_pid [
  | none ↦ ([], false)
  | some server ↦ elim env.client_pid [
    | none ↦ ([], false)
    | some client ↦
        if client == env.current_pid
        then is_system_process_in_session_zero (env.process server)
        else ([], false)
  ]
]

unfoldable pub connect_to_service : Environment → Text → List Effect × Bool
unfolding check_peer
connect_to_service env name =
    if not (env.waited name) || not (env.opened name)
    then ([], false)
    else if (check_peer env).1 && env.mode_set
    then (opens Handle.pipe ∷ (check_peer env).0, true)
    else (opens Handle.pipe ∷ (check_peer env).0 ++ closes Handle.pipe ∷ [], false)

-- `ReadFrame`: a message of 1 to `frame_limit` bytes.
unfoldable pub read_frame : Environment → Option Text
read_frame env = elim (env.read frame_limit) [
  | none ↦ none
  | some frame ↦ if length frame == 0 || ltb frame_limit (length frame) then none else some frame
]

-- Bringing the window to the front.
abbrev pub raised : Environment → List Effect
raised env =
    (if env.iconic then restores else shows)
    ∷ (if not (env.foreground_thread == 0) && not (env.foreground_thread == env.current_thread)
        then attaches ∷ raises ∷ detaches ∷ []
        else raises ∷ [])

-- What a call leaves, does and answers.
pub record Done : Type 0 where
  pub bridge : Bridge
  pub effects : List Effect
  pub answer : Answer

unfoldable pub bootstrap : Environment → Option Text → Bridge → Done
unfolding valid_pipe_name connect_to_service read_frame
bootstrap env argument b =
    let refused : Text → List Effect → Done =
      λ code effects. record { bridge = b; effects = effects; answer = failure code } in
    elim argument [
      | none ↦ refused (codes "link_worker_pipe_refused") []
      | some value ↦ elim (valid_pipe_name value) [
        | none ↦ refused (codes "link_worker_pipe_refused") []
        | some name ↦
            if b.has_pipe
            then refused (codes "link_worker_pipe_refused") []
            else if not (connect_to_service env name).1
            then refused (codes "link_worker_pipe_refused") (connect_to_service env name).0
            else elim (read_frame env) [
              | none ↦
                  refused (codes "link_worker_bootstrap_failed")
                    ((connect_to_service env name).0 ++ reads ∷ closes Handle.pipe ∷ [])
              | some frame ↦ record {
                bridge = record b { has_pipe = true };
                effects = (connect_to_service env name).0 ++ reads ∷ [];
                answer = text frame;
              }
            ]
      ]
    ]

unfoldable pub send : Environment → Option Text → List Effect × Answer
send env argument =
    let invalid : List Effect × Answer = ([], failure (codes "invalid_link_worker_frame")) in
    elim argument [
      | none ↦ invalid
      | some frame ↦ if empty frame || ltb frame_limit (length frame) then invalid else (
        writes frame ∷ [],
        truth (elim (env.write frame) [ none ↦ false | some n ↦ n == length frame ]),
      )
    ]

unfoldable pub receive : Environment → List Effect × Answer
unfolding read_frame
receive env = elim env.peek [
  | none ↦ (peeks ∷ [], failure (codes "link_worker_pipe_failed"))
  | some size ↦
      if size == 0
      then (peeks ∷ [], success)
      else if ltb frame_limit size
      then (peeks ∷ [], failure (codes "link_worker_frame_too_large"))
      else elim (read_frame env) [
        | none ↦ (peeks ∷ reads ∷ [], failure (codes "link_worker_pipe_failed"))
        | some frame ↦ (peeks ∷ reads ∷ [], text frame)
      ]
]

abbrev pub unchanged : Bridge → List Effect × Answer → Done
unchanged b r = record { bridge = b; effects = r.0; answer = r.1 }

unfoldable pub close_pipe : Bridge → Bridge × List Effect
close_pipe b =
    if b.has_pipe then (record b { has_pipe = false }, closes Handle.pipe ∷ []) else (b, [])

-- The methods that want the pipe.
unfoldable pub piped_call : Call → Bridge → Done
unfolding send receive close_pipe
piped_call c b =
    if eq_text c.method (codes "send")
    then unchanged b (send c.environment c.argument)
    else if eq_text c.method (codes "receive")
    then unchanged b (receive c.environment)
    else if eq_text c.method (codes "close")
    then record { bridge = (close_pipe b).0; effects = (close_pipe b).1; answer = success }
    else unchanged b ([], not_implemented)

unfoldable pub on_call : Call → Bridge → Done
unfolding bootstrap piped_call
on_call c b =
    if eq_text c.method (codes "bringToFront")
    then unchanged b (if b.has_window then raised c.environment else [], success)
    else if eq_text c.method (codes "bootstrap")
    then bootstrap c.environment c.argument b
    else if not b.has_pipe
    then unchanged b ([], failure (codes "link_worker_not_ready"))
    else piped_call c b

-- The calls in order: the bridge that they leave, and all effects.
unfoldable pub run_calls : List Call → Bridge → Bridge × List Effect
unfolding on_call
run_calls [] b = (b, [])
run_calls (c ∷ cs) b =
    let done = on_call c b in
    let rest = run_calls cs done.bridge in (rest.0, done.effects ++ rest.1)

abbrev pub new_bridge : Bool → Bridge
new_bridge has_window = record { has_pipe = false; has_window = has_window }

-- The whole life of a bridge, from its constructor to its destructor.
unfoldable pub life : Bool → List Call → List Effect
unfolding run_calls close_pipe
life has_window cs = let r = run_calls cs (new_bridge has_window) in r.1 ++ (close_pipe r.0).1
