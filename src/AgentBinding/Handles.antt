-- ===== src/AgentBinding/Handles.antt =====
-- The handles and the secrets of the binding, windows/runner/link_agent_binding_bridge.cpp.
use ligament_apps.Common.{
  ◌≡◌, inl, inr, Bool, true, false, ◌&&◌, ◌||◌, List, [], ◌∷◌, ◌++◌, arith, empty, any,
}
use ligament_apps.Common.Text.{Text}
use ligament_apps.AgentBinding.Calls.{identify-calls}
use ligament_apps.AgentBinding.{
  LinkService, Call, opens, closes, writes, reads, asks, wipes, Handle, Secret, token_text,
  url_text, request_text, response_text, identify,
}
use ligament_apps.AgentBinding.Exchange.{bind_over_named_pipe, exchange, read_reply}

abbrev same_handle : Handle → Handle → Bool
same_handle Handle.pipe Handle.pipe = true
same_handle Handle.manager Handle.manager = true
same_handle Handle.service Handle.service = true
same_handle _ _ = false

abbrev only_pipe : List Handle → Bool
only_pipe (Handle.pipe ∷ []) = true
only_pipe _ = false

-- From these open handles on: each is closed once, the last opened first, none is left open, the pipe
-- is read and written only while it is the open handle, and asked about only while it is open.
abbrev pub closes_all : List Handle → List Call → Bool
closes_all held [] = empty held
closes_all held (opens h ∷ cs) = closes_all (h ∷ held) cs
closes_all [] (closes h ∷ cs) = false
closes_all (g ∷ held) (closes h ∷ cs) = same_handle g h && closes_all held cs
closes_all held (writes s ∷ cs) = only_pipe held && closes_all held cs
closes_all held (reads ∷ cs) = only_pipe held && closes_all held cs
closes_all held (asks ∷ cs) = any (same_handle Handle.pipe) held && closes_all held cs
closes_all held (wipes s ∷ cs) = closes_all held cs

abbrev same_secret : Secret → Secret → Bool
same_secret token_text token_text = true
same_secret url_text url_text = true
same_secret request_text request_text = true
same_secret response_text response_text = true
same_secret _ _ = false

-- Whether this secret is erased.
abbrev pub erases : Secret → List Call → Bool
erases t [] = false
erases t (wipes s ∷ cs) = same_secret t s || erases t cs
erases t (opens h ∷ cs) = erases t cs
erases t (closes h ∷ cs) = erases t cs
erases t (writes s ∷ cs) = erases t cs
erases t (reads ∷ cs) = erases t cs
erases t (asks ∷ cs) = erases t cs

-- The checks of the service leave the handles as they are, and erase nothing.
identify-closes :
    (s : LinkService) (cs : List Call)
    → closes_all (Handle.pipe ∷ []) ((identify s).calls ++ cs) ≡ closes_all (Handle.pipe ∷ []) cs
identify-closes s cs = elim (identify-calls s) [
  | inl e ↦ rw e
  | inr (inl e) ↦ rw e
  | inr (inr (inl e)) ↦ rw e
  | inr (inr (inr e)) ↦ rw e
]

identify-erases :
    (t : Secret) (s : LinkService) (cs : List Call)
    → erases t ((identify s).calls ++ cs) ≡ erases t cs
identify-erases t s cs = elim (identify-calls s) [
  | inl e ↦ rw e
  | inr (inl e) ↦ rw e
  | inr (inr (inl e)) ↦ rw e
  | inr (inr (inr e)) ↦ rw e
]

-- From its start, the exchange erases both secrets; it ends with the pipe closed.
exchange-closes :
    (s : LinkService) (server_url token : Text)
    → closes_all (Handle.pipe ∷ []) (exchange s server_url token).calls ≡ true
unfolding exchange read_reply
exchange-closes s server_url token = ground arith

exchange-erases :
    (s : LinkService) (server_url token : Text)
    → (erases token_text (exchange s server_url token).calls ≡ true)
      × (erases url_text (exchange s server_url token).calls ≡ true)
unfolding exchange read_reply
exchange-erases s server_url token = ground arith

-- The call of a binding, however it ends.
abbrev pub EndsClean : List Call → Type 0
EndsClean cs =
    (closes_all [] cs ≡ true) × (erases token_text cs ≡ true) × (erases url_text cs ≡ true)

abbrev refused_end : List Call
refused_end = closes Handle.pipe ∷ wipes token_text ∷ wipes url_text ∷ []

-- However a binding ends, it closes each handle that it opens once, the last opened first, reads
-- and writes the pipe only while it is the one open handle, asks about the pipe's server only
-- while the pipe is open, and erases the token and the URL.
pub bind-EndsClean :
    (s : LinkService) (server_url token : Text)
    → EndsClean (bind_over_named_pipe s server_url token).calls
unfolding bind_over_named_pipe
bind-EndsClean s server_url token =
    let exchanged = exchange s server_url token in
    ground (
      arith,
      identify-closes s refused_end,
      identify-closes s exchanged.calls,
      identify-erases token_text s refused_end,
      identify-erases token_text s exchanged.calls,
      identify-erases url_text s refused_end,
      identify-erases url_text s exchanged.calls,
      exchange-closes s server_url token,
      exchange-erases s server_url token,
    )
