-- ===== src/RdpGate/Nonce.antt =====
-- The nonce that windows/credential_provider/rdp_gate.cpp reads of the endpoint service's pipe.
use ligament_apps.Common.{
  ℕ, zero, suc, ◌+◌, ◌≤◌, ◌<◌, ◌≡◌, refl, ap, ◌∙◌, inl, inr, true, false, ◌||◌, some, List, [], ◌∷◌,
  ◌++◌, arith, ltb, ◌==◌, if◌then◌else◌, Bool-cases, Option-cases, length, any,
}
use mathlib.Core.List.{append-nil, append_assoc}
use ligament_apps.Common.Lists.{length-append}
use ligament_apps.Common.Text.{joined, Text, codes}
use ligament_apps.Json.{quote, extract_json_string}
use ligament_apps.Json.Extract.{object, extract_json_string-object}
use ligament_apps.RdpGate.{
  Pipe, poll_pipe, pipe_reply, nonce_request, query_assertion_nonce, has_brace, min, is_whole,
}

-- `ReadFile` gives at most the bytes that it is asked for.
abbrev pub ReadsAtMost : Pipe → Type 0
ReadsAtMost pipe = (poll want : ℕ) (s : Text) → pipe.read poll want ≡ some s → length s ≤ want

poll_pipe_bound :
    (pipe : Pipe)
    → ReadsAtMost pipe
    → (left poll : ℕ) (out : Text) → length out ≤ 767
    → length (poll_pipe pipe left poll out) ≤ 767
unfolding poll_pipe
poll_pipe_bound pipe b zero poll out h = h
poll_pipe_bound pipe b (suc left) poll out h = elim (Option-cases (pipe.peek poll)) [
  | inl e ↦ ground (arith, e)
  | inr (avail, e) ↦
      let want = if ltb avail 256 then avail else 256 in
      elim (Option-cases (pipe.read poll want)) [
        | inl f ↦ ground (arith, e, f, poll_pipe_bound pipe b left (suc poll) out)
        | inr ([], f) ↦ ground (arith, e, f, poll_pipe_bound pipe b left (suc poll) out)
        | inr (c ∷ s, f) ↦ ground (
          arith,
          e,
          f,
          b poll want (c ∷ s) f,
          length-append out (c ∷ s),
          poll_pipe_bound pipe b left (suc poll) out,
          poll_pipe_bound pipe b left (suc poll) (out ++ c ∷ s),
        )
      ]
]

-- The reply that the gate reads of the pipe has at most 767 bytes, whoever writes it, where
-- ReadFile gives no more bytes than it is asked for.
pub pipe_reply_bound :
    (pipe : Pipe) (request : Text) → ReadsAtMost pipe → length (pipe_reply pipe request) ≤ 767
unfolding pipe_reply
pipe_reply_bound pipe request b =
    elim (Bool-cases (is_whole (length request) (pipe.write request))) [
      | inl e ↦ rw (e, pipe_reply) (poll_pipe_bound pipe b 100 0 [] (omega arith))
      | inr e ↦ rw (e, pipe_reply) (omega arith)
    ]

-- From this poll on, the pipe has one chunk after the other; an empty one is a poll that finds nothing.
abbrev pub Delivers : Pipe → ℕ → List Text → Type 0
Delivers pipe poll [] = Unit
Delivers pipe poll (c ∷ cs) =
    (pipe.peek poll ≡ some (length c))
    × (0 < length c → pipe.read poll (length c) ≡ some c)
    × Delivers pipe (suc poll) cs

-- A reply in chunks of at most 256 bytes, of which only the last one has a closing brace.
abbrev pub AreChunks : List Text → Type 0
AreChunks [] = ⊥
AreChunks (c ∷ []) = (length c ≤ 256) × (has_brace c ≡ true)
AreChunks (c ∷ d ∷ cs) = (length c ≤ 256) × (has_brace c ≡ false) × AreChunks (d ∷ cs)

has_brace-append : (s t : Text) → has_brace (s ++ t) ≡ (has_brace s || has_brace t)
has_brace-append [] t = refl
has_brace-append (c ∷ s) t = ground (arith, has_brace-append s t)

poll_pipe-chunk :
    (pipe : Pipe) (left poll : ℕ) (out chunk : Text)
    → length out < 512
    → 0 < length chunk
    → length chunk ≤ 256
    → pipe.peek poll ≡ some (length chunk)
    → pipe.read poll (length chunk) ≡ some chunk
    → poll_pipe pipe (suc left) poll out ≡ (
        if has_brace (out ++ chunk)
        then out ++ chunk
        else poll_pipe pipe left (suc poll) (out ++ chunk))
unfolding poll_pipe
poll_pipe-chunk pipe left poll out [] l h k e f = absurd (omega arith)
poll_pipe-chunk pipe left poll out (c ∷ s) l h k e f = ground (arith, e, f, width)
  where
    width : min (length (c ∷ s)) 256 ≡ length (c ∷ s)
    width = ground (arith, k)

joined_step :
    (out : Text) (c : Text) (cs : List Text) → (out ++ c) ++ joined cs ≡ out ++ joined (c ∷ cs)
joined_step out c cs = append_assoc out c (joined cs)

-- A poll that finds nothing is followed by the next one.
poll_pipe-empty :
    (pipe : Pipe) (left poll : ℕ) (out : Text)
    → length out < 512
    → poll < 99
    → pipe.peek poll ≡ some 0
    → poll_pipe pipe (suc left) poll out ≡ poll_pipe pipe left (suc poll) out
unfolding poll_pipe
poll_pipe-empty pipe left poll out l k e = ground (arith, e, l, k)

-- A chunk with a closing brace is not empty.
brace_inside : (c : Text) → has_brace c ≡ true → 0 < length c
brace_inside [] b = absurd (ground (arith, b))
brace_inside (x ∷ c) b = omega arith

chunks-full : (cs : List Text) → AreChunks cs → 0 < length (joined cs)
chunks-full [] a = absurd a
chunks-full (c ∷ []) (hi, b) = omega (arith, brace_inside c b, length-append c [])
chunks-full (c ∷ d ∷ cs) (hi, b, a) =
    omega (arith, chunks-full (d ∷ cs) a, length-append c (joined (d ∷ cs)))

-- The loop reads a reply that comes in chunks whole.
poll_pipe-joined :
    (pipe : Pipe) (cs : List Text) (left poll : ℕ) (out : Text)
    → AreChunks cs
    → Delivers pipe poll cs
    → length cs ≤ left
    → poll + left ≡ 100
    → length (out ++ joined cs) ≤ 512
    → has_brace out ≡ false
    → poll_pipe pipe left poll out ≡ out ++ joined cs
poll_pipe-joined pipe [] left poll out a d l t m h = absurd a
poll_pipe-joined pipe (c ∷ cs) zero poll out a d l t m h = absurd (omega (arith, l))
poll_pipe-joined pipe (c ∷ []) (suc left) poll out (hi, b) (e, f, d) l t m h = ground (
  arith,
  f (brace_inside c b),
  brace_inside c b,
  poll_pipe-chunk pipe left poll out c,
  has_brace-append out c,
  length-append out c,
  append-nil c,
  length-append out (c ++ []),
)
poll_pipe-joined pipe ([] ∷ x ∷ cs) (suc left) poll out (hi, b, a) (e, f, d) l t m h =
    poll_pipe-empty pipe left poll out
      (omega (arith, m, length-append out (joined (x ∷ cs)), chunks-full (x ∷ cs) a))
      (omega (arith, l, t)) e
    ∙ poll_pipe-joined pipe (x ∷ cs) left (suc poll) out a d (omega (arith, l)) (omega (arith, t)) m
        h
poll_pipe-joined pipe ((y ∷ c) ∷ x ∷ cs) (suc left) poll out (hi, b, a) (e, f, d) l t m h =
    poll_pipe-chunk pipe left poll out (y ∷ c)
      (omega (
        arith,
        m,
        length-append out (joined ((y ∷ c) ∷ x ∷ cs)),
        length-append (y ∷ c) (joined (x ∷ cs)),
      ))
      (omega arith) hi e (f (omega arith))
    ∙ ground (
      arith,
      has_brace-append out (y ∷ c),
      poll_pipe-joined pipe (x ∷ cs) left (suc poll) (out ++ y ∷ c) a d,
      joined_step out (y ∷ c) (x ∷ cs),
      t,
    )

-- Where the endpoint service takes the request, and its reply, an object whose first field is a
-- nonce with no quote in it, has at most 512 bytes and comes within the first 100 polls, each of
-- which finds nothing or a chunk of at most 256 bytes that the read gives whole, with a closing
-- brace in the last chunk only, the gate reads that nonce, however the pipe splits the reply and
-- whichever polls before the last chunk find nothing.
pub query_assertion_nonce-chunks :
    (pipe : Pipe) (logon_id username user_sid nonce rest : Text) (cs : List Text)
    → pipe.waited ≡ true
    → pipe.opened ≡ true
    → is_whole
        (length (nonce_request logon_id username user_sid))
        (pipe.write (nonce_request logon_id username user_sid))
      ≡ true
    → AreChunks cs
    → Delivers pipe 0 cs
    → length cs ≤ 100
    → length (joined cs) ≤ 512
    → joined cs ≡ object (codes "nonce") (quote ∷ nonce ++ quote ∷ rest)
    → any (λ c. c == quote) nonce ≡ false
    → query_assertion_nonce pipe logon_id username user_sid ≡ nonce
unfolding query_assertion_nonce pipe_reply
query_assertion_nonce-chunks pipe logon_id username user_sid nonce rest cs w o h a d l m e q =
    rw (w, o, h, query_assertion_nonce, pipe_reply)
      (ap (λ s. extract_json_string s (codes "nonce"))
          (poll_pipe-joined pipe cs 100 0 [] a d l refl m refl ∙ e)
        ∙ extract_json_string-object (codes "nonce") nonce rest q)
