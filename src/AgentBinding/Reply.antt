-- ===== src/AgentBinding/Reply.antt =====
-- Which replies of the service give a fingerprint, in windows/runner/link_agent_binding_bridge.cpp.
use ligament_apps.Common.{
  ℕ, ◌+◌, ◌-◌, ◌≡◌, sym, ap, ◌∙◌, ◌≢◌, ◌↔◌, inl, inr, Bool, true, false, ◌||◌, ◌++◌, arith, ◌==◌,
  not, Bool-cases, length, take, drop, all,
}
use ligament_apps.Common.{
  ==_iff, and_left, take-append-drop, take-append, drop-length, length-append, drop-drop,
}
use ligament_apps.Common.Text.{Text, eq_text, eq_of_eq_text, eq_text_refl}
use ligament_apps.AgentBinding.{bound}
use ligament_apps.AgentBinding.Exchange.{
  reply_outcome, refused_reply, service_error, is_hex_token, is_malformed, is_hex, ok_prefix,
  ok_suffix, error_prefix, has_suffix,
}

-- The reply that says that the host is bound, with its fingerprint.
abbrev pub ok_reply : Text → Text
ok_reply fingerprint = ok_prefix ++ (fingerprint ++ ok_suffix)

service_error-ne-bound : (code fingerprint : Text) → service_error code ≢ bound fingerprint
unfolding service_error
service_error-ne-bound code fingerprint h = ground (arith, h)

refused_reply-ne-bound : (body fingerprint : Text) → refused_reply body ≢ bound fingerprint
unfolding refused_reply
refused_reply-ne-bound body fingerprint h = ground (
  arith,
  h,
  service_error-ne-bound
      (take (length body - length error_prefix - length ok_suffix)
        (drop (length error_prefix) body))
      fingerprint,
)

-- A text that starts and ends so is the two with what is between them.
framed :
    (prefix suffix body : Text) (n : ℕ)
    → length body ≡ length prefix + n + length suffix
    → take (length prefix) body ≡ prefix
    → drop (length body - length suffix) body ≡ suffix
    → body ≡ prefix ++ (take n (drop (length prefix) body) ++ suffix)
framed prefix suffix body n e p q =
    sym (take-append-drop (length prefix) body)
    ∙ ap (λ s. s ++ drop (length prefix) body) p
    ∙ ap (λ s. prefix ++ s)
        (sym (take-append-drop n (drop (length prefix) body))
          ∙ ap (λ s. take n (drop (length prefix) body) ++ s)
              (drop-drop (length prefix) n body ∙ ap (λ k. drop k body) (omega (arith, e)) ∙ q))

middle : Text → Text
middle body = take 64 (drop (length ok_prefix) body)

reply_outcome-cases :
    (body fingerprint : Text)
    → reply_outcome body ≡ bound fingerprint
    → (is_malformed body ≡ false)
      × (middle body ≡ fingerprint)
      × (is_hex_token (middle body) ≡ true)
unfolding reply_outcome middle
reply_outcome-cases body fingerprint h = elim (Bool-cases (is_malformed body)) [
  | inl e ↦ absurd (ground (arith, h, e, refused_reply-ne-bound body fingerprint))
  | inr e ↦ elim (Bool-cases (is_hex_token (middle body))) [
    | inl f ↦ (e, ground (arith, h, e, f), f)
    | inr f ↦ absurd (ground (arith, h, e, f))
  ]
]

is_malformed-framed : (body : Text) → is_malformed body ≡ false → body ≡ ok_reply (middle body)
unfolding is_malformed middle
is_malformed-framed body h =
    framed ok_prefix ok_suffix body 64 ((==_iff (length body) 92).0 (ground (arith, h)))
      (eq_of_eq_text (take (length ok_prefix) body) ok_prefix (ground (arith, h)))
      (eq_of_eq_text (drop (length body - length ok_suffix) body) ok_suffix (ground (arith, h)))

is_hex_token-length : (s : Text) → is_hex_token s ≡ true → length s ≡ 64
unfolding is_hex_token
is_hex_token-length s h = (==_iff (length s) 64).0 (and_left (length s == 64) (all is_hex s) h)

fits : (a b c : Bool) → a ≡ true → b ≡ true → c ≡ true → (not a || (not b || not c)) ≡ false
fits a b c p q r = ground arith

module _ (fingerprint : Text) (long : length fingerprint ≡ 64) where
  length-ok_reply : length (ok_reply fingerprint) ≡ 92
  length-ok_reply = omega (arith, length-append {0} fingerprint ok_suffix, long)

  middle-ok_reply : middle (ok_reply fingerprint) ≡ fingerprint
  unfolding middle
  middle-ok_reply =
      ap (λ n. take n (fingerprint ++ ok_suffix)) (sym long) ∙ take-append fingerprint ok_suffix

  end_place :
      length (ok_reply fingerprint) - length ok_suffix ≡ length ok_prefix + length fingerprint
  end_place = omega (arith, length-ok_reply, long)

  drop-ok_reply :
      drop (length (ok_reply fingerprint) - length ok_suffix) (ok_reply fingerprint) ≡ ok_suffix
  drop-ok_reply =
      ap (λ n. drop n (ok_reply fingerprint)) end_place
      ∙ sym (drop-drop (length ok_prefix) (length fingerprint) (ok_reply fingerprint))
      ∙ drop-length fingerprint ok_suffix

  is_malformed-ok_reply : is_malformed (ok_reply fingerprint) ≡ false
  unfolding is_malformed
  is_malformed-ok_reply =
      fits (length (ok_reply fingerprint) == 92) (eq_text ok_prefix ok_prefix)
        (has_suffix ok_suffix (ok_reply fingerprint))
        ((==_iff (length (ok_reply fingerprint)) 92).1 length-ok_reply) (eq_text_refl ok_prefix)
        (ap (λ s. eq_text s ok_suffix) drop-ok_reply ∙ eq_text_refl ok_suffix)

reply_outcome-ok :
    (fingerprint : Text)
    → is_hex_token fingerprint ≡ true
    → reply_outcome (ok_reply fingerprint) ≡ bound fingerprint
unfolding reply_outcome middle
reply_outcome-ok fingerprint h =
    let long = is_hex_token-length fingerprint h in
    ground (arith, h, is_malformed-ok_reply fingerprint long, middle-ok_reply fingerprint long)

-- A reply of the service gives a fingerprint exactly where it is the object with a true ok and
-- that fingerprint, and nothing else, and the fingerprint has 64 hexadecimal digits.
pub reply_outcome_iff :
    (body fingerprint : Text)
    → (reply_outcome body ≡ bound fingerprint)
      ↔ ((body ≡ ok_reply fingerprint) × (is_hex_token fingerprint ≡ true))
reply_outcome_iff body fingerprint = (
  λ h.
      let (framed_reply, same, token) = reply_outcome-cases body fingerprint h in
      (
        is_malformed-framed body framed_reply ∙ ap ok_reply same,
        ap is_hex_token (sym same) ∙ token,
      ),
  λ h. ap reply_outcome h.0 ∙ reply_outcome-ok fingerprint h.1,
)
