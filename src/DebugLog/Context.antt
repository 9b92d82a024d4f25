-- ===== src/DebugLog/Context.antt =====
-- What `ValidContext` of windows/runner/debug_log.h accepts, against a list of fields.
use ligament_apps.Common.{
  ℕ, zero, suc, ◌+◌, ◌≤◌, ◌≡◌, refl, sym, ap, ◌∙◌, ◌↔◌, inl, inr, Bool, true, false, none, some,
  List, [], ◌∷◌, ◌++◌, arith, ◌==◌, Option-cases, length, take, drop, empty, any, all,
}
use ligament_apps.Common.Tests.{and_left, and_right}
use ligament_apps.Common.Lists.{take-append, drop-append, any-append}
use ligament_apps.Common.Text.{Text, find_if, find_if-append}
use mathlib.Core.Path.{subst}
use ligament_apps.DebugLog.{valid_context_value, valid_token, valid_tokens, valid_context}
use ligament_apps.DebugLog.Characters.{is_visible, is_key_char, value_visible, key_plain, all-none}

-- `key=value`.
abbrev pub token_of : Text × Text → Text
token_of (key, value) = key ++ b'=' ∷ value

-- The fields with a space between each two of them.
abbrev pub render : List (Text × Text) → Text
render [] = []
render (f ∷ fs) = elim fs [ [] ↦ token_of f | g ∷ gs ↦ token_of f ++ b' ' ∷ render fs ]

abbrev pub all_valid : List (Text × Text) → Bool
all_valid fs = all (λ (f : Text × Text). valid_context_value f.0 f.1) fs

find_if-none : (p : ℕ → Bool) (s : Text) → any p s ≡ false → find_if p s ≡ none
find_if-none p [] h = refl
find_if-none p (c ∷ s) h = ground (arith, find_if-none p s)

find_if_split :
    (c : ℕ) (s : Text) (i : ℕ)
    → find_if (λ d. d == c) s ≡ some i
    → s ≡ take i s ++ c ∷ drop (i + 1) s
find_if_split c [] i h = cc
find_if_split c (d ∷ s) zero h = ground arith
find_if_split c (d ∷ s) (suc i) h = ground (arith, find_if_split c s i)

valid_token_split :
    (s : Text)
    → valid_token s ≡ true
    → (f : Text × Text) × (s ≡ token_of f) × (valid_context_value f.0 f.1 ≡ true)
unfolding valid_token
valid_token_split s h = elim (Option-cases (find_if (λ d. d == b'=') s)) [
  | inl e ↦ absurd (ground (arith, e, h))
  | inr (i, e) ↦ ((take i s, drop (i + 1) s), find_if_split b'=' s i e, ground (arith, e, h))
]

abbrev IsRendered : ℕ → Text → Type 0
IsRendered left s =
    (fs : List (Text × Text)) × (length fs ≤ left) × (s ≡ render fs) × (all_valid fs ≡ true)

-- A field in front of a text that is not empty.
IsRendered-cons :
    (left : ℕ) (s token rest : Text)
    → s ≡ token ++ b' ' ∷ rest
    → empty rest ≡ false
    → (f : Text × Text) × (token ≡ token_of f) × (valid_context_value f.0 f.1 ≡ true)
    → IsRendered left rest
    → IsRendered (suc left) s
IsRendered-cons left s token rest e n (f, t, v) ([], l, r, a) = absurd (ground (arith, r, n))
IsRendered-cons left s token rest e n (f, t, v) (g ∷ gs, l, r, a) = (
  f ∷ g ∷ gs,
  ground (arith, l),
  e ∙ ap (λ x. x ++ b' ' ∷ rest) t ∙ ap (λ x. token_of f ++ b' ' ∷ x) r,
  ground (arith, v, a),
)

valid_tokens-IsRendered : (left : ℕ) (s : Text) → valid_tokens left s ≡ true → IsRendered left s
unfolding valid_tokens
valid_tokens-IsRendered zero [] h = ([], omega arith, refl, refl)
valid_tokens-IsRendered zero (c ∷ s) h = cc
valid_tokens-IsRendered (suc left) [] h = ([], omega arith, refl, refl)
valid_tokens-IsRendered (suc left) (c ∷ s) h =
    elim (Option-cases (find_if (λ d. d == b' ') (c ∷ s))) [
      | inl e ↦
          let q : (f : Text × Text) × (c ∷ s ≡ token_of f) × (valid_context_value f.0 f.1 ≡ true) =
            valid_token_split (c ∷ s) (ground (arith, e, h)) in
          (q.0 ∷ [], omega arith, q.1, ground (arith, q.2))
      | inr (i, e) ↦
          IsRendered-cons left (c ∷ s) (take i (c ∷ s)) (drop (i + 1) (c ∷ s))
            (find_if_split b' ' (c ∷ s) i e) (ground (arith, e, h))
            (valid_token_split (take i (c ∷ s)) (ground (arith, e, h)))
            (valid_tokens-IsRendered left (drop (i + 1) (c ∷ s)) (ground (arith, e, h)))
    ]

module _ (key value : Text) (v : valid_context_value key value ≡ true) where
  key_no_equal : any (λ d. d == b'=') key ≡ false
  key_no_equal =
      all-none is_key_char (λ d. d == b'=') key (λ c k. ground arith) (key_plain key value v)

  token_no_space : any (λ d. d == b' ') (key ++ b'=' ∷ value) ≡ false
  token_no_space = ground (
    arith,
    any-append (λ (d : ℕ). d == b' ') key (b'=' ∷ value),
    all-none is_key_char (λ d. d == b' ') key (λ c k. ground arith) (key_plain key value v),
    all-none is_visible (λ d. d == b' ') value (λ c k. ground arith) (value_visible key value v),
  )

  token_valid : valid_token (key ++ b'=' ∷ value) ≡ true
  unfolding valid_token
  token_valid =
      rw (find_if-append (λ d. d == b'=') key b'=' value key_no_equal refl, valid_token)
        (ground (arith, take-append key (b'=' ∷ value), drop-append key b'=' value, v))

valid_tokens-token :
    (left : ℕ) (f : Text × Text)
    → valid_context_value f.0 f.1 ≡ true
    → valid_tokens (suc left) (token_of f) ≡ true
unfolding valid_tokens
valid_tokens-token left (key, value) v =
    rw
      (
        find_if-none (λ d. d == b' ') (key ++ b'=' ∷ value) (token_no_space key value v),
        valid_tokens,
      )
      (ground (arith, token_valid key value v))

valid_tokens-cons :
    (left : ℕ) (f : Text × Text) (rest : Text)
    → valid_context_value f.0 f.1 ≡ true
    → empty rest ≡ false
    → valid_tokens left rest ≡ true
    → valid_tokens (suc left) (token_of f ++ b' ' ∷ rest) ≡ true
unfolding valid_tokens
valid_tokens-cons left (key, value) rest v n h =
    rw
      (
        find_if-append (λ d. d == b' ') (key ++ b'=' ∷ value) b' ' rest (token_no_space key value v)
            refl,
        valid_tokens,
      )
      (rw (shorter, behind)
        (ground (arith, full (token_of (key, value)), token_valid key value v, n, h)))
  where
    shorter :
        take (length (token_of (key, value))) (token_of (key, value) ++ b' ' ∷ rest)
        ≡ token_of (key, value)
    shorter = take-append (token_of (key, value)) (b' ' ∷ rest)

    next : length (token_of (key, value)) + 1 ≡ suc (length (token_of (key, value)))
    next = omega arith

    behind : drop (length (token_of (key, value)) + 1) (token_of (key, value) ++ b' ' ∷ rest) ≡ rest
    behind =
        ap (λ n. drop n (token_of (key, value) ++ b' ' ∷ rest)) next
        ∙ drop-append (token_of (key, value)) b' ' rest

    full : (s : Text) → empty (s ++ b' ' ∷ rest) ≡ false
    full [] = refl
    full (c ∷ s) = refl

render_full : (f : Text × Text) (fs : List (Text × Text)) → empty (render (f ∷ fs)) ≡ false
render_full ([], value) [] = refl
render_full (c ∷ key, value) [] = refl
render_full ([], value) (g ∷ gs) = refl
render_full (c ∷ key, value) (g ∷ gs) = refl

valid_tokens-render :
    (left : ℕ) (fs : List (Text × Text))
    → length fs ≤ left
    → all_valid fs ≡ true
    → valid_tokens left (render fs) ≡ true
unfolding valid_tokens
valid_tokens-render zero [] l a = refl
valid_tokens-render (suc left) [] l a = refl
valid_tokens-render zero (f ∷ fs) l a = absurd (omega arith)
valid_tokens-render (suc left) (f ∷ []) l a = valid_tokens-token left f (ground arith)
valid_tokens-render (suc left) (f ∷ g ∷ gs) l a =
    valid_tokens-cons left f (render (g ∷ gs)) (and_left _ _ a) (render_full g gs) (
      valid_tokens-render left (g ∷ gs) (omega arith) (and_right (valid_context_value f.0 f.1) _ a))

-- ValidContext accepts a text exactly where it has at most 4096 bytes and is the text of at most
-- 64 fields, key=value with one space between each two of them, of which ValidContextValue accepts
-- each key with its value.
pub valid_context_iff :
    (s : Text)
    → (valid_context s ≡ true) ↔ (
        (fs : List (Text × Text)) × (length s ≤ 4096)
        × (length fs ≤ 64)
        × (s ≡ render fs)
        × (all_valid fs ≡ true))
unfolding valid_context
valid_context_iff s = (
  (λ h.
      let q : IsRendered 64 s = valid_tokens-IsRendered 64 s (ground arith) in
      (q.0, ground arith, q.1, q.2, q.3)),
  (λ (fs, l, m, e, a).
      ground
        (arith, l, subst (λ t. valid_tokens 64 t ≡ true) (sym e) (valid_tokens-render 64 fs m a))),
)
