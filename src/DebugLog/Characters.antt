-- ===== src/DebugLog/Characters.antt =====
-- Of which characters the fields of a record are made that windows/runner/debug_log.h accepts.
use ligament_apps.Common.{
  ℕ, suc, ◌≡◌, refl, sym, inl, inr, Bool, true, false, ◌&&◌, ◌||◌, List, [], ◌∷◌, arith, leb, ◌==◌,
  if◌then◌else◌, not, Bool-cases, any, all,
}
use mathlib.Core.Path.{subst}
use ligament_apps.Common.Text.{Text, codes, eq_text, eq_of_eq_text}
use ligament_apps.DebugLog.{
  is_lower, field_char, valid_field, one_of, valid_error_code, number_from, valid_number, uuid_from,
  valid_uuid, number_keys, boolean_keys, label_keys, uuid_keys, methods, server_char, route_char,
  valid_server, valid_route, valid_context_value, looks_like_secret,
}

-- A visible character of ASCII.
abbrev pub is_visible : ℕ → Bool
is_visible c = leb 33 c && leb c 126

-- One that a key has: no `=` either.
abbrev pub is_key_char : ℕ → Bool
is_key_char c = is_lower c || c == b'_'

pub all-imp :
    (p q : ℕ → Bool) (s : Text)
    → ((c : ℕ) → p c ≡ true → q c ≡ true)
    → all p s ≡ true
    → all q s ≡ true
all-imp p q [] f h = refl
all-imp p q (c ∷ s) f h = ground (arith, f c, all-imp p q s f)

one_of-all :
    (p : ℕ → Bool) (value : Text) (values : List Text)
    → all (λ (v : Text). all p v) values ≡ true
    → one_of value values ≡ true
    → all p value ≡ true
one_of-all p value [] a h = cc
one_of-all p value (v ∷ vs) a h = elim (Bool-cases (eq_text v value)) [
  | inl e ↦ subst (λ t. all p t ≡ true) (eq_of_eq_text v value e) (ground arith)
  | inr e ↦ one_of-all p value vs (ground arith) (ground arith)
]

pub field_visible :
    (value : Text) (limit : ℕ) (uppercase hyphen : Bool)
    → valid_field value limit uppercase hyphen ≡ true
    → all is_visible value ≡ true
field_visible value limit uppercase hyphen h =
    all-imp (field_char uppercase hyphen) is_visible value (λ c k. ground arith) (ground arith)

number_visible :
    (digit dot : Bool) (s : Text) → number_from digit dot s ≡ true → all is_visible s ≡ true
number_visible digit dot [] h = refl
number_visible digit dot (c ∷ s) h =
    ground (arith, number_visible true dot s, number_visible digit true s)

valid_number_visible : (value : Text) → valid_number value ≡ true → all is_visible value ≡ true
unfolding valid_number
valid_number_visible [] h = refl
valid_number_visible (c ∷ s) h =
    ground (arith, number_visible false false s, number_visible false false (c ∷ s))

uuid_visible : (i : ℕ) (s : Text) → uuid_from i s ≡ true → all is_visible s ≡ true
uuid_visible i [] h = refl
uuid_visible i (c ∷ s) h = ground (arith, uuid_visible (suc i) s)

valid_uuid_visible : (value : Text) → valid_uuid value ≡ true → all is_visible value ≡ true
unfolding valid_uuid
valid_uuid_visible value h = uuid_visible 0 value (ground arith)

boolean_visible :
    (value : Text)
    → (eq_text value (codes "true") || eq_text value (codes "false")) ≡ true
    → all is_visible value ≡ true
boolean_visible value h = elim (Bool-cases (eq_text value (codes "true"))) [
  | inl e ↦ subst (λ t. all is_visible t ≡ true) (sym (eq_of_eq_text value (codes "true") e)) refl
  | inr e ↦
      subst (λ t. all is_visible t ≡ true)
        (sym (eq_of_eq_text value (codes "false") (ground arith))) refl
]

label_visible :
    (value : Text)
    → (valid_error_code value && not (looks_like_secret value)) ≡ true
    → all is_visible value ≡ true
label_visible value h = field_visible value 64 true true (ground arith)

server_visible : (value : Text) → valid_server value ≡ true → all is_visible value ≡ true
server_visible value h = all-imp server_char is_visible value (λ c k. ground arith) (ground arith)

route_visible : (value : Text) → valid_route value ≡ true → all is_visible value ≡ true
route_visible value h = all-imp route_char is_visible value (λ c k. ground arith) (ground arith)

-- What holds in either branch of a test that is passed.
if_split :
    (b x y : Bool) (g : Type 0)
    → (b ≡ true → x ≡ true → g)
    → (y ≡ true → g)
    → (if b then x else y) ≡ true
    → g
if_split true x y g f k h = f refl h
if_split false x y g f k h = k h

never : (g : Type 0) → false ≡ true → g
never g h = cc

literal_all :
    (p : ℕ → Bool) (value literal : Text)
    → all p literal ≡ true
    → eq_text value literal ≡ true
    → all p value ≡ true
literal_all p value literal a e =
    subst (λ t. all p t ≡ true) (sym (eq_of_eq_text value literal e)) a

module _ (key value : Text) where
  abbrev IsVisibleValue : Type 0
  IsVisibleValue = all is_visible value ≡ true

  -- The value of a field that is accepted.
  pub value_visible : valid_context_value key value ≡ true → all is_visible value ≡ true
  unfolding valid_context_value
  value_visible =
      if_split _ _ _ IsVisibleValue (λ _ h. valid_number_visible value h)
        (if_split _ _ _ IsVisibleValue (λ _ h. boolean_visible value h)
          (if_split _ _ _ IsVisibleValue (λ _ h. valid_uuid_visible value h)
            (if_split _ _ _ IsVisibleValue (λ _ h. label_visible value h)
              (if_split _ _ _ IsVisibleValue (λ _ h. one_of-all is_visible value methods refl h)
                (if_split _ _ _ IsVisibleValue (λ _ h. server_visible value h)
                  (if_split _ _ _ IsVisibleValue (λ _ h. route_visible value h)
                    (never IsVisibleValue)))))))

  abbrev IsPlainKey : Type 0
  IsPlainKey = all is_key_char key ≡ true

  -- And its key.
  pub key_plain : valid_context_value key value ≡ true → all is_key_char key ≡ true
  unfolding valid_context_value
  key_plain =
      if_split _ _ _ IsPlainKey (λ h _. one_of-all is_key_char key number_keys refl h)
        (if_split _ _ _ IsPlainKey (λ h _. one_of-all is_key_char key boolean_keys refl h)
          (if_split _ _ _ IsPlainKey (λ h _. one_of-all is_key_char key uuid_keys refl h)
            (if_split _ _ _ IsPlainKey (λ h _. one_of-all is_key_char key label_keys refl h)
              (if_split _ _ _ IsPlainKey
                (λ h _. literal_all is_key_char key (codes "method") refl h)
                (if_split _ _ _ IsPlainKey
                  (λ h _. literal_all is_key_char key (codes "server") refl h)
                  (if_split _ _ _ IsPlainKey
                    (λ h _. literal_all is_key_char key (codes "route") refl h)
                    (never IsPlainKey)))))))

pub all-none :
    (p q : ℕ → Bool) (s : Text)
    → ((c : ℕ) → p c ≡ true → q c ≡ false)
    → all p s ≡ true
    → any q s ≡ false
all-none p q [] f h = refl
all-none p q (c ∷ s) f h = ground (arith, f c, all-none p q s f)
