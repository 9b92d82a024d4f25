-- ===== src/Json/Escape.antt =====
-- A reader of JSON strings, and `EscapeJson` of windows/credential_provider/common.h against it.
use ligament_apps.Common.{
  ℕ, zero, suc, ◌+◌, ◌-◌, ◌*◌, ◌/◌, ◌%◌, ◌<◌, ◌≡◌, refl, sym, ap, ◌∙◌, inl, inr, Bool, true, false,
  ◌&&◌, ◌||◌, Option, none, some, [], ◌∷◌, ◌++◌, arith, ltb, leb, ◌==◌, if◌then◌else◌, Bool-cases,
}
use mathlib.Core.List.{append_assoc}
use mathlib.Core.Path.{subst}
use ligament_apps.Common.{==_iff}
use ligament_apps.Common.Text.{Text}
use ligament_apps.Json.{quote, backslash, hex_char, escape_char, escape_json}

-- Where the reader stands: between characters, behind a backslash, or with `more` hexadecimal digits
-- to come after this one.
pub data Mode : Type 0 where
  plain : Mode
  escaped : Mode
  digits : (more value : ℕ) → Mode

abbrev simple_escape : ℕ → Option ℕ
simple_escape c =
    if c == quote || c == backslash || c == b'/'
    then some c
    else if c == b'b'
    then some 8
    else if c == b'f'
    then some 12
    else if c == b'n'
    then some 10
    else if c == b'r'
    then some 13
    else if c == b't'
    then some 9
    else none

abbrev hex_value : ℕ → Option ℕ
hex_value c =
    if leb b'0' c && leb c b'9'
    then some (c - b'0')
    else if leb b'a' c && leb c b'f'
    then some (c - b'a' + 10)
    else if leb b'A' c && leb c b'F'
    then some (c - b'A' + 10)
    else none

abbrev in_front : ℕ → Option (Text × Text) → Option (Text × Text)
in_front c none = none
in_front c (some (s, rest)) = some (c ∷ s, rest)

-- A JSON string behind its opening quote, as RFC 8259 has it: its value, and what stands behind its
-- closing quote. A code above 127 is read as itself.
pub read : Mode → Text → Option (Text × Text)
read mode [] = none
read plain (c ∷ s) =
    if c == quote
    then some ([], s)
    else if c == backslash
    then read escaped s
    else if ltb c 0x20
    then none
    else in_front c (read plain s)
read escaped (c ∷ s) =
    if c == b'u'
    then read (digits 3 0) s
    else elim (simple_escape c) [ none ↦ none | some d ↦ in_front d (read plain s) ]
read (digits more value) (c ∷ s) = elim (hex_value c) [
  | none ↦ none
  | some d ↦ elim more [
    | zero ↦ in_front (value * 16 + d) (read plain s)
    | suc m ↦ read (digits m (value * 16 + d)) s
  ]
]

-- A test that holds at each of the first numbers.
abbrev pub holds_below : (ℕ → Bool) → ℕ → Bool
holds_below p zero = true
holds_below p (suc n) = p n && holds_below p n

pub holds_below_lem : (p : ℕ → Bool) (n i : ℕ) → holds_below p n ≡ true → i < n → p i ≡ true
holds_below_lem p zero i h l = absurd (omega arith)
holds_below_lem p (suc n) i h l = elim (Bool-cases (i == n)) [
  | inl e ↦ subst (λ k. p k ≡ true) (sym ((==_iff i n).0 e)) (ground arith)
  | inr e ↦ holds_below_lem p n i (ground arith) (ground (arith, ==_iff i n))
]

abbrev pub is_value : ℕ → Option ℕ → Bool
is_value n none = false
is_value n (some m) = m == n

pub is_value_lem : (n : ℕ) (o : Option ℕ) → is_value n o ≡ true → o ≡ some n
is_value_lem n none h = cc
is_value_lem n (some m) h = ap some ((==_iff m n).0 h)

hex_value-hex_char : (n : ℕ) → n < 16 → hex_value (hex_char n) ≡ some n
hex_value-hex_char n l =
    is_value_lem n (hex_value (hex_char n))
      (holds_below_lem (λ k. is_value k (hex_value (hex_char k))) 16 n refl l)

read-escape_char : (c : ℕ) (s : Text) → read plain (escape_char c ++ s) ≡ in_front c (read plain s)
unfolding escape_char read
read-escape_char c s = ground (arith, hex_value-hex_char (c / 16), hex_value-hex_char (c % 16))

-- A text that EscapeJson has escaped, followed by a quote and any text, is read back by a reader
-- of JSON strings, which stops at that quote.
pub read-escape_json : (s rest : Text) → read plain (escape_json s ++ quote ∷ rest) ≡ some (s, rest)
unfolding escape_json read
read-escape_json [] rest = refl
read-escape_json (c ∷ s) rest =
    ap (read plain) (append_assoc (escape_char c) (escape_json s) (quote ∷ rest))
    ∙ read-escape_char c (escape_json s ++ quote ∷ rest)
    ∙ ap (in_front c) (read-escape_json s rest)
