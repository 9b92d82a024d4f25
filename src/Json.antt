-- ===== src/Json.antt =====
-- The JSON helpers of windows/credential_provider/common.h: `EscapeJson` and the extractors, on
-- bytes.
pub mod Escape
pub mod Fields
pub mod Extract
pub mod Samples
use ligament_apps.Common.{
  ℕ, zero, suc, ◌+◌, ◌-◌, ◌*◌, ◌/◌, ◌%◌, ◌^◌, ◌≤◌, ◌<◌, String, ◌≡◌, refl, sym, ap, ◌∙◌, ◌≢◌, ◌↔◌,
  ◌⊎◌, inl, inr, Bool, true, false, ◌&&◌, ◌||◌, Option, none, some, List, [], ◌∷◌, ◌++◌, map, arith,
  ltb, leb, ◌==◌, if◌then◌else◌, not, is_some, Bool-cases, Option-cases, length, take, drop,
  get_elem?, empty, any, all,
}
use ligament_apps.Common.Text.{Text, codes, find_if, find_text, find_from}

abbrev pub quote : ℕ
quote = 34

abbrev pub backslash : ℕ
backslash = 92

-- `hex[i]`.
abbrev pub hex_char : ℕ → ℕ
hex_char i = elim (get_elem? (codes "0123456789abcdef") i) [ none ↦ 0 | some c ↦ c ]

-- What is appended for one byte.
unfoldable pub escape_char : ℕ → Text
escape_char c =
    if c == quote
    then backslash ∷ quote ∷ []
    else if c == backslash
    then backslash ∷ backslash ∷ []
    else if c == 8
    then backslash ∷ b'b' ∷ []
    else if c == 12
    then backslash ∷ b'f' ∷ []
    else if c == 10
    then backslash ∷ b'n' ∷ []
    else if c == 13
    then backslash ∷ b'r' ∷ []
    else if c == 9
    then backslash ∷ b't' ∷ []
    else if ltb c 0x20
    then backslash ∷ b'u' ∷ b'0' ∷ b'0' ∷ hex_char (c / 16) ∷ hex_char (c % 16) ∷ []
    else c ∷ []

unfoldable pub escape_json : Text → Text
unfolding escape_char
escape_json [] = []
escape_json (c ∷ s) = escape_char c ++ escape_json s

-- `"key"`.
abbrev pub needle : Text → Text
needle key = quote ∷ key ++ quote ∷ []

-- Where the `:` behind the first `"key"` stands.
unfoldable pub find_colon : Text → Text → Option ℕ
find_colon json key = elim (find_text (needle key) json) [
  | none ↦ none
  | some pos ↦ find_from (find_if (λ c. c == b':')) json (pos + length (needle key))
]

-- The text between the two quotes behind the colon, or nothing.
unfoldable pub extract_json_string : Text → Text → Text
unfolding find_colon
extract_json_string json key = elim (find_colon json key) [
  | none ↦ []
  | some colon ↦ elim (find_from (find_if (λ c. c == quote)) json (colon + 1)) [
    | none ↦ []
    | some pos ↦ elim (find_from (find_if (λ c. c == quote)) json (pos + 1)) [
      | none ↦ []
      | some end ↦ take (end - pos - 1) (drop (pos + 1) json)
    ]
  ]
]

unfoldable pub extract_json_bool : Text → Text → Bool
unfolding find_colon
extract_json_bool json key = elim (find_colon json key) [
  | none ↦ false
  | some pos ↦ elim (find_from (find_text (codes "true")) json pos) [
    | none ↦ false
    | some at ↦ elim (find_from (find_if (λ c. c == b',' || c == b'}' || c == 10)) json pos) [
      | none ↦ true
      | some comma ↦ ltb at comma
    ]
  ]
]

abbrev pub is_digit : ℕ → Bool
is_digit c = leb b'0' c && leb c b'9'

-- The text from the first character that `skip` does not name.
abbrev pub drop_while : (ℕ → Bool) → Text → Text
drop_while skip [] = []
drop_while skip (c ∷ s) = if skip c then drop_while skip s else c ∷ s

abbrev pub take_while : (ℕ → Bool) → Text → Text
take_while keep [] = []
take_while keep (c ∷ s) = if keep c then c ∷ take_while keep s else []
