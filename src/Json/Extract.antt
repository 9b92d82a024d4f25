-- ===== src/Json/Extract.antt =====
-- The extractors on the answers that the server sends: an object whose first field is the wanted one.
use ligament_apps.Common.{
  ℕ, zero, suc, ◌+◌, ◌-◌, ◌≡◌, refl, sym, ap, ◌∙◌, Bool, true, false, ◌||◌, Option, some, [], ◌∷◌,
  ◌++◌, arith, ◌==◌, Option-cases, length, take, drop, any,
}
use mathlib.Core.Path.{subst}
use ligament_apps.Common.Lists.{take-append, drop-append, drop-length}
use ligament_apps.Common.Text.{
  Text, codes, find_if, find_text, find_from, find_if-append, starts_with-append,
}
use ligament_apps.Json.{quote, needle, find_colon, extract_json_string, extract_json_bool}

-- `{"key":` and what follows.
abbrev pub object : Text → Text → Text
object key value = b'{' ∷ needle key ++ b':' ∷ value

-- The place of the colon.
abbrev colon_at : Text → ℕ
colon_at key = suc (length (needle key))

-- Where the text starts with the needle, it is found at once.
find_text_front : (p s : Text) → find_text p (p ++ s) ≡ some 0
find_text_front [] [] = refl
find_text_front [] (c ∷ s) = refl
find_text_front (a ∷ p) s = rw (starts_with-append (a ∷ p) s)

find_from_at :
    (search_in : Text → Option ℕ) (s tail : Text) (from i : ℕ)
    → drop from s ≡ tail
    → search_in tail ≡ some i
    → find_from search_in s from ≡ some (from + i)
find_from_at search_in s tail from i e f = ground (arith, ap search_in e)

drop_to : (s tail : Text) (m n : ℕ) → n ≡ m → drop m s ≡ tail → drop n s ≡ tail
drop_to s tail m n e h = subst (λ k. drop k s ≡ tail) (sym e) h

drop-suc : (n : ℕ) (s : Text) (c : ℕ) (tail : Text) → drop n s ≡ c ∷ tail → drop (suc n) s ≡ tail
drop-suc zero [] c tail h = cc
drop-suc zero (x ∷ s) c tail h = ground arith
drop-suc (suc n) [] c tail h = cc
drop-suc (suc n) (x ∷ s) c tail h = drop-suc n s c tail h

find_needle : (key value : Text) → find_text (needle key) (object key value) ≡ some 1
find_needle key value = ground (
  arith,
  starts_with-append (needle key) (b':' ∷ value),
  find_text_front (needle key) (b':' ∷ value),
)

drop-object : (key value : Text) → drop (colon_at key) (object key value) ≡ b':' ∷ value
drop-object key value = drop-length (needle key) (b':' ∷ value)

drop_colon : (key value : Text) → drop (suc (colon_at key)) (object key value) ≡ value
drop_colon key value = drop-append (needle key) b':' value

place : (key : Text) → 1 + length (needle key) + 0 ≡ colon_at key
place key = omega arith

find_colon-object : (key value : Text) → find_colon (object key value) key ≡ some (colon_at key)
unfolding find_colon
find_colon-object key value =
    rw (find_needle key value, find_colon)
      (find_from_at (find_if (λ c. c == b':')) (object key value) (b':' ∷ value)
          (1 + length (needle key)) 0
          (drop_to _ _ (colon_at key) (1 + length (needle key)) (omega arith)
            (drop-object key value))
          refl
        ∙ ap some (place key))

-- Of an object whose first field is the key with a string that holds no quote, ExtractJsonString
-- gives that string.
pub extract_json_string-object :
    (key value rest : Text)
    → any (λ c. c == quote) value ≡ false
    → extract_json_string (object key (quote ∷ value ++ quote ∷ rest)) key ≡ value
unfolding extract_json_string
extract_json_string-object key value rest h =
    rw (find_colon-object key (quote ∷ value ++ quote ∷ rest), extract_json_string)
      (rw opening (rw closing slice))
  where
    json : Text
    json = object key (quote ∷ value ++ quote ∷ rest)

    -- Where the opening quote is found.
    start : ℕ
    start = colon_at key + 1 + 0

    opening : find_from (find_if (λ c. c == quote)) json (colon_at key + 1) ≡ some start
    opening =
        find_from_at (find_if (λ c. c == quote)) json (quote ∷ value ++ quote ∷ rest)
          (colon_at key + 1) 0
          (drop_to _ _ (suc (colon_at key)) (colon_at key + 1) (omega arith)
            (drop_colon key (quote ∷ value ++ quote ∷ rest)))
          refl

    behind : drop (start + 1) json ≡ value ++ quote ∷ rest
    behind = drop_to _ _ (suc (suc (colon_at key))) (start + 1) (omega arith) (
        drop-suc (suc (colon_at key)) json quote (value ++ quote ∷ rest)
          (drop_colon key (quote ∷ value ++ quote ∷ rest)))

    closing :
        find_from (find_if (λ c. c == quote)) json (start + 1) ≡ some (start + 1 + length value)
    closing =
        find_from_at (find_if (λ c. c == quote)) json (value ++ quote ∷ rest) (start + 1)
          (length value) behind (find_if-append (λ c. c == quote) value quote rest h refl)

    width : start + 1 + length value - start - 1 ≡ length value
    width = omega arith

    slice : take (start + 1 + length value - start - 1) (drop (start + 1) json) ≡ value
    slice = rw width (rw behind (take-append value (quote ∷ rest)))

-- Where the value ends.
comma_at :
    (key value : Text) (i : ℕ)
    → find_if (λ c. c == b',' || c == b'}' || c == 10) (b':' ∷ value) ≡ some i
    → find_from
        (λ s. find_if (λ c. c == b',' || c == b'}' || c == 10) s)
        (object key value)
        (colon_at key)
      ≡ some (colon_at key + i)
comma_at key value i h =
    find_from_at (λ s. find_if (λ c. c == b',' || c == b'}' || c == 10) s) (object key value)
      (b':' ∷ value) (colon_at key) i (drop-object key value) h

abbrev pub bool_text : Bool → Text
bool_text true = codes "true"
bool_text false = codes "false"

-- Of an object whose only field is the key with true or false, ExtractJsonBool gives that truth
-- value, whatever follows the object.
pub extract_json_bool-object :
    (key rest : Text) (b : Bool)
    → extract_json_bool (object key (bool_text b ++ b'}' ∷ rest)) key ≡ b
unfolding extract_json_bool
extract_json_bool-object key rest true =
    rw (find_colon-object key (codes "true" ++ b'}' ∷ rest), extract_json_bool)
      (rw (drop-object key (codes "true" ++ b'}' ∷ rest), find_from)
        (ground (arith, comma_at key (codes "true" ++ b'}' ∷ rest) 5 refl)))
extract_json_bool-object key rest false =
    rw (find_colon-object key (codes "false" ++ b'}' ∷ rest), extract_json_bool)
      (rw (drop-object key (codes "false" ++ b'}' ∷ rest), find_from)
        (ground (
          arith,
          comma_at key (codes "false" ++ b'}' ∷ rest) 6 refl,
          Option-cases (find_text (codes "true") rest),
        )))
