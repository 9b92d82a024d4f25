-- ===== src/Json/Fields.antt =====
-- A reader of flat JSON objects, for the bodies that the credential provider writes.
use ligament_apps.Common.{
  ℕ, zero, suc, ◌≡◌, refl, ap, ◌∙◌, true, false, ◌&&◌, Option, none, some, List, [], ◌∷◌, ◌++◌,
  ◌==◌, if◌then◌else◌, empty,
}
use ligament_apps.Common.Text.{Text}
use ligament_apps.Json.{quote, escape_json}
use ligament_apps.Json.Escape.{read, plain, read-escape_json}

-- The text behind this character.
abbrev behind : ℕ → Text → Option Text
behind c [] = none
behind c (d ∷ s) = if c == d then some s else none

abbrev read_text : Option Text → Option (Text × Text)
read_text none = none
read_text (some s) = read plain s

abbrev paired : Text → Option (Text × Text) → Option ((Text × Text) × Text)
paired name none = none
paired name (some (value, rest)) = some ((name, value), rest)

abbrev read_value : Option (Text × Text) → Option ((Text × Text) × Text)
read_value none = none
read_value (some (name, s)) = elim (behind b':' s) [
  | none ↦ none
  | some t ↦ paired name (read_text (behind quote t))
]

-- `"name":"value"` and what follows.
abbrev read_field : Text → Option ((Text × Text) × Text)
read_field s = read_value (read_text (behind quote s))

abbrev pub with_field : (Text × Text) → Option (List (Text × Text)) → Option (List (Text × Text))
with_field f none = none
with_field f (some fs) = some (f ∷ fs)

-- Fields with commas between them and a closing brace behind them; at most `fuel` of them.
unfoldable pub read_fields : ℕ → Text → Option (List (Text × Text))
read_fields zero s = none
read_fields (suc fuel) s = elim (read_field s) [
  | none ↦ none
  | some (f, rest) ↦ elim rest [
    | [] ↦ none
    | c ∷ t ↦ elim (c == b',') [
      | true ↦ with_field f (read_fields fuel t)
      | false ↦ if c == b'}' && empty t then some (f ∷ []) else none
    ]
  ]
]

-- The fields of an object of at most `fuel` strings, in order.
unfoldable pub read_object : ℕ → Text → Option (List (Text × Text))
unfolding read_fields
read_object fuel s = elim (behind b'{' s) [ none ↦ none | some t ↦ read_fields fuel t ]

read_field_written :
    (name value rest : Text)
    → read_field
        (quote ∷ escape_json name ++ quote ∷ b':' ∷ quote ∷ (escape_json value ++ quote ∷ rest))
      ≡ some ((name, value), rest)
read_field_written name value rest =
    ap read_value (read-escape_json name (b':' ∷ quote ∷ (escape_json value ++ quote ∷ rest)))
    ∙ ap (paired name) (read-escape_json value rest)

module _ (fuel : ℕ) (name value : Text) where
  -- A field that a comma follows is read, and then the others.
  pub read_fields-comma :
      (rest : Text)
      → read_fields (suc fuel) (
          quote ∷ escape_json name
          ++ quote ∷ b':' ∷ quote ∷ (escape_json value ++ quote ∷ b',' ∷ rest))
        ≡ with_field (name, value) (read_fields fuel rest)
  unfolding read_fields
  read_fields-comma rest = rw (read_field_written name value (b',' ∷ rest), read_fields) refl

  pub read_fields_last :
      read_fields (suc fuel) (
        quote ∷ escape_json name ++ quote ∷ b':' ∷ quote ∷ (escape_json value ++ quote ∷ b'}' ∷ []))
      ≡ some ((name, value) ∷ [])
  unfolding read_fields
  read_fields_last = rw (read_field_written name value (b'}' ∷ []), read_fields) refl
