-- ===== src/DebugLog/Printable.antt =====
-- Of which characters a record of windows/runner/debug_log.cpp is made.
use ligament_apps.Common.{
  ℕ, zero, suc, ◌-◌, ◌/◌, ◌%◌, ◌≡◌, refl, sym, ◌⊎◌, inl, inr, Bool, true, false, ◌&&◌, ◌||◌, Option,
  none, some, List, [], ◌∷◌, ◌++◌, arith, leb, ◌==◌, if◌then◌else◌, not, Bool-cases, length, empty,
  all,
}
use Prim.{Unit, tt}
use mathlib.Core.Path.{subst}
use ligament_apps.Common.Tests.{and_left, and_right}
use ligament_apps.Common.Lists.{all-append}
use ligament_apps.Common.Text.{joined, Text, codes, decimal, decimal-all, eq_text, eq_of_eq_text}
use ligament_apps.Common.Integers.{ℤ, pos, negsuc, is_negative, absolute, signed_decimal}
use ligament_apps.DebugLog.{
  valid_event, valid_level, valid_error_type, valid_error_code, valid_context, valid_context_value,
  field_char,
}
use ligament_apps.DebugLog.Characters.{
  is_visible, is_key_char, value_visible, key_plain, field_visible, all-imp,
}
use ligament_apps.DebugLog.Context.{valid_context_iff, render, token_of, all_valid}
use ligament_apps.DebugLog.Line.{
  Clock, Fields, zeros, padded, zone_offset, resolved_level, line_prefix, version_part,
  is_safe_version, labelled, os_part, line_parts, prefix_parts, valid_fields, is_failure,
  is_trouble, line_of, is_invalid,
}

-- A character of ASCII that is no control.
abbrev pub is_printable : ℕ → Bool
is_printable c = leb 32 c && leb c 126

abbrev pub IsPrintable : Text → Type 0
IsPrintable s = all is_printable s ≡ true

join : (s t : Text) → IsPrintable s → IsPrintable t → IsPrintable (s ++ t)
join s t h k = ground (arith, all-append is_printable s t, h, k)

visible-IsPrintable : (s : Text) → all is_visible s ≡ true → IsPrintable s
visible-IsPrintable s h = all-imp is_visible is_printable s (λ c k. ground arith) h

decimal-IsPrintable : (n : ℕ) → IsPrintable (decimal n)
decimal-IsPrintable n = decimal-all is_printable n (λ d l. ground (arith, l))

signed-IsPrintable : (n : ℤ) → IsPrintable (signed_decimal n)
unfolding signed_decimal
signed-IsPrintable (pos n) = decimal-IsPrintable n
signed-IsPrintable (negsuc n) = decimal-IsPrintable (suc n)

zeros-IsPrintable : (n : ℕ) (s : Text) → IsPrintable s → IsPrintable (zeros n s)
zeros-IsPrintable zero s h = h
zeros-IsPrintable (suc n) s h = zeros-IsPrintable n s h

padded-IsPrintable : (width n : ℕ) → IsPrintable (padded width n)
unfolding padded
padded-IsPrintable width n =
    zeros-IsPrintable (width - length (decimal n)) (decimal n) (decimal-IsPrintable n)

abbrev ArePrintable : List Text → Type 0
ArePrintable [] = Unit
ArePrintable (s ∷ ss) = IsPrintable s × ArePrintable ss

joined-IsPrintable : (ss : List Text) → ArePrintable ss → IsPrintable (joined ss)
joined-IsPrintable [] h = refl
joined-IsPrintable (s ∷ ss) (h, k) = join s (joined ss) h (joined-IsPrintable ss k)

sign-IsPrintable : (b : Bool) → IsPrintable (if b then codes "-" else codes "+")
sign-IsPrintable true = refl
sign-IsPrintable false = refl

line_prefix-IsPrintable :
    (now : Clock) (level : Text) → IsPrintable level → IsPrintable (line_prefix now level)
unfolding line_prefix
line_prefix-IsPrintable now level h = joined-IsPrintable (prefix_parts now level) (
  padded-IsPrintable 4 now.year,
  (
    refl,
    (
      padded-IsPrintable 2 now.month,
      (
        refl,
        (
          padded-IsPrintable 2 now.day,
          (
            refl,
            (
              padded-IsPrintable 2 now.hour,
              (
                refl,
                (
                  padded-IsPrintable 2 now.minute,
                  (
                    refl,
                    (
                      padded-IsPrintable 2 now.second,
                      (
                        refl,
                        (
                          padded-IsPrintable 3 now.milliseconds,
                          (
                            sign-IsPrintable (is_negative (zone_offset now)),
                            (
                              padded-IsPrintable 2 (absolute (zone_offset now) / 60),
                              (
                                refl,
                                (
                                  padded-IsPrintable 2 (absolute (zone_offset now) % 60),
                                  (
                                    refl,
                                    (
                                      decimal-IsPrintable now.pid,
                                      (
                                        refl,
                                        (decimal-IsPrintable now.tid, (refl, (h, (refl, tt)))),
                                      ),
                                    ),
                                  ),
                                ),
                              ),
                            ),
                          ),
                        ),
                      ),
                    ),
                  ),
                ),
              ),
            ),
          ),
        ),
      ),
    ),
  ),
)

valid_level-IsPrintable : (level : Text) → valid_level level ≡ true → IsPrintable level
valid_level-IsPrintable level h = elim (Bool-cases (eq_text level (codes "INFO"))) [
  | inl e ↦ subst IsPrintable (sym (eq_of_eq_text level (codes "INFO") e)) refl
  | inr e ↦ elim (Bool-cases (eq_text level (codes "WARN"))) [
    | inl k ↦ subst IsPrintable (sym (eq_of_eq_text level (codes "WARN") k)) refl
    | inr k ↦
        subst IsPrintable (sym (eq_of_eq_text level (codes "ERROR") (ground (arith, e, k, h)))) refl
  ]
]

choice-IsPrintable :
    (b : Bool) (s t : Text)
    → (b ≡ true → IsPrintable s)
    → IsPrintable t
    → IsPrintable (if b then s else t)
choice-IsPrintable true s t h k = h refl
choice-IsPrintable false s t h k = k

given_level : (s v : Bool) → not (s || not v) ≡ true → v ≡ true
given_level s v h = ground (arith, h)

resolved_level-IsPrintable : (f : Fields) → IsPrintable (resolved_level f)
unfolding resolved_level
resolved_level-IsPrintable f =
    choice-IsPrintable (not (empty f.level || not (valid_level f.level))) f.level
      (if is_failure f then codes "ERROR" else if is_trouble f then codes "WARN" else codes "INFO")
      (λ h. valid_level-IsPrintable f.level (given_level (empty f.level) (valid_level f.level) h))
      (choice-IsPrintable (is_failure f) (codes "ERROR")
        (if is_trouble f then codes "WARN" else codes "INFO") (λ _. refl)
        (choice-IsPrintable (is_trouble f) (codes "WARN") (codes "INFO") (λ _. refl) refl))

token_of-IsPrintable :
    (g : Text × Text) → valid_context_value g.0 g.1 ≡ true → IsPrintable (token_of g)
token_of-IsPrintable (key, value) v =
    join key (b'=' ∷ value)
      (all-imp is_key_char is_printable key (λ c k. ground arith) (key_plain key value v))
      (visible-IsPrintable value (value_visible key value v))

render-IsPrintable : (gs : List (Text × Text)) → all_valid gs ≡ true → IsPrintable (render gs)
render-IsPrintable [] a = refl
render-IsPrintable (g ∷ []) a = token_of-IsPrintable g (and_left _ _ a)
render-IsPrintable (g ∷ h ∷ hs) a =
    join (token_of g) (b' ' ∷ render (h ∷ hs)) (token_of-IsPrintable g (and_left _ _ a))
      (render-IsPrintable (h ∷ hs) (and_right (valid_context_value g.0 g.1) _ a))

context-IsPrintable : (s : Text) → valid_context s ≡ true → IsPrintable s
context-IsPrintable s h =
    let q = (valid_context_iff s).0 h in subst IsPrintable (sym q.3) (render-IsPrintable q.0 q.4)

version-IsPrintable : (version : Option Text) → IsPrintable (version_part version)
version-IsPrintable none = refl
version-IsPrintable (some version) =
    choice-IsPrintable (is_safe_version version) (codes " version=" ++ version) []
      (λ h. join (codes " version=") version refl (
        all-imp (λ c. c == b'+' || field_char true true c) is_printable version
          (λ c k. ground arith) (and_right _ _ h)))
      refl

labelled-IsPrintable :
    (label value : Text)
    → IsPrintable label
    → (empty value ≡ false → IsPrintable value)
    → IsPrintable (labelled label value)
labelled-IsPrintable label [] h k = refl
labelled-IsPrintable label (c ∷ s) h k = join label (c ∷ s) h (k refl)

os-IsPrintable : (n : Option ℤ) → IsPrintable (os_part n)
os-IsPrintable none = refl
os-IsPrintable (some n) = join (codes " os_error=") (signed_decimal n) refl (signed-IsPrintable n)

-- What `valid_fields` says of each argument.
either_empty :
    (value : Text) (v : Bool) → (empty value || v) ≡ true → empty value ≡ false → v ≡ true
either_empty value v h e = ground (arith, h, e)

fields_bits :
    (a b c d e : Bool)
    → (a && b && c && d && e) ≡ true
    → (a ≡ true) × (c ≡ true) × (d ≡ true) × (e ≡ true)
fields_bits a b c d e h = ground (arith, h)

line_parts-ArePrintable :
    (version : Option Text) (f : Fields)
    → valid_fields f ≡ true
    → ArePrintable (line_parts version f)
line_parts-ArePrintable version f h = (
  visible-IsPrintable f.event (field_visible f.event 80 false true q.0),
  (
    version-IsPrintable version,
    (
      labelled-IsPrintable (codes " error_type=") f.error_type refl (λ e.
          visible-IsPrintable f.error_type (
            field_visible f.error_type 64 true false
              (either_empty f.error_type (valid_error_type f.error_type) q.1 e))),
      (
        labelled-IsPrintable (codes " error_code=") f.error_code refl (λ e.
            visible-IsPrintable f.error_code (
              field_visible f.error_code 64 true true
                (either_empty f.error_code (valid_error_code f.error_code) q.2 e))),
        (
          os-IsPrintable f.os_error,
          (
            labelled-IsPrintable (codes " ") f.context refl
                (λ _. context-IsPrintable f.context q.3),
            tt,
          ),
        ),
      ),
    ),
  ),
)
  where
    q :
        (valid_event f.event ≡ true)
        × ((empty f.error_type || valid_error_type f.error_type) ≡ true)
        × ((empty f.error_code || valid_error_code f.error_code) ≡ true)
        × (valid_context f.context ≡ true)
    q = fields_bits _ (empty f.level || valid_level f.level) _ _ _ h

-- One record: printable characters, then the end of the line.
abbrev pub IsLine : Text → Type 0
IsLine s = (body : Text) × IsPrintable body × (s ≡ body ++ 13 ∷ 10 ∷ [])

-- The text of a record of valid arguments is one line, or nothing.
pub line_of-IsLine :
    (now : Clock) (version : Option Text) (f : Fields)
    → valid_fields f ≡ true
    → (line_of now version f ≡ []) ⊎ IsLine (line_of now version f)
unfolding line_of
line_of-IsLine now version f h =
    elim (Bool-cases
      (is_invalid now.zone_state || leb 180 (length (line_prefix now (resolved_level f))))) [
        | inl e ↦ inl (rw (e, line_of) refl)
        | inr e ↦ inr (
          joined (line_prefix now (resolved_level f) ∷ line_parts version f),
          joined-IsPrintable (line_prefix now (resolved_level f) ∷ line_parts version f) (
            line_prefix-IsPrintable now (resolved_level f) (resolved_level-IsPrintable f),
            line_parts-ArePrintable version f h,
          ),
          rw (e, line_of) refl,
        )
      ]
