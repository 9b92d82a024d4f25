-- ===== src/Common/Text.antt =====
-- Text as the list of its code units: `std::string` by bytes, `std::wstring` by UTF-16 units, with
-- the searches of `std::basic_string` that the program uses. `none` is `npos`.
use Prim.Native.Char.{code}
use Prim.Native.String.{String}
use Prim.Native.Nat.{ℕ, zero, suc, ◌+◌, ◌-◌, ◌/◌, ◌%◌, ◌<◌}
use mathlib.Core.Path.{◌≡◌, refl}
use mathlib.Core.Bool.{Bool, true, false, ◌&&◌}
use mathlib.Core.List.{List, [], ◌∷◌, ◌++◌, map}
use mathlib.Core.Option.{Option, none, some}
use native.Mathlib.Omega.{arith}
use ligament_apps.Common.Tests.{◌==◌, ltb, if◌then◌else◌}
use ligament_apps.Common.Lists.{all, any, drop, length}

abbrev pub Text : Type 0
Text = List ℕ

-- The code units of a literal.
abbrev pub codes : String → Text
codes String.[] = []
codes (String.◌∷◌ c s) = code c ∷ codes s

-- `==` on two texts.
unfoldable pub eq_text : Text → Text → Bool
eq_text [] [] = true
eq_text [] (_ ∷ _) = false
eq_text (_ ∷ _) [] = false
eq_text (a ∷ s) (b ∷ t) = a == b && eq_text s t

pub eq_text_refl : (s : Text) → eq_text s s ≡ true
unfolding eq_text
eq_text_refl [] = refl
eq_text_refl (a ∷ s) = ground (arith, eq_text_refl s)

pub eq_of_eq_text : (s t : Text) → eq_text s t ≡ true → s ≡ t
unfolding eq_text
eq_of_eq_text [] [] h = refl
eq_of_eq_text [] (_ ∷ _) h = cc
eq_of_eq_text (_ ∷ _) [] h = cc
eq_of_eq_text (a ∷ s) (b ∷ t) h = ground (arith, eq_of_eq_text s t)

-- `_wcsicmp(s, t) == 0`: the case folding of one code unit is the C runtime's, a parameter.
unfoldable pub eq_icase : (ℕ → ℕ) → Text → Text → Bool
unfolding eq_text
eq_icase fold s t = eq_text (map fold s) (map fold t)

pub eq_icase_refl : (fold : ℕ → ℕ) (s : Text) → eq_icase fold s s ≡ true
unfolding eq_icase
eq_icase_refl fold s = eq_text_refl (map fold s)

-- An index found in the tail, seen from the whole text.
abbrev pub later : Option ℕ → Option ℕ
later none = none
later (some i) = some (suc i)

-- `s.find(c)`, and `s.find_first_of(set)` by the set's test.
abbrev pub find_if : (ℕ → Bool) → Text → Option ℕ
find_if p [] = none
find_if p (c ∷ s) = if p c then some 0 else later (find_if p s)

-- `s.find_last_of(set)`.
abbrev pub find_last_if : (ℕ → Bool) → Text → Option ℕ
find_last_if p [] = none
find_last_if p (c ∷ s) = elim (find_last_if p s) [
  | some i ↦ some (suc i)
  | none ↦ if p c then some 0 else none
]

abbrev pub starts_with : Text → Text → Bool
starts_with [] s = true
starts_with (_ ∷ _) [] = false
starts_with (a ∷ p) (b ∷ s) = a == b && starts_with p s

-- `s.find(needle)`.
abbrev pub find_text : Text → Text → Option ℕ
find_text needle [] = if starts_with needle [] then some 0 else none
find_text needle (c ∷ s) = if starts_with needle (c ∷ s) then some 0 else later (find_text needle s)

-- `s.find(…, from)`.
abbrev pub find_from : (Text → Option ℕ) → Text → ℕ → Option ℕ
find_from search_in s from = elim (search_in (drop from s)) [
  | none ↦ none
  | some i ↦ some (from + i)
]

pub starts_with-append : (p s : Text) → starts_with p (p ++ s) ≡ true
starts_with-append [] s = refl
starts_with-append (a ∷ p) s = ground (arith, starts_with-append p s)

pub find_if_lt : (p : ℕ → Bool) (s : Text) (i : ℕ) → find_if p s ≡ some i → i < length s
find_if_lt p [] i h = cc
find_if_lt p (c ∷ s) i h = ground (arith, find_if_lt p s (i - 1))

pub find_if-append :
    (p : ℕ → Bool) (xs : Text) (y : ℕ) (ys : Text)
    → any p xs ≡ false
    → p y ≡ true
    → find_if p (xs ++ y ∷ ys) ≡ some (length xs)
find_if-append p [] y ys h k = rw k
find_if-append p (x ∷ xs) y ys h k = ground (arith, find_if-append p xs y ys)

-- Texts one behind the other.
abbrev pub joined : List Text → Text
joined [] = []
joined (s ∷ ss) = s ++ joined ss

-- The digits of a number, in front of `acc`.
digits : ℕ → ℕ → Text → Text
digits zero n acc = acc
digits (suc fuel) n acc =
    let rest = digits fuel (n / 10) ((48 + n % 10) ∷ acc) in
    if ltb n 10 then (48 + n) ∷ acc else rest

-- `std::to_string`.
unfoldable pub decimal : ℕ → Text
unfolding digits
decimal n = digits (suc n) n []

digits-all :
    (p : ℕ → Bool) (fuel n : ℕ) (acc : Text)
    → ((d : ℕ) → d < 10 → p (48 + d) ≡ true)
    → all p acc ≡ true
    → all p (digits fuel n acc) ≡ true
unfolding digits
digits-all p zero n acc f h = h
digits-all p (suc fuel) n acc f h =
    ground (arith, h, f n, f (n % 10), digits-all p fuel (n / 10) ((48 + n % 10) ∷ acc) f)

-- What holds of each digit holds of the characters of a number.
pub decimal-all :
    (p : ℕ → Bool) (n : ℕ) → ((d : ℕ) → d < 10 → p (48 + d) ≡ true) → all p (decimal n) ≡ true
unfolding decimal
decimal-all p n f = digits-all p (suc n) n [] f refl
