-- ===== src/Base64Url/Groups.antt =====
-- Groups of three bytes and four characters of windows/credential_provider/common.h.
use ligament_apps.Common.{ℕ, ◌+◌, ◌*◌, ◌/◌, ◌%◌, ◌<◌, ◌≡◌, refl, ap, some, [], ◌∷◌, arith}
use ligament_apps.Common.Text.{Text}
use ligament_apps.Json.Escape.{holds_below_lem, is_value, is_value_lem}
use ligament_apps.Base64Url.{lookup, index_of, shifted_in, drain, encode_from, decode_from}

-- The index of a character of the alphabet is found again.
pub index_of-lookup : (n : ℕ) → n < 64 → index_of (lookup n) ≡ some n
unfolding index_of lookup
index_of-lookup n l =
    is_value_lem n (index_of (lookup n))
      (holds_below_lem (λ k. is_value k (index_of (lookup k))) 64 n refl l)

pub encode_from-three :
    (v a b c : ℕ) (s : Text)
    → encode_from v 0 (a ∷ b ∷ c ∷ s)
      ≡ lookup (shifted_in v 8 a / 4 % 64)
        ∷ lookup (shifted_in (shifted_in v 8 a) 8 b / 16 % 64)
        ∷ lookup (shifted_in (shifted_in (shifted_in v 8 a) 8 b) 8 c / 64 % 64)
        ∷ lookup (shifted_in (shifted_in (shifted_in v 8 a) 8 b) 8 c / 1 % 64)
        ∷ encode_from (shifted_in (shifted_in (shifted_in v 8 a) 8 b) 8 c) 0 s
unfolding encode_from drain
encode_from-three v a b c s = refl

pub low_byte : (v a : ℕ) → a < 256 → shifted_in v 8 a % 256 ≡ a
low_byte v a l = omega (arith, l)

pub first_six : (v a : ℕ) → a < 256 → shifted_in v 8 a / 4 % 64 ≡ a / 4
first_six v a l = omega (arith, l)

pub second_six :
    (v a b : ℕ) → v % 256 ≡ a → b < 256 → shifted_in v 8 b / 16 % 64 ≡ a % 4 * 16 + b / 16
second_six v a b e l = omega (arith, e, l)

pub third_six :
    (v b c : ℕ) → v % 256 ≡ b → c < 256 → shifted_in v 8 c / 64 % 64 ≡ b % 16 * 4 + c / 64
third_six v b c e l = omega (arith, e, l)

pub last_six : (v c : ℕ) → c < 256 → shifted_in v 8 c / 1 % 64 ≡ c % 64
last_six v c l = omega (arith, l)

pub encode_from-two :
    (v a b : ℕ)
    → encode_from v 0 (a ∷ b ∷ [])
      ≡ lookup (shifted_in v 8 a / 4 % 64)
        ∷ lookup (shifted_in (shifted_in v 8 a) 8 b / 16 % 64)
        ∷ lookup (shifted_in (shifted_in (shifted_in v 8 a) 8 b) 8 0 / 64 % 64)
        ∷ []
unfolding encode_from drain
encode_from-two v a b = refl

pub encode_from-one :
    (v a : ℕ)
    → encode_from v 0 (a ∷ [])
      ≡ lookup (shifted_in v 8 a / 4 % 64)
        ∷ lookup (shifted_in (shifted_in v 8 a) 8 0 / 16 % 64)
        ∷ []
unfolding encode_from drain
encode_from-one v a = refl

-- Two characters give a byte, and a third and a fourth one more each.
byte_of_two : (w t u : ℕ) → w % 64 ≡ t → u < 64 → shifted_in w 6 u / 16 % 256 ≡ t * 4 + u / 16
byte_of_two w t u e l = omega (arith, e, l)

byte_of_third : (w u x : ℕ) → w % 64 ≡ u → x < 64 → shifted_in w 6 x / 4 % 256 ≡ u % 16 * 16 + x / 4
byte_of_third w u x e l = omega (arith, e, l)

byte_of_last : (w x y : ℕ) → w % 64 ≡ x → y < 64 → shifted_in w 6 y / 1 % 256 ≡ x % 4 * 64 + y
byte_of_last w x y e l = omega (arith, e, l)

low_six : (w t : ℕ) → t < 64 → shifted_in w 6 t % 64 ≡ t
low_six w t l = omega (arith, l)

module _ (w t u : ℕ) (lt : t < 64) (lu : u < 64) where
  abbrev second : ℕ
  second = shifted_in (shifted_in w 6 t) 6 u

  pub decode_from-two :
      (s : Text)
      → decode_from w 0 (lookup t ∷ lookup u ∷ s) ≡ (t * 4 + u / 16) ∷ decode_from second 4 s
  unfolding decode_from
  decode_from-two s =
      rw (index_of-lookup t lt, index_of-lookup u lu, decode_from)
        (ap (◌∷ decode_from second 4 s) (byte_of_two (shifted_in w 6 t) t u (low_six w t lt) lu))

  module _ (x : ℕ) (lx : x < 64) where
    abbrev third : ℕ
    third = shifted_in second 6 x

    pub decode_from-third :
        (s : Text)
        → decode_from second 4 (lookup x ∷ s) ≡ (u % 16 * 16 + x / 4) ∷ decode_from third 2 s
    unfolding decode_from
    decode_from-third s =
        rw (index_of-lookup x lx, decode_from)
          (ap (◌∷ decode_from third 2 s)
            (byte_of_third second u x (low_six (shifted_in w 6 t) u lu) lx))

    pub decode_from-last :
        (y : ℕ)
        → y < 64
        → (s : Text)
        → decode_from third 2 (lookup y ∷ s)
          ≡ (x % 4 * 64 + y) ∷ decode_from (shifted_in third 6 y) 0 s
    unfolding decode_from
    decode_from-last y ly s =
        rw (index_of-lookup y ly, decode_from)
          (ap (◌∷ decode_from (shifted_in third 6 y) 0 s)
            (byte_of_last third x y (low_six second x lx) ly))
