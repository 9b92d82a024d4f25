-- ===== src/Base64Url/Trip.antt =====
-- Decoding what was encoded by windows/credential_provider/common.h.
use ligament_apps.Common.{
  ℕ, ◌+◌, ◌*◌, ◌/◌, ◌%◌, ◌<◌, ◌≡◌, refl, ap, ◌∙◌, Bool, true, ◌&&◌, [], ◌∷◌, arith, ltb, all,
}
use ligament_apps.Common.Tests.{and_right}
use ligament_apps.Common.Text.{Text}
use ligament_apps.Base64Url.{
  lookup, shifted_in, encode_from, decode_from, base64_url_encode, base64_url_decode,
}
use ligament_apps.Base64Url.Groups.{
  encode_from-three, encode_from-two, encode_from-one, low_byte, first_six, second_six, third_six,
  last_six, decode_from-two, decode_from-third, decode_from-last,
}

-- A byte.
abbrev pub is_byte : ℕ → Bool
is_byte c = ltb c 256

-- Four numbers below 64 that hold three bytes.
four :
    (w t u x y : ℕ)
    → t < 64
    → u < 64
    → x < 64
    → y < 64
    → (s : Text)
    → (z : ℕ) × (decode_from w 0 (lookup t ∷ lookup u ∷ lookup x ∷ lookup y ∷ s)
        ≡ (t * 4 + u / 16) ∷ (u % 16 * 16 + x / 4) ∷ (x % 4 * 64 + y) ∷ decode_from z 0 s)
four w t u x y lt lu lx ly s = (
  _,
  decode_from-two w t u lt lu (lookup x ∷ lookup y ∷ s)
      ∙ ap ((t * 4 + u / 16) ∷◌) (
          decode_from-third w t u lt lu x lx (lookup y ∷ s)
          ∙ ap ((u % 16 * 16 + x / 4) ∷◌) (decode_from-last w t u lt lu x lx y ly s)),
)

joined_a : (a b : ℕ) → a < 256 → b < 256 → a / 4 * 4 + (a % 4 * 16 + b / 16) / 16 ≡ a
joined_a a b l k = omega (arith, l, k)

joined_b :
    (a b c : ℕ)
    → b < 256
    → c < 256
    → (a % 4 * 16 + b / 16) % 16 * 16 + (b % 16 * 4 + c / 64) / 4 ≡ b
joined_b a b c l k = omega (arith, l, k)

joined_c : (b c : ℕ) → c < 256 → (b % 16 * 4 + c / 64) % 4 * 64 + c % 64 ≡ c
joined_c b c k = omega (arith, k)

decode_three :
    (w a b c : ℕ)
    → a < 256
    → b < 256
    → c < 256
    → (s : Text)
    → (z : ℕ) × (decode_from w 0 (
          lookup (a / 4)
          ∷ lookup (a % 4 * 16 + b / 16)
          ∷ lookup (b % 16 * 4 + c / 64)
          ∷ lookup (c % 64)
          ∷ s)
        ≡ a ∷ b ∷ c ∷ decode_from z 0 s)
decode_three w a b c la lb lc s =
    let q =
      four w (a / 4) (a % 4 * 16 + b / 16) (b % 16 * 4 + c / 64) (c % 64) (omega (arith, la))
        (omega (arith, lb)) (omega (arith, lc)) (omega arith) s in
    (q.0, q.1 ∙ rw (joined_a a b la lb, joined_b a b c lb lc, joined_c b c lc) refl)

bytes_below : (a : ℕ) (b : Bool) → (is_byte a && b) ≡ true → a < 256
bytes_below a b h = ground (arith, h)

decode_two :
    (w a b : ℕ)
    → a < 256
    → b < 256
    → decode_from w 0
        (lookup (a / 4) ∷ lookup (a % 4 * 16 + b / 16) ∷ lookup (b % 16 * 4 + 0 / 64) ∷ [])
      ≡ a ∷ b ∷ []
unfolding decode_from
decode_two w a b la lb =
    let t : a / 4 < 64 = omega (arith, la) in
    let u : a % 4 * 16 + b / 16 < 64 = omega (arith, lb) in
    let x : b % 16 * 4 + 0 / 64 < 64 = omega arith in
    decode_from-two w (a / 4) (a % 4 * 16 + b / 16) t u (lookup (b % 16 * 4 + 0 / 64) ∷ [])
    ∙ ap ((a / 4 * 4 + (a % 4 * 16 + b / 16) / 16) ∷◌)
        (decode_from-third w (a / 4) (a % 4 * 16 + b / 16) t u (b % 16 * 4 + 0 / 64) x [])
    ∙ rw (joined_a a b la lb, joined_b a b 0 lb (omega arith)) refl

decode_one :
    (w a : ℕ)
    → a < 256
    → decode_from w 0 (lookup (a / 4) ∷ lookup (a % 4 * 16 + 0 / 16) ∷ []) ≡ a ∷ []
unfolding decode_from
decode_one w a la =
    decode_from-two w (a / 4) (a % 4 * 16 + 0 / 16) (omega (arith, la)) (omega arith) []
    ∙ rw (joined_a a 0 la (omega arith)) refl

-- What the characters of a group are.
module _ (v a b c : ℕ) (la : a < 256) (lb : b < 256) (lc : c < 256) where
  abbrev v1 : ℕ
  v1 = shifted_in v 8 a

  abbrev v2 : ℕ
  v2 = shifted_in v1 8 b

  abbrev v3 : ℕ
  v3 = shifted_in v2 8 c

  group :
      (s : Text)
      → encode_from v 0 (a ∷ b ∷ c ∷ s)
        ≡ lookup (a / 4)
          ∷ lookup (a % 4 * 16 + b / 16)
          ∷ lookup (b % 16 * 4 + c / 64)
          ∷ lookup (c % 64)
          ∷ encode_from v3 0 s
  group s =
      encode_from-three v a b c s
      ∙ rw
          (
            first_six v a la,
            second_six v1 a b (low_byte v a la) lb,
            third_six v2 b c (low_byte v1 b lb) lc,
            last_six v2 c lc,
          )
          refl

  pair :
      encode_from v 0 (a ∷ b ∷ [])
      ≡ lookup (a / 4) ∷ lookup (a % 4 * 16 + b / 16) ∷ lookup (b % 16 * 4 + 0 / 64) ∷ []
  pair =
      encode_from-two v a b
      ∙ rw
          (
            first_six v a la,
            second_six v1 a b (low_byte v a la) lb,
            third_six v2 b 0 (low_byte v1 b lb) (omega arith),
          )
          refl

  single : encode_from v 0 (a ∷ []) ≡ lookup (a / 4) ∷ lookup (a % 4 * 16 + 0 / 16) ∷ []
  single =
      encode_from-one v a
      ∙ rw (first_six v a la, second_six v1 a 0 (low_byte v a la) (omega arith)) refl

round_trip : (s : Text) (v w : ℕ) → all is_byte s ≡ true → decode_from w 0 (encode_from v 0 s) ≡ s
unfolding decode_from encode_from
round_trip [] v w h = refl
round_trip (a ∷ []) v w h =
    let la : a < 256 = bytes_below a _ h in
    ap (decode_from w 0) (single v a 0 0 la (omega arith) (omega arith)) ∙ decode_one w a la
round_trip (a ∷ b ∷ []) v w h =
    let la : a < 256 = bytes_below a _ h in
    let lb : b < 256 = bytes_below b _ (and_right (is_byte a) _ h) in
    ap (decode_from w 0) (pair v a b 0 la lb (omega arith)) ∙ decode_two w a b la lb
round_trip (a ∷ b ∷ c ∷ s) v w h =
    let la : a < 256 = bytes_below a _ h in
    let hb = and_right (is_byte a) _ h in
    let lb : b < 256 = bytes_below b _ hb in
    let hc = and_right (is_byte b) _ hb in
    let lc : c < 256 = bytes_below c _ hc in
    let next = v3 v a b c la lb lc in
    let q = decode_three w a b c la lb lc (encode_from next 0 s) in
    ap (decode_from w 0) (group v a b c la lb lc s)
    ∙ q.1
    ∙ ap (λ t. a ∷ b ∷ c ∷ t) (round_trip s next q.0 (and_right (is_byte c) _ hc))

-- What Base64UrlEncode makes of any bytes, Base64UrlDecode turns back into those bytes, although
-- the accumulators of both wrap at 32 bits.
pub base64_url_decode-base64_url_encode :
    (s : Text) → all is_byte s ≡ true → base64_url_decode (base64_url_encode s) ≡ s
unfolding base64_url_decode base64_url_encode
base64_url_decode-base64_url_encode s h = round_trip s 0 0 h
