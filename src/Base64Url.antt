-- ===== src/Base64Url.antt =====
-- `Base64UrlEncode` and `Base64UrlDecode` of windows/credential_provider/common.h, on bytes. The
-- accumulator `val` is an int: its 32 bits wrap. `valb` is kept as the number of bits that wait, which
-- is `valb + 6` in the encoder and `valb + 8` in the decoder.
pub mod Groups
pub mod Trip
pub mod Samples
use ligament_apps.Common.{
  ℕ, zero, suc, ◌+◌, ◌-◌, ◌*◌, ◌/◌, ◌%◌, ◌^◌, ◌≤◌, ◌<◌, String, ◌≡◌, refl, sym, ap, ◌∙◌, ◌≢◌, ◌↔◌,
  ◌⊎◌, inl, inr, Bool, true, false, ◌&&◌, ◌||◌, Option, none, some, List, [], ◌∷◌, ◌++◌, map, arith,
  ltb, leb, ◌==◌, if◌then◌else◌, not, is_some, Bool-cases, Option-cases, length, take, drop,
  get_elem?, empty, any, all,
}
use ligament_apps.Common.Text.{Text, codes, find_if}

abbrev pub alphabet : Text
alphabet = codes "ABCDEFGHIJKLMNOPQRSTUVWXYZabcdefghijklmnopqrstuvwxyz0123456789-_"

-- `lookup[i]`.
unfoldable pub lookup : ℕ → ℕ
lookup i = elim (get_elem? alphabet i) [ none ↦ 0 | some c ↦ c ]

-- `T[c]`; `none` is -1.
unfoldable pub index_of : ℕ → Option ℕ
index_of c = find_if (λ d. d == c) alphabet

abbrev pub shifted_in : ℕ → ℕ → ℕ → ℕ
shifted_in val width n = (val * 2 ^ width + n) % 2 ^ 32

-- The loop that appends a character for each 6 bits that wait: what still waits, and the characters.
unfoldable pub drain : ℕ → ℕ → ℕ → ℕ × Text
unfolding lookup
drain zero val bits = (bits, [])
drain (suc fuel) val bits =
    let (left, out) = drain fuel val (bits - 6) in
    if leb 6 bits then (left, lookup ((val / 2 ^ (bits - 6)) % 64) ∷ out) else (bits, [])

-- The encoder from a state on. At most 12 bits wait, which two rounds of the loop drain.
unfoldable pub encode_from : ℕ → ℕ → Text → Text
unfolding drain lookup
encode_from val bits [] =
    if ltb 0 bits then lookup (shifted_in val 8 0 / 2 ^ (bits + 2) % 64) ∷ [] else []
encode_from val bits (c ∷ s) =
    let next = shifted_in val 8 c in
    let (left, out) = drain 2 next (bits + 8) in out ++ encode_from next left s

unfoldable pub base64_url_encode : Text → Text
unfolding encode_from
base64_url_encode s = encode_from 0 0 s

-- The decoder from a state on; it stops at a character that is not of the alphabet.
unfoldable pub decode_from : ℕ → ℕ → Text → Text
unfolding index_of
decode_from val bits [] = []
decode_from val bits (c ∷ s) = elim (index_of c) [
  | none ↦ []
  | some n ↦
      let next = shifted_in val 6 n in
      if leb 2 bits
      then (next / 2 ^ (bits - 2)) % 256 ∷ decode_from next (bits - 2) s
      else decode_from next (bits + 6) s
]

unfoldable pub base64_url_decode : Text → Text
unfolding decode_from
base64_url_decode s = decode_from 0 0 s
