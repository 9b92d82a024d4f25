-- ===== src/Base64Url/Samples.antt =====
-- A credential identifier of four bytes.
use ligament_apps.Common.{◌≡◌, refl, [], ◌∷◌}
use ligament_apps.Common.Text.{Text, codes}
use ligament_apps.Base64Url.{base64_url_encode, base64_url_decode, encode_from, drain, lookup}
use ligament_apps.Base64Url.Trip.{base64_url_decode-base64_url_encode}

abbrev identifier : Text
identifier = 255 ∷ 0 ∷ 16 ∷ 131 ∷ []

encoded : base64_url_encode identifier ≡ codes "_wAQgw"
unfolding base64_url_encode encode_from drain lookup
encoded = refl

base64_url_decode-base64_url_encode_example :
    base64_url_decode (base64_url_encode identifier) ≡ identifier
base64_url_decode-base64_url_encode_example = base64_url_decode-base64_url_encode identifier refl
