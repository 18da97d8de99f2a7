-- ===== src/Common/Base64/Tests.antt =====
-- Runs of the codec, and its theorems at a concrete text.
use kyrin_box.Prelude.{◌+◌, ◌*◌, ◌/◌, ◌<◌, ◌≡◌, refl, Bytes, text, length, All, arith}
use kyrin_box.Common.Base64.{base64_encode, base64_decode, char_of}
use kyrin_box.Common.Base64.RoundTrip.{decode-encode}
use kyrin_box.Common.Base64.Shape.{IsText, encode-IsText}

encodes : base64_encode (text "Read") ≡ text "UmVhZA=="
unfolding base64_encode char_of
encodes = refl

abbrev read : Bytes
read = text "Read"

read-bytes : All (λ c. c < 256) read
read-bytes = omega arith

decode-encode_example : base64_decode (base64_encode read) ≡ read
decode-encode_example = decode-encode read read-bytes

encode-IsText_example :
    All IsText (base64_encode read) × (length (base64_encode read) ≡ (length read + 2) / 3 * 4)
encode-IsText_example = encode-IsText read read-bytes
