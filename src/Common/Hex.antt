-- ===== src/Common/Hex.antt =====
-- common/crypto/kyrin_hex.h: two lower-case digits for each byte.
mod Tests
pub mod RoundTrip
use kyrin_box.Prelude.{ℕ, ◌/◌, [], ◌∷◌, Bytes, text, get_elem?, or_zero, bit_and}

-- `lut[d]`; every index that is read lies below 16.
unfoldable pub digit_of : ℕ → ℕ
digit_of d = or_zero (get_elem? (text "0123456789abcdef") d)

unfoldable pub string_to_hex : Bytes → Bytes
string_to_hex [] = []
string_to_hex (c ∷ s) = digit_of (c / 16) ∷ digit_of (bit_and c 15) ∷ string_to_hex s
