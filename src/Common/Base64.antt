-- ===== src/Common/Base64.antt =====
-- common/crypto/kyrin_base64.cc: the encoding of every body and signature on the wire.
pub mod Sextets
pub mod RoundTrip
pub mod Shape
pub mod Printed
mod Tests
use kyrin_box.Prelude.{
  ℕ, zero, suc, ◌+◌, ◌-◌, ◌*◌, ◌/◌, ◌%◌, bit_and, Bool, true, false, not, ◌&&◌, ◌||◌, Option, none,
  some, List, [], ◌∷◌, ◌++◌, map, Bytes, text, ltb, leb, ◌==◌, if◌then◌else◌, length, get_elem?,
  replicate, take, drop, or_zero,
}

pub base64_chars : Bytes
base64_chars = text "ABCDEFGHIJKLMNOPQRSTUVWXYZabcdefghijklmnopqrstuvwxyz0123456789+/"

-- `base64_chars[n]`; every index that is read lies below 64.
unfoldable pub char_of : ℕ → ℕ
unfolding base64_chars
char_of n = or_zero (get_elem? base64_chars n)

-- `base64_chars.find(c)`
pub find_from : ℕ → ℕ → Bytes → Option ℕ
find_from i c [] = none
find_from i c (d ∷ s) = if d == c then some i else find_from (i + 1) c s

-- Its result in an `unsigned char`: `npos` becomes 255.
unfoldable pub sextet_of : ℕ → ℕ
unfolding base64_chars find_from
sextet_of c = elim (find_from 0 c base64_chars) [ none ↦ 255 | some i ↦ i ]

-- `isalnum` in the C locale, and the two other characters.
unfoldable pub is_base64 : ℕ → Bool
is_base64 c =
    (leb b'0' c && leb c b'9')
    || (leb b'A' c && leb c b'Z')
    || (leb b'a' c && leb c b'z')
    || c == b'+'
    || c == b'/'

-- `char_array_4` from `char_array_3`.
pub quad : Bytes → Bytes
quad (a ∷ b ∷ c ∷ _) =
    (bit_and a 0xfc / 4)
    ∷ ((bit_and a 0x03 * 16 + bit_and b 0xf0 / 16) % 256)
    ∷ ((bit_and b 0x0f * 4 + bit_and c 0xc0 / 64) % 256)
    ∷ bit_and c 0x3f
    ∷ []
quad _ = []

-- `char_array_3` from `char_array_4`.
pub triple : Bytes → Bytes
triple (p ∷ q ∷ r ∷ s ∷ _) =
    ((p * 4 + bit_and q 0x30 / 16) % 256)
    ∷ ((bit_and q 0x0f * 16 + bit_and r 0x3c / 4) % 256)
    ∷ ((bit_and r 0x03 * 64 + s) % 256)
    ∷ []
triple _ = []

-- What follows the loop: `arr` is the part of `char_array_3` below `i`.
pub encode_rest : Bytes → Bytes → Bytes
unfolding quad
encode_rest arr ret =
    let i = length arr in
    if i == 0
    then ret
    else ret
      ++ (map char_of (take (i + 1) (quad (arr ++ replicate (3 - i) 0))) ++ replicate (3 - i) b'=')

-- `while (in_len--)`: `arr` is the part of `char_array_3` below `i`.
pub encode_loop : Bytes → Bytes → Bytes → Bytes
unfolding encode_rest
encode_loop arr [] ret = encode_rest arr ret
encode_loop arr (c ∷ s) ret =
    let arr' = arr ++ (c ∷ []) in
    let full = length arr' == 3 in
    encode_loop (if full then [] else arr') s (if full then ret ++ map char_of (quad arr') else ret)

unfoldable pub base64_encode : Bytes → Bytes
unfolding encode_loop
base64_encode s = encode_loop [] s []

-- What follows the loop: `arr` is the part of `char_array_4` below `i`.
pub decode_rest : Bytes → Bytes → Bytes
unfolding triple
decode_rest arr ret =
    let i = length arr in
    if i == 0
    then ret
    else ret ++ take (i - 1) (triple (map sextet_of (arr ++ replicate (4 - i) 0)))

-- The loop ends at the end of the string, at a `=`, and at a character outside the alphabet.
pub decode_loop : Bytes → Bytes → Bytes → Bytes
unfolding decode_rest
decode_loop arr [] ret = decode_rest arr ret
decode_loop arr (c ∷ s) ret =
    let arr' = arr ++ (c ∷ []) in
    let full = length arr' == 4 in
    let more =
      decode_loop (if full then [] else arr') s
        (if full then ret ++ triple (map sextet_of arr') else ret) in
    if not (c == b'=') && is_base64 c then more else decode_rest arr ret

unfoldable pub base64_decode : Bytes → Bytes
unfolding decode_loop
base64_decode s = decode_loop [] s []
