-- ===== src/Common/Hex/RoundTrip.antt =====
-- The digits determine the bytes.
use kyrin_box.Prelude.{
  ℕ, ◌+◌, ◌-◌, ◌*◌, ◌/◌, ◌<◌, ◌≡◌, refl, ap₂, [], ◌∷◌, Bytes, length, All, ltb, true, ◌==◌, ==_iff,
  if◌then◌else◌, all_below, all_below_sound, bit_and, arith,
}
use kyrin_box.Common.Hex.{digit_of, string_to_hex}

-- The value of a digit, and the bytes of a string of digits.
abbrev digit_value : ℕ → ℕ
digit_value c = if ltb c b'a' then c - b'0' else c - b'a' + 10

abbrev pub of_hex : Bytes → Bytes
of_hex (c ∷ d ∷ s) = (digit_value c * 16 + digit_value d) ∷ of_hex s
of_hex _ = []

digits_table :
    all_below 256
      (λ c. digit_value (digit_of (c / 16)) * 16 + digit_value (digit_of (bit_and c 15)) == c)
    ≡ true
unfolding all_below digit_of
digits_table = refl

-- Reading the digits gives the bytes back, so the text of a digest determines the digest; there
-- are two digits for each byte.
pub of_hex-string_to_hex :
    (s : Bytes)
    → All (λ c. c < 256) s
    → (of_hex (string_to_hex s) ≡ s) × (length (string_to_hex s) ≡ 2 * length s)
unfolding string_to_hex
of_hex-string_to_hex [] h = (refl, refl)
of_hex-string_to_hex (c ∷ s) h =
    let (same, size) = of_hex-string_to_hex s h.1 in
    (ap₂ ◌∷◌ ((==_iff _ c).0 (all_below_sound 256 _ c digits_table h.0)) same, omega arith)
