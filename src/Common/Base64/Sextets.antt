-- ===== src/Common/Base64/Sextets.antt =====
-- The alphabet and the bit operations, as arithmetic.
use kyrin_box.Prelude.{
  ℕ, ◌/◌, ◌%◌, ◌<◌, ◌≡◌, refl, bit_and, Bool, true, not, ◌&&◌, ◌==◌, ==_iff, all_below,
  all_below_sound, arith,
}
use kyrin_box.Common.Base64.{char_of, sextet_of, is_base64}

accepted_table : all_below 64 (λ n. not (char_of n == b'=') && is_base64 (char_of n)) ≡ true
unfolding all_below char_of is_base64
accepted_table = refl

pub char_of_accepted : (n : ℕ) → n < 64 → (not (char_of n == b'=') && is_base64 (char_of n)) ≡ true
char_of_accepted n h =
    all_below_sound 64 (λ n. not (char_of n == b'=') && is_base64 (char_of n)) n accepted_table h

sextet_table : all_below 64 (λ n. sextet_of (char_of n) == n) ≡ true
unfolding all_below char_of sextet_of
sextet_table = refl

pub sextet_of-char_of : (n : ℕ) → n < 64 → sextet_of (char_of n) ≡ n
sextet_of-char_of n h = (==_iff _ n).0 (all_below_sound 64 _ n sextet_table h)

-- The masks that the code uses, as divisions and remainders.
abbrev masks_hold : ℕ → Bool
masks_hold x =
    bit_and x 0xfc / 4 == x / 4
    && bit_and x 0x03 == x % 4
    && bit_and x 0xf0 / 16 == x / 16
    && bit_and x 0x0f == x % 16
    && bit_and x 0xc0 / 64 == x / 64
    && bit_and x 0x3f == x % 64
    && bit_and x 0x30 / 16 == x % 64 / 16
    && bit_and x 0x3c / 4 == x % 64 / 4

masks_table : all_below 256 masks_hold ≡ true
unfolding all_below
masks_table = refl

pub record Masks (x : ℕ) : Type 0 where
  pub fc : bit_and x 0xfc / 4 ≡ x / 4
  pub l03 : bit_and x 0x03 ≡ x % 4
  pub f0 : bit_and x 0xf0 / 16 ≡ x / 16
  pub l0f : bit_and x 0x0f ≡ x % 16
  pub c0 : bit_and x 0xc0 / 64 ≡ x / 64
  pub l3f : bit_and x 0x3f ≡ x % 64
  pub m30 : bit_and x 0x30 / 16 ≡ x % 64 / 16
  pub m3c : bit_and x 0x3c / 4 ≡ x % 64 / 4

pub masks : (x : ℕ) → x < 256 → Masks x
masks x h = ground (arith, all_below_sound 256 masks_hold x masks_table h)
