-- ===== src/Common/Hex/Tests.antt =====
-- A run of the digits.
use kyrin_box.Prelude.{◌≡◌, refl, text, [], ◌∷◌}
use kyrin_box.Common.Hex.{string_to_hex, digit_of}

digits : string_to_hex (0 ∷ 171 ∷ 255 ∷ []) ≡ text "00abff"
unfolding string_to_hex digit_of
digits = refl
