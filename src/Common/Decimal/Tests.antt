-- ===== src/Common/Decimal/Tests.antt =====
-- A run of the ticket's text.
use kyrin_box.Prelude.{◌≡◌, refl, text}
use kyrin_box.Common.Decimal.{scan_ticket, scan_u64, is_space, is_digit, scan_digits}

half : scan_ticket (7, 8) (text "12 x") ≡ (12, 8)
unfolding scan_ticket scan_u64 is_space is_digit scan_digits
half = refl
