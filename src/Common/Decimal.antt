-- ===== src/Common/Decimal.antt =====
-- `sprintf` and `sscanf` of unsigned integers, as the servers use them for ports, for the hosts of
-- a file and for the vote ticket of server/master/kyrin_master_sentinel.cc.
mod Tests
pub mod RoundTrip
use kyrin_box.Prelude.{
  ℕ, zero, suc, ◌+◌, ◌-◌, ◌*◌, ◌/◌, ◌%◌, ◌^◌, Bool, true, false, ◌&&◌, ◌||◌, Option, none, some, [],
  ◌∷◌, ◌++◌, Bytes, ltb, leb, ◌==◌, if◌then◌else◌, text,
}

-- The digits of `n`, of which there are at most `fuel`: 20 are enough below 2 ^ 64.
pub digits_fuel : ℕ → ℕ → Bytes
digits_fuel zero n = []
digits_fuel (suc fuel) n =
    (if ltb n 10 then [] else digits_fuel fuel (n / 10)) ++ ((b'0' + n % 10) ∷ [])

-- `%llu` and `%u`
pub print_u64 : ℕ → Bytes
unfolding digits_fuel
print_u64 n = digits_fuel 20 n

unfoldable pub is_space : ℕ → Bool
is_space c = c == b' ' || (leb 9 c && leb c 13)

unfoldable pub is_digit : ℕ → Bool
is_digit c = leb b'0' c && leb c b'9'

pub skip_spaces : Bytes → Bytes
skip_spaces [] = []
skip_spaces (c ∷ s) = let rest = skip_spaces s in if is_space c then rest else c ∷ s

-- The value of the leading digits behind `acc`, and what follows them.
unfoldable pub scan_digits : ℕ → Bytes → ℕ × Bytes
scan_digits acc [] = (acc, [])
scan_digits acc (c ∷ s) =
    let rest = scan_digits (acc * 10 + (c - b'0')) s in if is_digit c then rest else (acc, c ∷ s)

abbrev pub saturate : ℕ → ℕ
saturate n = if ltb n (2 ^ 64) then n else 2 ^ 64 - 1

-- A number needs a digit; what overflows gives the greatest value, and a minus sign negates.
pub scan_unsigned : Bool → Bytes → Option (ℕ × Bytes)
scan_unsigned minus [] = none
scan_unsigned minus (c ∷ s) =
    let (n, rest) = scan_digits 0 (c ∷ s) in
    let value =
      if minus
      then (if ltb n (2 ^ 64) then (2 ^ 64 - n) % 2 ^ 64 else 2 ^ 64 - 1)
      else saturate n in
    if is_digit c then some (value, rest) else none

-- `%llu`
pub scan_signed : Bytes → Option (ℕ × Bytes)
unfolding scan_unsigned
scan_signed [] = none
scan_signed (c ∷ s) =
    if c == b'-'
    then scan_unsigned true s
    else if c == b'+'
    then scan_unsigned false s
    else scan_unsigned false (c ∷ s)

unfoldable pub scan_u64 : Bytes → Option (ℕ × Bytes)
unfolding scan_signed skip_spaces
scan_u64 s = scan_signed (skip_spaces s)

-- `sprintf(msg, "%llu %llu", epoch, vote)`
unfoldable pub print_ticket : ℕ → ℕ → Bytes
unfolding print_u64
print_ticket epoch vote = print_u64 epoch ++ (b' ' ∷ print_u64 vote)

-- `sscanf(s, "%llu %llu", &epoch, &vote)`: a variable that is not reached keeps what it held.
unfoldable pub scan_ticket : ℕ × ℕ → Bytes → ℕ × ℕ
scan_ticket (epoch, vote) s = elim (scan_u64 s) [
  | none ↦ (epoch, vote)
  | some (e, rest) ↦ elim (scan_u64 rest) [ none ↦ (e, vote) | some (v, _) ↦ (e, v) ]
]
