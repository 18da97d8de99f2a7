-- ===== src/Common/Decimal/RoundTrip.antt =====
-- What is printed is read back.
use kyrin_box.Prelude.{
  ℕ, zero, suc, ◌+◌, ◌-◌, ◌*◌, ◌/◌, ◌%◌, ◌^◌, ◌≤◌, ◌<◌, ◌≡◌, ◌∙◌, refl, true, false, some, [], ◌∷◌,
  ◌++◌, Bytes, ltb, ◌==◌, arith, Bool-cases, inl, inr, sym, ap,
}
use kyrin_box.Common.Decimal.{
  digits_fuel, print_u64, is_space, is_digit, scan_digits, saturate, scan_unsigned, scan_u64,
  print_ticket, scan_ticket,
}
use native.Mathlib.Nat.{pow-suc}
use mathlib.Core.List.{append_assoc, append-nil}

-- A text whose first character, if there is one, is no digit.
abbrev Ends : Bytes → Type 0
Ends [] = Unit {0}
Ends (c ∷ s) = is_digit c ≡ false

scan_digits_end : (n : ℕ) (s : Bytes) → Ends s → scan_digits n s ≡ (n, s)
unfolding scan_digits
scan_digits_end n [] h = refl
scan_digits_end n (c ∷ s) h = ground arith

scan_digits_step :
    (acc d : ℕ) (s : Bytes)
    → d < 10
    → scan_digits acc ((b'0' + d) ∷ s) ≡ scan_digits (acc * 10 + d) s
unfolding scan_digits
scan_digits_step acc d s h =
    let e : b'0' + d - b'0' ≡ d = omega arith in
    let digit : is_digit (b'0' + d) ≡ true = unfold is_digit in ground arith in rw (digit, e)

scan_digits-digits_fuel :
    (fuel n : ℕ) (s : Bytes)
    → n < 10 ^ fuel
    → 0 < fuel
    → scan_digits 0 (digits_fuel fuel n ++ s) ≡ scan_digits n s
unfolding digits_fuel
scan_digits-digits_fuel zero n s h p = absurd (omega arith)
scan_digits-digits_fuel (suc fuel) n s h p = elim (Bool-cases (ltb n 10)) [
  | inl small ↦ rw small (
      let e : 0 * 10 + n % 10 ≡ n = ground arith in
      rw (scan_digits_step 0 (n % 10) s (omega arith), e))
  | inr big ↦
      let e : n / 10 * 10 + n % 10 ≡ n = omega arith in
      let room : n / 10 < 10 ^ fuel = ground (arith, pow-suc 10 fuel) in
      let more : 0 < fuel = positive fuel n h (ground arith) in
      rw big (
        rw (
          append_assoc (digits_fuel fuel (n / 10)) ((b'0' + n % 10) ∷ []) s,
          scan_digits-digits_fuel fuel (n / 10) ((b'0' + n % 10) ∷ s) room more,
          scan_digits_step (n / 10) (n % 10) s (omega arith),
          e,
        ))
]
  where
    positive : (fuel n : ℕ) → n < 10 ^ suc fuel → 10 ≤ n → 0 < fuel
    positive zero n h k = absurd (omega arith)
    positive (suc fuel) n h k = omega arith

-- A printed number starts with a digit.
digits_fuel-cons :
    (fuel n : ℕ) → (c : ℕ) × (t : Bytes) × (digits_fuel (suc fuel) n ≡ c ∷ t) × (is_digit c ≡ true)
unfolding digits_fuel
digits_fuel-cons zero n = (b'0' + n % 10, [], ground arith, unfold is_digit in ground arith)
digits_fuel-cons (suc fuel) n =
    let (c, t, e, d) = digits_fuel-cons fuel (n / 10) in
    elim (Bool-cases (ltb n 10)) [
      | inl small ↦ (b'0' + n % 10, [], rw small, unfold is_digit in ground arith)
      | inr big ↦ (
        c,
        t ++ ((b'0' + n % 10) ∷ []),
        rw big (ap (λ (l : Bytes). l ++ ((b'0' + n % 10) ∷ [])) e),
        d,
      )
    ]

digit_plain :
    (c : ℕ)
    → is_digit c ≡ true
    → (is_space c ≡ false) × ((c == b'-') ≡ false) × ((c == b'+') ≡ false)
unfolding is_digit is_space
digit_plain c d = ground arith

scan_u64-digit :
    (c : ℕ) (t : Bytes)
    → is_digit c ≡ true
    → scan_u64 (c ∷ t) ≡ some (saturate (scan_digits 0 (c ∷ t)).0, (scan_digits 0 (c ∷ t)).1)
unfolding scan_u64 scan_unsigned
scan_u64-digit c t d = let (space, minus, plus) = digit_plain c d in rw (space, minus, plus, d)

-- Reading a printed number gives it back, with what follows it, if that does not go on with a digit.
pub scan_u64-print_u64 :
    (n : ℕ) (s : Bytes) → n < 2 ^ 64 → Ends s → scan_u64 (print_u64 n ++ s) ≡ some (n, s)
unfolding print_u64
scan_u64-print_u64 n s h ends =
    let (c, t, e, d) = digits_fuel-cons 19 n in
    let scanned =
      scan_digits-digits_fuel 20 n s (omega arith) (omega arith) ∙ scan_digits_end n s ends in
    let same : scan_digits 0 (c ∷ (t ++ s)) ≡ (n, s) = rw e at scanned in
    rw e (scan_u64-digit c (t ++ s) d ∙ rw same (ground arith))

scan_u64-space : (s : Bytes) → scan_u64 (b' ' ∷ s) ≡ scan_u64 s
unfolding scan_u64 is_space
scan_u64-space s = refl

-- A vote ticket of 64-bit numbers is read back as it was written, whatever the variables held.
pub scan_ticket-print_ticket :
    (epoch vote : ℕ) (old : ℕ × ℕ)
    → epoch < 2 ^ 64
    → vote < 2 ^ 64
    → scan_ticket old (print_ticket epoch vote) ≡ (epoch, vote)
unfolding scan_ticket print_ticket
scan_ticket-print_ticket epoch vote (e, v) he hv =
    let second = scan_u64-print_u64 vote [] hv tt in
    let spaced =
      scan_u64-space (print_u64 vote) ∙ ap scan_u64 (sym (append-nil (print_u64 vote))) in
    let ends : Ends (b' ' ∷ print_u64 vote) = unfold is_digit in refl in
    rw (scan_u64-print_u64 epoch (b' ' ∷ print_u64 vote) he ends, scan_ticket, spaced, second)

pub print_ticket-cons : (epoch vote : ℕ) → (c : ℕ) × (t : Bytes) × (print_ticket epoch vote ≡ c ∷ t)
unfolding print_ticket
print_ticket-cons epoch vote = append-cons (print_u64 epoch)
  where
    append-cons : (l : Bytes) → (c : ℕ) × (t : Bytes) × (l ++ (b' ' ∷ print_u64 vote) ≡ c ∷ t)
    append-cons [] = (b' ', print_u64 vote, refl)
    append-cons (c ∷ t) = (c, t ++ (b' ' ∷ print_u64 vote), refl)
