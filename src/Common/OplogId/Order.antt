-- ===== src/Common/OplogId/Order.antt =====
-- Ids as numbers: what `add_one` does to the number, and the byte order in which the log is kept.
use kyrin_box.Prelude.{
  ℕ, zero, suc, ◌+◌, ◌*◌, ◌<◌, ◌^◌, ◌≡◌, ◌∙◌, refl, Bool, true, false, Option, none, some, [], ◌∷◌,
  ◌⊎◌, inl, inr, Bytes, ltb, ◌==◌, ◌&&◌, ◌||◌, length, All, Bool-cases, arith,
}
use kyrin_box.Common.OplogId.{get_zero, add_one}
use kyrin_box.Common.OplogId.Carry.{value_below, add_from-Counts}

-- An operation id: eight bytes.
abbrev pub IsId : Bytes → Type 0
IsId s = (length s ≡ 8) × All (λ c. c < 256) s

-- The bytes as a number, most significant first, behind what was read.
abbrev pub value_from : ℕ → Bytes → ℕ
value_from acc [] = acc
value_from acc (c ∷ s) = value_from (acc * 256 + c) s

abbrev pub value : Bytes → ℕ
value = value_from 0

-- The bytewise order of the log's keys.
pub lex_lt : Bytes → Bytes → Bool
lex_lt [] [] = false
lex_lt [] (d ∷ t) = true
lex_lt (c ∷ s) [] = false
lex_lt (c ∷ s) (d ∷ t) = ltb c d || ((c == d) && lex_lt s t)

value_below-value : (s : Bytes) → length s ≡ 8 → value_below 8 s ≡ value s
unfolding value_below
value_below-value (a ∷ b ∷ c ∷ d ∷ e ∷ f ∷ g ∷ h ∷ []) p = omega arith
value_below-value (a ∷ b ∷ c ∷ d ∷ e ∷ f ∷ g ∷ h ∷ i ∷ s) p = absurd (omega arith)
value_below-value s p = absurd (omega arith)

pub value_bound : (s : Bytes) → IsId s → value s < 2 ^ 64
value_bound (a ∷ b ∷ c ∷ d ∷ e ∷ f ∷ g ∷ h ∷ []) p = omega arith
value_bound (a ∷ b ∷ c ∷ d ∷ e ∷ f ∷ g ∷ h ∷ i ∷ s) p = absurd (omega arith)
value_bound s p = absurd (omega arith)

-- On an id the call succeeds with an id. The flag is true, and the number is one more, unless the
-- id is the last of the 2 ^ 64: then the flag is false and the number is 0.
pub add_one-value :
    (s : Bytes)
    → IsId s
    → (t : Bytes) × (b : Bool) × (add_one s ≡ some (t, b))
      × IsId t
      × ((b ≡ true) × (value t ≡ value s + 1)
          ⊎ (b ≡ false) × (value s + 1 ≡ 2 ^ 64) × (value t ≡ 0))
unfolding add_one
add_one-value s (p, a) =
    let (t, b, runs, counts) = add_from-Counts 8 s (omega arith) a in
    let id : IsId t = (counts.same_length ∙ p, counts.bytes) in
    (
      t,
      b,
      runs,
      id,
      elim (Bool-cases b) [
        | inl yes' ↦
            inl (yes', ground (arith, counts.sum, value_below-value s p, value_below-value t id.0))
        | inr no' ↦ inr (
          no',
          ground (
            arith,
            counts.sum,
            value_below-value s p,
            value_below-value t id.0,
            value_bound s (p, a),
          ),
          ground (
            arith,
            counts.sum,
            value_below-value s p,
            value_below-value t id.0,
            value_bound s (p, a),
          ),
        )
      ],
    )

value_from-lt :
    (s t : Bytes) (m n : ℕ)
    → length s ≡ length t
    → All (λ c. c < 256) s
    → m < n
    → value_from m s < value_from n t
value_from-lt [] [] m n p a h = h
value_from-lt [] (d ∷ t) m n p a h = absurd (omega arith)
value_from-lt (c ∷ s) [] m n p a h = absurd (omega arith)
value_from-lt (c ∷ s) (d ∷ t) m n p a h =
    value_from-lt s t (m * 256 + c) (n * 256 + d) (omega arith) a.1 (omega arith)

lex_lt-value_from :
    (s t : Bytes) (n : ℕ)
    → length s ≡ length t
    → All (λ c. c < 256) s
    → All (λ c. c < 256) t
    → lex_lt s t ≡ ltb (value_from n s) (value_from n t)
unfolding lex_lt
lex_lt-value_from [] [] n p a b = ground arith
lex_lt-value_from [] (d ∷ t) n p a b = absurd (omega arith)
lex_lt-value_from (c ∷ s) [] n p a b = absurd (omega arith)
lex_lt-value_from (c ∷ s) (d ∷ t) n p a b = ground (
  arith,
  value_from-lt s t (n * 256 + c) (n * 256 + d) (omega arith) a.1,
  value_from-lt t s (n * 256 + d) (n * 256 + c) (omega arith) b.1,
  lex_lt-value_from s t (n * 256 + c) (omega arith) a.1 b.1,
)

-- On ids the bytewise order of the keys is the order of their numbers.
pub lex_lt-value : (s t : Bytes) → IsId s → IsId t → lex_lt s t ≡ ltb (value s) (value t)
lex_lt-value s t (p, a) (q, b) = lex_lt-value_from s t 0 (omega arith) a b

add_one_next :
    (s t : Bytes) → IsId s → add_one s ≡ some (t, true) → IsId t × (value t ≡ value s + 1)
add_one_next s t i e =
    let (t', b, runs, id, next) = add_one-value s i in
    let same : t' ≡ t = ground (arith, runs) in
    let flag : b ≡ true = ground (arith, runs) in (rw (← same) id, ground (arith, next, flag))

-- Until the ids run out, the next id comes behind the old one in the order of the keys, and no id
-- lies between them.
pub add_one-adjacent :
    (s t u : Bytes)
    → IsId s
    → IsId u
    → add_one s ≡ some (t, true)
    → (lex_lt s t ≡ true) × ((lex_lt s u && lex_lt u t) ≡ false)
add_one-adjacent s t u i k e =
    let (j, v) = add_one_next s t i e in
    rw (lex_lt-value s t i j, lex_lt-value s u i k, lex_lt-value u t k j) (ground arith)

-- The id that the log's entry number `n` has: `get_zero`, then `add_one` again and again.
pub nth_id : ℕ → Option Bytes
nth_id zero = some get_zero
nth_id (suc n) = elim (nth_id n) [
  | none ↦ none
  | some s ↦ elim (add_one s) [ none ↦ none | some (t, b) ↦ some t ]
]

-- For n below 2 ^ 64, n steps from the first id lead to the id whose number is n.
pub nth_id-value : (n : ℕ) → n < 2 ^ 64 → (s : Bytes) × (nth_id n ≡ some s) × IsId s × (value s ≡ n)
unfolding nth_id get_zero
nth_id-value zero h = (get_zero, refl, omega arith, refl)
nth_id-value (suc n) h =
    let (s, e, i, v) = nth_id-value n (omega arith) in
    let (t, b, runs, id, next) = add_one-value s i in (t, rw (e, nth_id, runs), id, ground arith)
