-- ===== src/Common/OplogId/Carry.antt =====
-- The carry loop of `add_one`, round by round.
use native.Mathlib.Nat.{pow-suc}
use kyrin_box.Prelude.{
  ℕ, zero, suc, ◌+◌, ◌*◌, ◌%◌, ◌≤◌, ◌<◌, ◌^◌, ◌≡◌, ◌∙◌, refl, Bool, true, false, some, inl, inr,
  Bytes, ◌==◌, if◌then◌else◌, length, get_elem?, set, All, All-set, All-get_elem?, get_elem?_total,
  length-set, get_elem?-set_self, get_elem?-set_ne, Bool-cases, or_zero, arith,
}
use kyrin_box.Common.OplogId.{add_from, widen}

widen_lem : (c : ℕ) → c < 256 → (widen c == 0xffff_ffff) ≡ (c == 255)
unfolding widen
widen_lem c h = ground arith

-- The first `n` bytes as a number, by their positions.
abbrev pub digit : Bytes → ℕ → ℕ
digit s i = or_zero (get_elem? s i)

unfoldable pub value_below : ℕ → Bytes → ℕ
value_below zero s = 0
value_below (suc i) s = value_below i s * 256 + digit s i

value_below-set : (n i v : ℕ) (s : Bytes) → n ≤ i → value_below n (set s i v) ≡ value_below n s
unfolding value_below
value_below-set zero i v s h = refl
value_below-set (suc n) i v s h =
    rw (value_below-set n i v s (omega arith), get_elem?-set_ne s {i = i} {j = n} v (omega arith))

-- What a run of the loop over the first `n` bytes does to their number.
pub record Counts (n : ℕ) (s t : Bytes) (b : Bool) : Type 0 where
  pub same_length : length t ≡ length s
  pub bytes : All (λ c. c < 256) t
  pub sum : value_below n t + (if b then 0 else 256 ^ n) ≡ value_below n s + 1
  pub above : (j : ℕ) → n ≤ j → get_elem? t j ≡ get_elem? s j

-- A full last byte is zeroed, and the carry goes on to the left of it.
Counts-carry :
    (i : ℕ) (s t : Bytes) (b : Bool)
    → i < length s
    → get_elem? s i ≡ some 255
    → Counts i (set s i 0) t b
    → Counts (suc i) s t b
unfolding value_below
Counts-carry i s t b h e r = record {
  same_length = r.same_length ∙ length-set s i 0;
  bytes = r.bytes;
  sum =
      let last : get_elem? t i ≡ some 0 = r.above i (omega arith) ∙ get_elem?-set_self s i 0 h in
      rw (last, e) (ground (arith, r.sum, value_below-set i i 0 s (omega arith), pow-suc 256 i));
  above = λ j k. r.above j (omega arith) ∙ get_elem?-set_ne s {i = i} {j = j} 0 (omega arith);
}

-- A last byte with room is counted up.
Counts-here :
    (i c : ℕ) (s : Bytes)
    → i < length s
    → All (λ c. c < 256) s
    → get_elem? s i ≡ some c
    → (c == 255) ≡ false
    → Counts (suc i) s (set s i ((c + 1) % 256)) true
unfolding value_below
Counts-here i c s h a e room =
    let d = (c + 1) % 256 in
    let small : c < 256 = All-get_elem? (λ c. c < 256) s i a e in
    record {
      same_length = length-set s i d;
      bytes = All-set (λ c. c < 256) s i d a (omega arith);
      sum =
          rw (value_below-set i i d s (omega arith), get_elem?-set_self s i d h, e) (ground arith);
      above = λ j k. get_elem?-set_ne s {i = i} {j = j} d (omega arith);
    }

pub add_from-Counts :
    (n : ℕ) (s : Bytes)
    → n ≤ length s
    → All (λ c. c < 256) s
    → (t : Bytes) × (b : Bool) × (add_from n s ≡ some (t, b)) × Counts n s t b
unfolding add_from value_below
add_from-Counts zero s h a = (
  s,
  false,
  refl,
  record { same_length = refl; bytes = a; sum = omega arith; above = λ j k. refl },
)
add_from-Counts (suc i) s h a =
    let (c, e) = get_elem?_total s i h in
    let small : c < 256 = All-get_elem? (λ c. c < 256) s i a e in
    let (t, b, runs, counts) =
      add_from-Counts i (set s i 0) (omega (arith, length-set s i 0))
        (All-set (λ c. c < 256) s i 0 a (omega arith)) in
    elim (Bool-cases (c == 255)) [
      | inl full ↦ (
        t,
        b,
        rw (e, add_from, widen_lem c small, full) runs,
        Counts-carry i s t b h (rw e (ground arith)) counts,
      )
      | inr room ↦ (
        set s i ((c + 1) % 256),
        true,
        rw (e, add_from, widen_lem c small, room),
        Counts-here i c s h a e room,
      )
    ]
