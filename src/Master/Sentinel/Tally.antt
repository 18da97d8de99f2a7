-- ===== src/Master/Sentinel/Tally.antt =====
-- What the counting loops compute: for each kbid the number of ballots that name it.
use kyrin_box.Prelude.{
  ℕ, zero, suc, ◌+◌, ◌/◌, ◌≤◌, ◌<◌, ◌≡◌, ◌∙◌, refl, ◌⊎◌, inl, inr, Option, none, some, List, [],
  ◌∷◌, leb, ◌==◌, if◌then◌else◌, length, get_elem?, set, length-set, get_elem?_total, Option-cases,
  arith,
}
use kyrin_box.Master.Sentinel.{Ballots, ballot, count_ballot, tally, votes_of, pick}

abbrev pub counts_for : ℕ → Option ℕ → ℕ
counts_for c none = 0
counts_for c (some v) = if v == c then 1 else 0

-- The ballots of the masters `i` to `i + n - 1` that name `c`.
unfoldable pub ballots_for : Ballots → ℕ → ℕ → ℕ → ℕ
ballots_for b c zero i = 0
ballots_for b c (suc n) i = counts_for c (ballot b i) + ballots_for b c n (i + 1)

votes_of-set :
    (result : List ℕ) (v c x : ℕ)
    → get_elem? result v ≡ some x
    → votes_of (set result v (x + 1)) c ≡ votes_of result c + (if v == c then 1 else 0)
votes_of-set [] v c x h = cc
votes_of-set (y ∷ result) zero zero x h = ground arith
votes_of-set (y ∷ result) zero (suc c) x h = ground arith
votes_of-set (y ∷ result) (suc v) zero x h = ground arith
votes_of-set (y ∷ result) (suc v) (suc c) x h = ground (arith, votes_of-set result v c x h)

length-count_ballot :
    (o : Option ℕ) (result r : List ℕ) → count_ballot o result ≡ some r → length r ≡ length result
unfolding count_ballot
length-count_ballot none result r h = ground arith
length-count_ballot (some v) result r h = elim (Option-cases (get_elem? result v)) [
  | inl out ↦ absurd (ground arith)
  | inr (x, at) ↦ ground (arith, length-set result v (x + 1))
]

votes_of-count_ballot :
    (o : Option ℕ) (result r : List ℕ) (c : ℕ)
    → count_ballot o result ≡ some r
    → votes_of r c ≡ votes_of result c + counts_for c o
unfolding count_ballot
votes_of-count_ballot none result r c h = ground arith
votes_of-count_ballot (some v) result r c h = elim (Option-cases (get_elem? result v)) [
  | inl out ↦ absurd (ground arith)
  | inr (x, at) ↦ ground (arith, votes_of-set result v c x at)
]

pub length-tally :
    (b : Ballots) (n i : ℕ) (result r : List ℕ)
    → tally b n i result ≡ some r
    → length r ≡ length result
unfolding tally
length-tally b zero i result r h = ground arith
length-tally b (suc n) i result r h = elim (Option-cases (count_ballot (ballot b i) result)) [
  | inl out ↦ absurd (ground arith)
  | inr (q, counted) ↦
      length-tally b n (i + 1) q r (rw (counted, tally) at h)
      ∙ length-count_ballot (ballot b i) result q counted
]

pub votes_of-tally :
    (b : Ballots) (n i : ℕ) (result r : List ℕ) (c : ℕ)
    → tally b n i result ≡ some r
    → votes_of r c ≡ votes_of result c + ballots_for b c n i
unfolding tally ballots_for
votes_of-tally b zero i result r c h = ground arith
votes_of-tally b (suc n) i result r c h = elim (Option-cases (count_ballot (ballot b i) result)) [
  | inl out ↦ absurd (ground arith)
  | inr (q, counted) ↦ omega (
    arith,
    votes_of-tally b n (i + 1) q r c (rw (counted, tally) at h),
    votes_of-count_ballot (ballot b i) result q c counted,
  )
]

-- The vectors are as long as the code makes them, and no counted ballot names a kbid above it.
abbrev pub InRange : ℕ → Ballots → Type 0
InRange m b = (j v : ℕ) → ballot b j ≡ some v → v < m

pub tally_total :
    (b : Ballots) (n i : ℕ) (result : List ℕ)
    → InRange (length result) b
    → (r : List ℕ) × (tally b n i result ≡ some r)
unfolding tally count_ballot
tally_total b zero i result h = (result, refl)
tally_total b (suc n) i result h = elim (Option-cases (ballot b i)) [
  | inl empty ↦ rw (empty, tally, count_ballot) (tally_total b n (i + 1) result h)
  | inr (v, full) ↦
      let (x, at) = get_elem?_total result v (h i v full) in
      rw (full, tally, count_ballot, at)
        (tally_total b n (i + 1) (set result v (x + 1))
          (λ j w e. rw (length-set result v (x + 1)) (h j w e)))
]

-- The loop that looks for the leader.
pub pick-chosen :
    (m : ℕ) (r : List ℕ) (n i : ℕ) (chosen candidate : Option ℕ) (id : ℕ)
    → (pick m r n i (chosen, candidate)).0 ≡ some id
    → (chosen ≡ some id) ⊎ (i ≤ id) × (id < i + n) × (m / 2 + 1 ≤ votes_of r id)
unfolding pick
pick-chosen m r zero i chosen candidate id h = inl h
pick-chosen m r (suc n) i chosen candidate id h =
    let later =
      pick-chosen m r n (i + 1) (if leb (m / 2 + 1) (votes_of r i) then some i else chosen)
        (if votes_of r i == 0 then candidate else some i) id h in
    ground (arith, later)
