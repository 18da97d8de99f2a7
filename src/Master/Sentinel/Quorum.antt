-- ===== src/Master/Sentinel/Quorum.antt =====
-- A leader has a majority of the ballots, and two majorities share a ballot.
use kyrin_box.Prelude.{
  ℕ, zero, suc, ◌+◌, ◌*◌, ◌/◌, ◌≤◌, ◌<◌, ◌≡◌, ◌≢◌, refl, inl, inr, Option, none, some, List, ◌==◌,
  if◌then◌else◌, replicate, Option-cases, arith,
}
use kyrin_box.Master.Sentinel.{
  leader, follower, Sentinel, Poll, Ballots, ballot, tally, votes_of, pick, poll, elected, decide,
  settle, round,
}
use kyrin_box.Master.Sentinel.Tally.{ballots_for, votes_of-tally, pick-chosen}
use native.Mathlib.Decide.{ℕ_discrete}

-- More than half of the masters' ballots name this master.
pub record Majority (master_count : ℕ) (b : Ballots) (id : ℕ) : Type 0 where
  pub from_one : 1 ≤ id
  pub in_range : id ≤ master_count
  pub most : master_count < 2 * ballots_for b id master_count 1

-- Nobody's ballot reads differently in the two collections.
abbrev pub Agree : Ballots → Ballots → Type 0
Agree b b' = (j v w : ℕ) → ballot b j ≡ some v → ballot b' j ≡ some w → v ≡ w

ballots_for-disjoint :
    (b b' : Ballots) (c d n i : ℕ)
    → Agree b b'
    → c ≢ d
    → ballots_for b c n i + ballots_for b' d n i ≤ n
unfolding ballots_for
ballots_for-disjoint b b' c d zero i a ne = omega arith
ballots_for-disjoint b b' c d (suc n) i a ne =
    let rest = ballots_for-disjoint b b' c d n (i + 1) a ne in
    elim (Option-cases (ballot b i)) [
      | inl e ↦ rw (e) (elim (Option-cases (ballot b' i)) [
        | inl e' ↦ rw e' (omega arith)
        | inr (w, e') ↦ rw e' (ground (arith, rest))
      ])
      | inr (v, e) ↦ rw (e) (elim (Option-cases (ballot b' i)) [
        | inl e' ↦ rw e' (ground (arith, rest))
        | inr (w, e') ↦ let same = a i v w e e' in rw e' (ground (arith, rest, same, ne))
      ])
    ]

-- Two masters with a majority of ballots that do not contradict one another are the same.
pub Majority-unique :
    (m : ℕ) (b b' : Ballots) (id id' : ℕ)
    → Agree b b'
    → Majority m b id
    → Majority m b' id'
    → id ≡ id'
Majority-unique m b b' id id' a p q = elim (ℕ_discrete id id') [
  | yes same ↦ same
  | no differ ↦ absurd (omega (arith, ballots_for-disjoint b b' id id' m 1 a differ))
]

pub votes_of-replicate : (n c : ℕ) → votes_of (replicate n 0) c ≡ 0
votes_of-replicate zero c = refl
votes_of-replicate (suc n) zero = refl
votes_of-replicate (suc n) (suc c) = votes_of-replicate n c

decide-elected :
    (kbid : ℕ) (s : Sentinel) (b : Ballots) (found : Option ℕ × Option ℕ) (s' : Sentinel) (id : ℕ)
    → decide kbid s b found ≡ elected s' id
    → (found.0 ≡ some id)
      × (s'.leader_id ≡ id)
      × (s'.epoch ≡ s.epoch)
      × (s'.status ≡ (if id == kbid then leader else follower))
unfolding decide
decide-elected kbid s b (chosen, none) s' id h = absurd (ground arith)
decide-elected kbid s b (none, some c) s' id h = absurd (ground arith)
decide-elected kbid s b (some x, some c) s' id h = ground arith

pub settle-elected :
    (kbid m : ℕ) (s : Sentinel) (b : Ballots) (s' : Sentinel) (id : ℕ)
    → settle kbid m (s, b) ≡ elected s' id
    → Majority m b id
      × (s'.leader_id ≡ id)
      × (s'.epoch ≡ s.epoch)
      × (s'.status ≡ (if id == kbid then leader else follower))
unfolding settle
settle-elected kbid m s b s' id h = elim (Option-cases (tally b m 1 (replicate (m + 1) 0))) [
  | inl out ↦ absurd (ground arith)
  | inr (r, counted) ↦
      let decided = rw (counted, settle) at h in
      let (chosen, lead, epoch, status) =
        decide-elected kbid s b (pick m r m 1 (none, none)) s' id decided in
      let votes = votes_of-tally b m 1 (replicate (m + 1) 0) r id counted in
      let none_yet = votes_of-replicate (m + 1) id in
      let found = pick-chosen m r m 1 none none id chosen in
      (
        majority r (elim found [ inl e ↦ absurd (ground arith) | inr p ↦ p ]) (omega arith),
        lead,
        epoch,
        status,
      )
]
  where
    majority :
        (r : List ℕ)
        → (1 ≤ id) × (id < 1 + m) × (m / 2 + 1 ≤ votes_of r id)
        → votes_of r id ≡ ballots_for b id m 1
        → Majority m b id
    majority r (lo, hi, most) e = record {
      from_one = lo;
      in_range = omega arith;
      most = omega arith;
    }

-- Two masters that elect leaders in rounds whose ballots do not contradict one another elect the
-- same leader.
pub round-agrees :
    (m kbid kbid' : ℕ) (env env' : ℕ → Poll) (s s' t t' : Sentinel) (b b' : Ballots) (id id' : ℕ)
    → round kbid m env s b ≡ elected t id
    → round kbid' m env' s' b' ≡ elected t' id'
    → Agree (poll kbid m 1 env s b).1 (poll kbid' m 1 env' s' b').1
    → id ≡ id'
unfolding round
round-agrees m kbid kbid' env env' s s' t t' b b' id id' h h' a =
    let (s1, b1) = poll kbid m 1 env s b in
    let (s2, b2) = poll kbid' m 1 env' s' b' in
    Majority-unique m b1 b2 id id' a (settle-elected kbid m s1 b1 t id h).0
      (settle-elected kbid' m s2 b2 t' id' h').0
