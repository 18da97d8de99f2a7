-- ===== src/Master/Sentinel/Election.antt =====
-- How many rounds an election takes where all the masters answer in one epoch.
use kyrin_box.Prelude.{
  ℕ, zero, suc, ◌+◌, ◌/◌, ◌≤◌, ◌<◌, ◌≡◌, ◌≢◌, ◌∙◌, refl, sym, inl, inr, ◌⊎◌, ◌&&◌, Option, none,
  some, List, leb, ltb, ◌==◌, if◌then◌else◌, replicate, arith, Bool-cases,
}
use native.Mathlib.Decide.{ℕ_discrete}
use kyrin_box.Master.Sentinel.{
  leader, follower, Sentinel, Ballots, ballot, tally, votes_of, pick, elected, again, decide,
  settle,
}
use kyrin_box.Master.Sentinel.Tally.{ballots_for, votes_of-tally, tally_total, InRange}
use kyrin_box.Master.Sentinel.Quorum.{Majority, Majority-unique, votes_of-replicate}
use kyrin_box.Master.Sentinel.Rounds.{length-replicate}

pub ballots_for_one :
    (b : Ballots) (c n i : ℕ)
    → ((j : ℕ) → i ≤ j → j < i + n → ballot b j ≡ some c)
    → ballots_for b c n i ≡ n
unfolding ballots_for
ballots_for_one b c zero i h = refl
ballots_for_one b c (suc n) i h =
    let rest = ballots_for_one b c n (i + 1) (λ j lo hi. h j (omega arith) (omega arith)) in
    rw (h i (omega arith) (omega arith)) (ground (arith, rest))

ballots_for_each :
    (b : Ballots) (c n i : ℕ)
    → ((j : ℕ) → i ≤ j → j < i + n → ballot b j ≡ some j)
    → ballots_for b c n i ≡ (if leb i c && ltb c (i + n) then 1 else 0)
unfolding ballots_for
ballots_for_each b c zero i h = ground arith
ballots_for_each b c (suc n) i h =
    let rest = ballots_for_each b c n (i + 1) (λ j lo hi. h j (omega arith) (omega arith)) in
    rw (h i (omega arith) (omega arith)) (ground (arith, rest))

-- The loop that looks for the leader: the candidate, once there, stays.
pick-candidate :
    (m : ℕ) (r : List ℕ) (n i : ℕ) (chosen candidate : Option ℕ) (id : ℕ)
    → (i ≤ id) × (id < i + n) × (votes_of r id ≢ 0) ⊎ (candidate ≢ none)
    → (pick m r n i (chosen, candidate)).1 ≢ none
unfolding pick
pick-candidate m r zero i chosen candidate id h = ground arith
pick-candidate m r (suc n) i chosen candidate id h =
    pick-candidate m r n (i + 1) (if leb (m / 2 + 1) (votes_of r i) then some i else chosen)
      (if votes_of r i == 0 then candidate else some i) id (ground (arith, h))

pick-last :
    (m : ℕ) (r : List ℕ) (n i last : ℕ) (chosen candidate : Option ℕ)
    → last ≡ i + n
    → votes_of r last ≢ 0
    → (pick m r (suc n) i (chosen, candidate)).1 ≡ some last
unfolding pick
pick-last m r zero i last chosen candidate e h =
    let e' : last ≡ i = omega arith in rw (sym e') (ground (arith, h))
pick-last m r (suc n) i last chosen candidate e h =
    pick-last m r n (i + 1) last (if leb (m / 2 + 1) (votes_of r i) then some i else chosen)
      (if votes_of r i == 0 then candidate else some i) (omega arith) h

-- The leader is the one master whose votes reach the majority.
pick-only :
    (m : ℕ) (r : List ℕ) (n i : ℕ) (chosen candidate : Option ℕ) (id : ℕ)
    → ((j : ℕ) → i ≤ j → j < i + n → j ≢ id → votes_of r j < m / 2 + 1)
    → (i ≤ id) × (id < i + n) × (m / 2 + 1 ≤ votes_of r id) ⊎ (chosen ≡ some id)
    → (pick m r n i (chosen, candidate)).0 ≡ some id
unfolding pick
pick-only m r zero i chosen candidate id few h = ground arith
pick-only m r (suc n) i chosen candidate id few h =
    pick-only m r n (i + 1) (if leb (m / 2 + 1) (votes_of r i) then some i else chosen)
      (if votes_of r i == 0 then candidate else some i) id
      (λ j lo hi. few j (omega arith) (omega arith))
      (elim (ℕ_discrete i id) [
        | yes same ↦ ground (arith, h, same)
        | no differ ↦ let here = few i (omega arith) (omega arith) differ in ground (arith, h, here)
      ])

pick-few :
    (m : ℕ) (r : List ℕ) (n i : ℕ) (chosen candidate : Option ℕ)
    → ((j : ℕ) → i ≤ j → j < i + n → votes_of r j < m / 2 + 1)
    → (pick m r n i (chosen, candidate)).0 ≡ chosen
unfolding pick
pick-few m r zero i chosen candidate few = refl
pick-few m r (suc n) i chosen candidate few =
    let rest =
      pick-few m r n (i + 1) chosen (if votes_of r i == 0 then candidate else some i)
        (λ j lo hi. few j (omega arith) (omega arith)) in
    let here = few i (omega arith) (omega arith) in ground (arith, rest, here)

-- What the last two loops of a round see of the ballots.
counted :
    (m : ℕ) (b : Ballots)
    → InRange (m + 1) b
    → (r : List ℕ) × (tally b m 1 (replicate (m + 1) 0) ≡ some r)
      × ((c : ℕ) → votes_of r c ≡ ballots_for b c m 1)
counted m b h =
    let (r, e) =
      tally_total b m 1 (replicate (m + 1) 0) (rw (length-replicate {A = ℕ} (m + 1) 0) h) in
    (
      r,
      e,
      λ c.
          omega
            (arith, votes_of-tally b m 1 (replicate (m + 1) 0) r c e, votes_of-replicate (m + 1) c),
    )

decide_elects :
    (kbid : ℕ) (s : Sentinel) (b : Ballots) (found : Option ℕ × Option ℕ) (id : ℕ)
    → found.0 ≡ some id
    → found.1 ≢ none
    → decide kbid s b found
      ≡ elected (record s { leader_id = id; status = if id == kbid then leader else follower }) id
unfolding decide
decide_elects kbid s b (none, candidate) id e h = cc
decide_elects kbid s b (some x, none) id e h = absurd (h refl)
decide_elects kbid s b (some x, some c) id e h = ground arith

-- If more than half of the masters' ballots name a master, and the ballots name masters only, then
-- the round elects this master: it becomes the leader, and everyone else its follower.
pub settle-Majority :
    (kbid m : ℕ) (s : Sentinel) (b : Ballots) (id : ℕ)
    → InRange (m + 1) b
    → Majority m b id
    → settle kbid m (s, b)
      ≡ elected (record s { leader_id = id; status = if id == kbid then leader else follower }) id
unfolding settle
settle-Majority kbid m s b id h most =
    let (r, e, votes) = counted m b h in
    let enough : m / 2 + 1 ≤ votes_of r id = omega (arith, votes id, most.most) in
    let lo = most.from_one in
    let hi = most.in_range in
    let few : (j : ℕ) → 1 ≤ j → j < 1 + m → j ≢ id → votes_of r j < m / 2 + 1 = λ j lo' hi' differ.
      elim (Bool-cases (ltb (votes_of r j) (m / 2 + 1))) [
        | inl less ↦ ground (arith, less)
        | inr more ↦
            let other : Majority m b j = record {
              from_one = lo';
              in_range = omega arith;
              most = ground (arith, more, votes j);
            } in
            absurd
              (differ (Majority-unique m b b j id (λ i v w p q. ground (arith, p, q)) other most))
      ] in
    rw (e, settle)
      (decide_elects kbid s b (pick m r m 1 (none, none)) id
        (pick-only m r m 1 none none id few (inl (lo, omega arith, enough)))
        (pick-candidate m r m 1 none none id (inl (lo, omega arith, λ z. omega (arith, enough)))))

decide_again :
    (kbid : ℕ) (s : Sentinel) (b : Ballots) (found : Option ℕ × Option ℕ) (id : ℕ)
    → found.0 ≡ none
    → found.1 ≡ some id
    → decide kbid s b found ≡ again (record s { vote = id }) b
unfolding decide
decide_again kbid s b (some x, candidate) id e h = cc
decide_again kbid s b (none, none) id e h = cc
decide_again kbid s b (none, some c) id e h = ground arith

-- If every master votes for itself, the round has no leader and votes for the last master.
pub settle-each :
    (kbid n : ℕ) (s : Sentinel) (b : Ballots)
    → 1 ≤ n
    → InRange (suc n + 1) b
    → ((j : ℕ) → 1 ≤ j → j < suc n + 1 → ballot b j ≡ some j)
    → settle kbid (suc n) (s, b) ≡ again (record s { vote = suc n }) b
unfolding settle
settle-each kbid n s b two h each =
    let m = suc n in
    let (r, e, votes) = counted m b h in
    let one : (c : ℕ) → votes_of r c ≡ (if leb 1 c && ltb c (1 + m) then 1 else 0) =
      λ c. votes c ∙ ballots_for_each b c m 1 (λ j lo hi. each j lo (omega arith)) in
    let few : (j : ℕ) → 1 ≤ j → j < 1 + m → votes_of r j < m / 2 + 1 =
      λ j lo hi. ground (arith, one j) in
    let last : votes_of r m ≢ 0 = λ z. ground (arith, one m) in
    rw (e, settle)
      (decide_again kbid s b (pick m r m 1 (none, none)) m (pick-few m r m 1 none none few)
        (pick-last m r n 1 m none none (omega arith) last))
