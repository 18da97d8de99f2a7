-- ===== src/Master/Sentinel/Network/Agreement.antt =====
-- The leaders of all the masters at one time.
use kyrin_box.Prelude.{
  ℕ, ◌≤◌, ◌≡◌, ◌≢◌, ◌∙◌, ◌==◌, ==_iff, refl, sym, ap, subst, inl, inr, Option, some, List, [], ◌∷◌,
  All, Bool-cases, arith,
}
use kyrin_box.Master.Sentinel.{
  Status, leader, follower, consensus, Sentinel, Ballots, start_sentinel,
}
use kyrin_box.Master.Sentinel.Machine.{
  Place, head, following, starting, polling, tallying, Thread, begins, Reach, start, later,
}
use kyrin_box.Master.Sentinel.Machine.Roles.{As, Reach-IsSound}
use kyrin_box.Master.Sentinel.Network.{
  Ticket, Network, ticket, Turn, make, act, Reachable, boot, turn,
}
use kyrin_box.Master.Sentinel.Network.Votes.{
  Voted, Backed, InWords, Behind, IsBacked, none_chosen, Step-IsBacked, shared_ballot,
}

record IsTruthful (m : ℕ) (n : Network) : Type 0 where
  words : All InWords n.tickets
  backed : (i : ℕ) → IsBacked n.tickets m (n.threads i)
  reached : (i : ℕ) → Reach i m (n.threads i)

-- A new ticket takes nothing from what is backed.
Backed-cons : (t : Ticket) (ts : List Ticket) (b : Ballots) → Backed ts b → Backed (t ∷ ts) b
Backed-cons t ts b h j v e = inr (h j v e)

Behind-cons : (t : Ticket) (ts : List Ticket) (p : Place) → Behind ts p → Behind (t ∷ ts) p
Behind-cons t ts head h = tt
Behind-cons t ts following h = tt
Behind-cons t ts starting h = tt
Behind-cons t ts (polling i b) h = Backed-cons t ts b h
Behind-cons t ts (tallying b) h = Backed-cons t ts b h

IsBacked-cons :
    (t : Ticket) (ts : List Ticket) (m : ℕ) (c : Thread) → IsBacked ts m c → IsBacked (t ∷ ts) m c
IsBacked-cons t ts m c h = record {
  place = Behind-cons t ts c.place h.place;
  chosen = λ id e. let (b, backed, most) = h.chosen id e in (b, Backed-cons t ts b backed, most);
}

Turn-IsTruthful : (m : ℕ) (n o : Network) → Turn m n o → IsTruthful m n → IsTruthful m o
Turn-IsTruthful m n o (make j small small' e) h =
    let t = ticket j (n.threads j).sentinel in
    rw e record {
      words = ((small, small'), h.words);
      backed = λ i. IsBacked-cons t n.tickets m (n.threads i) (h.backed i);
      reached = h.reached;
    }
Turn-IsTruthful m n o (act i d step lo hi honest e) h =
    let c = n.threads i in
    let kept =
      Step-IsBacked n.tickets i m c.sentinel c.chosen c.place d step h.words honest (h.backed i) in
    rw e record {
      words = h.words;
      backed = λ j. elim (Bool-cases (i == j)) [
        | inl same ↦ rw same kept
        | inr other ↦ rw other (h.backed j)
      ];
      reached = λ j. elim (Bool-cases (i == j)) [
        | inl same ↦
            rw same (subst (λ k. Reach k m d) ((==_iff i j).0 same) (later (h.reached i) step))
        | inr other ↦ rw other (h.reached j)
      ];
    }

Reachable-IsTruthful : (m : ℕ) (n : Network) → Reachable m n → IsTruthful m n
unfolding begins start_sentinel
Reachable-IsTruthful m n (boot s) = record {
  words = tt;
  backed = λ i. record { place = tt; chosen = none_chosen [] m };
  reached = λ i. start (s i);
}
Reachable-IsTruthful m n (turn {n = p} r t) = Turn-IsTruthful m p n t (Reachable-IsTruthful m p r)

As-chosen :
    (kbid m : ℕ) (status : Status) (s : Sentinel) (o : Option ℕ)
    → As kbid m status s o
    → status ≢ consensus
    → o ≡ some s.leader_id
As-chosen kbid m leader s o (own, chosen) ne = chosen ∙ ap some (sym own)
As-chosen kbid m follower s o (other, chosen) ne = chosen
As-chosen kbid m consensus s o role ne = absurd (ne refl)

-- In a state that the masters of a cluster can reach, with answers that may be lost, late and in
-- any order, take two masters that are not in the election, as leaders or followers: one and the
-- same master has made tickets with votes for both of their leaders. So the leaders are the same
-- if no master ever votes for two.
pub leaders-Voted :
    (m i j : ℕ) (n : Network)
    → Reachable m n
    → (n.threads i).sentinel.status ≢ consensus
    → (n.threads j).sentinel.status ≢ consensus
    → (k : ℕ) × (1 ≤ k)
      × (k ≤ m)
      × Voted n.tickets k (n.threads i).sentinel.leader_id
      × Voted n.tickets k (n.threads j).sentinel.leader_id
leaders-Voted m i j n r p q =
    let h = Reachable-IsTruthful m n r in
    let (b, backed, most) = (h.backed i).chosen _ (elected i p) in
    let (b', backed', most') = (h.backed j).chosen _ (elected j q) in
    let (k, lo, hi, e, e') =
      shared_ballot b b' (n.threads i).sentinel.leader_id (n.threads j).sentinel.leader_id m 1
        (omega (arith, most.most, most'.most)) in
    (k, lo, omega arith, backed k _ e, backed' k _ e')
  where
    elected :
        (l : ℕ)
        → (n.threads l).sentinel.status ≢ consensus
        → (n.threads l).chosen ≡ some (n.threads l).sentinel.leader_id
    elected l =
        As-chosen l m (n.threads l).sentinel.status (n.threads l).sentinel (n.threads l).chosen
          (Reach-IsSound l m (n.threads l) ((Reachable-IsTruthful m n r).reached l)).role
