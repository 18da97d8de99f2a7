-- ===== src/Master/Sentinel/Machine/Roles.antt =====
-- What holds in every state of the loop.
use kyrin_box.Prelude.{
  ℕ, set, ◌+◌, ◌≤◌, ◌≡◌, ◌≢◌, ◌∙◌, ◌⊎◌, refl, sym, ap, subst, Bool, Option, none, some, List, Bytes,
  ◌==◌, ltb, inl, inr, Bool-cases, Option-cases, arith, replicate,
}
use kyrin_box.Common.Decimal.{scan_ticket}
use kyrin_box.Master.Sentinel.{
  Status, leader, follower, consensus, Sentinel, start_sentinel, set_vote, vote_handler,
  check_response, Ballots, settle, tally, pick, decide, again, elected, abandoned, follow,
}
use kyrin_box.Master.Sentinel.Quorum.{settle-elected}
use kyrin_box.Master.Sentinel.Rounds.{follow_lem}
use kyrin_box.Io.Retry.{all_fail}
use kyrin_box.Master.Sentinel.Machine.{
  Place, head, following, starting, polling, tallying, Thread, Step, request, rest, lose, ask, run,
  begin, hear, gathered, answered, retry, win, give_up, begins, Reach, start, later,
}

-- A kbid of another master.
abbrev pub IsOther : ℕ → ℕ → Option ℕ → Type 0
IsOther kbid m none = ⊥
IsOther kbid m (some id) = (1 ≤ id) × (id ≤ m) × (id ≢ kbid)

-- What a place of the thread says: while it follows, its local leader is another master; while it
-- polls and counts, the sentinel is in the election.
abbrev pub At : ℕ → ℕ → Place → Sentinel → Option ℕ → Type 0
At kbid m head s o = Unit {0}
At kbid m following s o = IsOther kbid m o
At kbid m starting s o = s.status ≡ consensus
At kbid m (polling i b) s o = s.status ≡ consensus
At kbid m (tallying b) s o = s.status ≡ consensus

-- What a status says.
abbrev pub As : ℕ → ℕ → Status → Sentinel → Option ℕ → Type 0
As kbid m leader s o = (s.leader_id ≡ kbid) × (o ≡ some kbid)
As kbid m follower s o = IsOther kbid m o × (o ≡ some s.leader_id)
As kbid m consensus s o = Unit {0}

pub record IsSound (kbid m : ℕ) (c : Thread) : Type 0 where
  pub place : At kbid m c.place c.sentinel c.chosen
  pub role : As kbid m c.sentinel.status c.sentinel c.chosen

vote_handler-status :
    (kbid : ℕ) (old : ℕ × ℕ) (body : Bytes) (s : Sentinel)
    → let t = (vote_handler kbid old body s).0 in (t ≡ s) ⊎ (t.status ≡ consensus)
unfolding vote_handler
vote_handler-status kbid old body s = elim (Bool-cases (ltb s.epoch (scan_ticket old body).0)) [
  | inl ahead ↦ rw ahead (inr refl)
  | inr behind ↦ rw behind (inl refl)
]

settle-kept :
    (kbid m : ℕ) (s s' : Sentinel) (b b' : Ballots)
    → (settle kbid m (s, b) ≡ again s' b') ⊎ (settle kbid m (s, b) ≡ abandoned s')
    → s'.status ≡ s.status
unfolding settle decide
settle-kept kbid m s s' b b' h = elim (Option-cases (tally b m 1 (replicate (m + 1) 0))) [
  | inl out ↦ elim h [ inl e ↦ absurd (ground arith) | inr e ↦ absurd (ground arith) ]
  | inr (r, counted) ↦
      decide-kept (pick m r m 1 (none, none)) (elim h [
        | inl e ↦ inl (rw (counted, settle) at e)
        | inr e ↦ inr (rw (counted, settle) at e)
      ])
]
  where
    decide-kept :
        (found : Option ℕ × Option ℕ)
        → (decide kbid s b found ≡ again s' b') ⊎ (decide kbid s b found ≡ abandoned s')
        → s'.status ≡ s.status
    decide-kept (chosen, none) e = ground arith
    decide-kept (none, some c) e = ground arith
    decide-kept (some x, some c) e = ground arith

-- A sentinel in the election says nothing of its leader.
consensus-IsSound :
    (kbid m : ℕ) (s : Sentinel) (o : Option ℕ) (p : Place)
    → s.status ≡ consensus
    → At kbid m p s o
    → IsSound kbid m record { sentinel = s; chosen = o; place = p }
consensus-IsSound kbid m s o p back h = record {
  place = h;
  role = subst (λ t. As kbid m t s o) (sym back) tt;
}

-- An answer leaves the status as it is.
answered-IsSound :
    (kbid m i : ℕ) (old : ℕ × ℕ) (answer : Bytes) (b : Ballots) (s : Sentinel) (o : Option ℕ)
    → s.status ≡ consensus
    → let (t, p) = answered kbid i old answer b s in
      IsSound kbid m record { sentinel = t; chosen = o; place = p }
unfolding answered
answered-IsSound kbid m i old answer b s o back = elim (Bool-cases (check_response answer)) [
  | inr quiet ↦ rw (quiet, answered) (consensus-IsSound kbid m s o (polling (i + 1) b) back back)
  | inl there ↦ elim (Bool-cases ((scan_ticket old answer).0 == s.epoch)) [
    | inl same ↦
        let b' = set b i (some (scan_ticket old answer).1) in
        rw (there, same, answered) (consensus-IsSound kbid m s o (polling (i + 1) b') back back)
    | inr other ↦
        let t : Sentinel = record s { leader_id = kbid; epoch = (scan_ticket old answer).0 } in
        rw (there, other, answered) (consensus-IsSound kbid m t o (tallying b) back back)
  ]
]

At-consensus :
    (kbid m : ℕ) (p : Place) (s t : Sentinel) (o : Option ℕ)
    → t.status ≡ consensus
    → At kbid m p s o
    → At kbid m p t o
At-consensus kbid m head s t o back h = tt
At-consensus kbid m following s t o back h = h
At-consensus kbid m starting s t o back h = back
At-consensus kbid m (polling i b) s t o back h = back
At-consensus kbid m (tallying b) s t o back h = back

elected-IsSound :
    (kbid m : ℕ) (s : Sentinel) (b : Ballots) (t : Sentinel) (id : ℕ)
    → settle kbid m (s, b) ≡ elected t id
    → IsSound kbid m record { sentinel = t; chosen = some id; place = head }
elected-IsSound kbid m s b t id e =
    let (most, lead, epoch, status) = settle-elected kbid m s b t id e in
    elim (Bool-cases (id == kbid)) [
      | inl same ↦
          let leads : t.status ≡ leader = rw same at status in
          let own : t.leader_id ≡ kbid = ground (arith, lead, same) in
          record {
            place = tt;
            role = subst (λ u. As kbid m u t (some id)) (sym leads) (own, ap some (sym lead ∙ own));
          }
      | inr differ ↦
          let follows : t.status ≡ follower = rw differ at status in
          let other : id ≢ kbid = λ e. ground (arith, differ, e) in
          record {
            place = tt;
            role =
                subst (λ u. As kbid m u t (some id)) (sym follows)
                  ((most.from_one, most.in_range, other), ap some (sym lead));
          }
    ]

follow-role :
    (kbid m : ℕ) (answers : List Bool) (s : Sentinel) (o : Option ℕ)
    → IsSound kbid m record { sentinel = s; chosen = o; place = following }
    → IsSound kbid m record { sentinel = follow kbid answers s; chosen = o; place = head }
follow-role kbid m answers s o h = elim (Bool-cases (all_fail 3 answers)) [
  | inl lost ↦
      consensus-IsSound kbid m (follow kbid answers s) o head (rw (follow_lem, lost) refl) tt
  | inr kept ↦ rw (follow_lem, kept) record { place = tt; role = h.role }
]

request-IsSound :
    (kbid m : ℕ) (old : ℕ × ℕ) (body : Bytes) (s : Sentinel) (o : Option ℕ) (p : Place)
    → IsSound kbid m record { sentinel = s; chosen = o; place = p }
    → IsSound kbid m record { sentinel = (vote_handler kbid old body s).0; chosen = o; place = p }
request-IsSound kbid m old body s o p h = elim (vote_handler-status kbid old body s) [
  | inl same ↦
      subst (λ t. IsSound kbid m record { sentinel = t; chosen = o; place = p }) (sym same) h
  | inr back ↦
      let t = (vote_handler kbid old body s).0 in
      consensus-IsSound kbid m t o p back (At-consensus kbid m p s t o back h.place)
]

Step-IsSound :
    (kbid m : ℕ) (s : Sentinel) (o : Option ℕ) (p : Place) (d : Thread)
    → IsSound kbid m record { sentinel = s; chosen = o; place = p }
    → Step kbid m record { sentinel = s; chosen = o; place = p } d
    → IsSound kbid m d
unfolding set_vote
Step-IsSound kbid m s o p d h (request old body e) = rw e (request-IsSound kbid m old body s o p h)
Step-IsSound kbid m s o p d h (rest at_head leads e) = rw e h
Step-IsSound kbid m s o p d h (lose at_head follows e) =
    let role : As kbid m follower s o = subst (λ u. As kbid m u s o) follows h.role in
    rw e record { place = role.0; role = h.role }
Step-IsSound kbid m s o p d h (ask answers at e) =
    let place : At kbid m following s o = subst (λ q. At kbid m q s o) at h.place in
    rw e (follow-role kbid m answers s o record { place = place; role = h.role })
Step-IsSound kbid m s o p d h (run at_head back e) =
    rw e (consensus-IsSound kbid m s o starting back back)
Step-IsSound kbid m s o p d h (begin at e) =
    let back : s.status ≡ consensus = subst (λ q. At kbid m q s o) at h.place in
    rw e
      (consensus-IsSound kbid m (set_vote kbid s) o (polling 1 (replicate (m + 1) none)) back back)
Step-IsSound kbid m s o p d h (hear i b old answer at small e) =
    let back : s.status ≡ consensus = subst (λ q. At kbid m q s o) at h.place in
    rw e (answered-IsSound kbid m i old answer b s o back)
Step-IsSound kbid m s o p d h (gathered i b at past e) =
    let back : s.status ≡ consensus = subst (λ q. At kbid m q s o) at h.place in
    rw e (consensus-IsSound kbid m s o (tallying b) back back)
Step-IsSound kbid m s o p d h (retry b b' t at settled e) =
    let back : s.status ≡ consensus = subst (λ q. At kbid m q s o) at h.place in
    let back' = settle-kept kbid m s t b b' (inl settled) ∙ back in
    rw e (consensus-IsSound kbid m t none (polling 1 b') back' back')
Step-IsSound kbid m s o p d h (win b t id at settled e) =
    rw e (elected-IsSound kbid m s b t id settled)
Step-IsSound kbid m s o p d h (give_up b t at settled e) =
    let back : s.status ≡ consensus = subst (λ q. At kbid m q s o) at h.place in
    let back' = settle-kept kbid m s t b b (inr settled) ∙ back in
    rw e (consensus-IsSound kbid m t none head back' tt)

-- In every state that the sentinel thread can reach, whatever vote requests come in between its
-- steps: a leader's leader is itself, which is also the local `leader`; a follower's leader is the
-- local `leader`, another master
-- with a number from 1 to the number of masters, and so is the local `leader` for as long as the
-- thread asks it, whatever became of the status since.
pub Reach-IsSound : (kbid m : ℕ) (c : Thread) → Reach kbid m c → IsSound kbid m c
unfolding begins start_sentinel
Reach-IsSound kbid m c (start s) = record { place = tt; role = tt }
Reach-IsSound kbid m c (later {c = b} reached step) =
    Step-IsSound kbid m b.sentinel b.chosen b.place c (Reach-IsSound kbid m b reached) step
