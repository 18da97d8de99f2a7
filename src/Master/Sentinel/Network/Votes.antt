-- ===== src/Master/Sentinel/Network/Votes.antt =====
-- What the tickets say of the leaders that the masters elect.
use kyrin_box.Prelude.{
  ℕ, zero, suc, ◌+◌, ◌≤◌, ◌<◌, ◌^◌, ◌≡◌, ◌≢◌, ◌∙◌, ◌⊎◌, refl, sym, ap, subst, inl, inr, Option,
  none, some, List, [], ◌∷◌, Bytes, ◌==◌, ==_iff, All, replicate, set, Bool-cases, Option-cases,
  eq_bytes, true, arith,
}
use mathlib.Core.Option.{some-injective}
use kyrin_box.Common.Decimal.{scan_ticket}
use kyrin_box.Common.Decimal.RoundTrip.{scan_ticket-print_ticket}
use kyrin_box.Master.Sentinel.{
  Sentinel, Ballots, ballot, tally, pick, decide, settle, check_response, again,
}
use kyrin_box.Master.Sentinel.Tally.{counts_for, ballots_for}
use kyrin_box.Master.Sentinel.Quorum.{Majority, settle-elected}
use kyrin_box.Master.Sentinel.Machine.{
  Place, head, following, starting, polling, tallying, Thread, Step, request, rest, lose, ask, run,
  begin, hear, gathered, answered, retry, win, give_up,
}
use kyrin_box.Master.Sentinel.Network.{Ticket, Any, Made, IsHonest}

-- The master has made a ticket with this vote.
abbrev pub Voted : List Ticket → ℕ → ℕ → Type 0
Voted ts j v = Any (λ t. (t.sender ≡ j) × (t.vote ≡ v)) ts

abbrev pub Backed : List Ticket → Ballots → Type 0
Backed ts b = (j v : ℕ) → ballot b j ≡ some v → Voted ts j v

abbrev pub InWords : Ticket → Type 0
InWords t = (t.epoch < 2 ^ 64) × (t.vote < 2 ^ 64)

counts_for-cases : (c : ℕ) (o : Option ℕ) → (o ≡ some c) ⊎ (counts_for c o ≡ 0)
counts_for-cases c none = inr refl
counts_for-cases c (some v) = elim (Bool-cases (v == c)) [
  | inl same ↦ inl (ap some ((==_iff v c).0 same))
  | inr other ↦ inr (rw other)
]

counts_for-le : (c : ℕ) (o : Option ℕ) → counts_for c o ≤ 1
counts_for-le c none = omega arith
counts_for-le c (some v) = ground arith

-- More ballots for two masters than there are masters: one of them has ballots for both.
pub shared_ballot :
    (b b' : Ballots) (c d n i : ℕ)
    → n < ballots_for b c n i + ballots_for b' d n i
    → (j : ℕ) × (i ≤ j) × (j < i + n) × (ballot b j ≡ some c) × (ballot b' j ≡ some d)
unfolding ballots_for
shared_ballot b b' c d zero i h = absurd (omega arith)
shared_ballot b b' c d (suc n) i h =
    let more = λ (k : n < ballots_for b c n (i + 1) + ballots_for b' d n (i + 1)).
      let (j, lo, hi, e, e') = shared_ballot b b' c d n (i + 1) k in
      let found : (j : ℕ) × (i ≤ j)
          × (j < i + suc n)
          × (ballot b j ≡ some c)
          × (ballot b' j ≡ some d) =
        (j, omega arith, omega arith, e, e') in
      found in
    elim (counts_for-cases c (ballot b i)) [
      | inr no_vote ↦ more (omega (arith, no_vote, counts_for-le d (ballot b' i)))
      | inl e ↦ elim (counts_for-cases d (ballot b' i)) [
        | inr no_vote ↦ more (omega (arith, no_vote, counts_for-le c (ballot b i)))
        | inl e' ↦ (i, omega arith, omega arith, e, e')
      ]
    ]

ballot-set :
    (b : Ballots) (k v j w : ℕ)
    → ballot (set b k (some v)) j ≡ some w
    → ((k ≡ j) × (v ≡ w)) ⊎ (ballot b j ≡ some w)
ballot-set [] k v j w h = inr h
ballot-set (x ∷ b) zero v zero w h = inl (refl, some-injective _ _ h)
ballot-set (x ∷ b) zero v (suc j) w h = inr h
ballot-set (x ∷ b) (suc k) v zero w h = inr h
ballot-set (x ∷ b) (suc k) v (suc j) w h = elim (ballot-set b k v j w h) [
  | inl (p, q) ↦ inl (ap suc p, q)
  | inr old ↦ inr old
]

ballot-replicate : (n j v : ℕ) → ballot (replicate n none) j ≢ some v
ballot-replicate zero j v h = cc
ballot-replicate (suc n) zero v h = cc
ballot-replicate (suc n) (suc j) v h = ballot-replicate n j v h

-- A ticket is read as the vote of its master.
Made-Voted :
    (ts : List Ticket) (j : ℕ) (old : ℕ × ℕ) (answer : Bytes)
    → All InWords ts
    → Made ts j answer
    → Voted ts j (scan_ticket old answer).1
Made-Voted [] j old answer words made = made
Made-Voted (t ∷ ts) j old answer (word, words) (inl (sender, text)) = inl (
  sender,
  sym (
      ap (λ a. (scan_ticket old a).1) text
      ∙ ap (λ p. p.1) (scan_ticket-print_ticket t.epoch t.vote old word.0 word.1)),
)
Made-Voted (t ∷ ts) j old answer (word, words) (inr made) =
    inr (Made-Voted ts j old answer words made)

-- The ballots that a place of the thread holds are backed by tickets.
abbrev pub Behind : List Ticket → Place → Type 0
Behind ts head = Unit {0}
Behind ts following = Unit {0}
Behind ts starting = Unit {0}
Behind ts (polling i b) = Backed ts b
Behind ts (tallying b) = Backed ts b

pub record IsBacked (ts : List Ticket) (m : ℕ) (c : Thread) : Type 0 where
  pub place : Behind ts c.place
  pub chosen : (id : ℕ) → c.chosen ≡ some id → (b : Ballots) × Backed ts b × Majority m b id

settle-again :
    (kbid m : ℕ) (s s' : Sentinel) (b b' : Ballots) → settle kbid m (s, b) ≡ again s' b' → b' ≡ b
unfolding settle
settle-again kbid m s s' b b' h = elim (Option-cases (tally b m 1 (replicate (m + 1) 0))) [
  | inl out ↦ absurd (ground arith)
  | inr (r, counted) ↦ decide-again (pick m r m 1 (none, none)) (rw (counted, settle) at h)
]
  where
    decide-again : (found : Option ℕ × Option ℕ) → decide kbid s b found ≡ again s' b' → b' ≡ b
    decide-again (chosen, none) e = absurd (ground arith)
    decide-again (none, some c) e = ground arith
    decide-again (some x, some c) e = absurd (ground arith)

check_response-ne_nil : (answer : Bytes) → answer ≡ [] → check_response answer ≢ true
unfolding check_response eq_bytes
check_response-ne_nil [] e h = cc
check_response-ne_nil (c ∷ answer) e h = absurd (ground arith)

answered-Behind :
    (ts : List Ticket) (kbid i : ℕ) (old : ℕ × ℕ) (answer : Bytes) (b : Ballots) (s : Sentinel)
    → All InWords ts
    → (answer ≡ []) ⊎ Made ts i answer
    → Backed ts b
    → Behind ts (answered kbid i old answer b s).1
unfolding answered
answered-Behind ts kbid i old answer b s words honest backed =
    elim (Bool-cases (check_response answer)) [
      | inr quiet ↦ rw (quiet, answered) backed
      | inl there ↦ elim (Bool-cases ((scan_ticket old answer).0 == s.epoch)) [
        | inr other ↦ rw (there, other, answered) backed
        | inl same ↦
            let vote = (scan_ticket old answer).1 in
            let made : Made ts i answer = elim honest [
              | inl empty ↦ absurd (check_response-ne_nil answer empty there)
              | inr made ↦ made
            ] in
            rw (there, same, answered)
              (λ j v e. elim (ballot-set b i vote j v e) [
                | inr before ↦ backed j v before
                | inl (p, q) ↦ rw (sym p, sym q) (Made-Voted ts i old answer words made)
              ])
      ]
    ]

pub none_chosen :
    (ts : List Ticket) (m id : ℕ) → none ≡ some id → (b : Ballots) × Backed ts b × Majority m b id
none_chosen ts m id e = absurd (ground arith)

pub Step-IsBacked :
    (ts : List Ticket) (i m : ℕ) (s : Sentinel) (o : Option ℕ) (p : Place) (d : Thread)
    (step : Step i m record { sentinel = s; chosen = o; place = p } d)
    → All InWords ts
    → IsHonest ts i m step
    → IsBacked ts m record { sentinel = s; chosen = o; place = p }
    → IsBacked ts m d
Step-IsBacked ts i m s o p d (request old body e) words honest h =
    rw e record { place = h.place; chosen = h.chosen }
Step-IsBacked ts i m s o p d (rest at leads e) words honest h = rw e h
Step-IsBacked ts i m s o p d (lose at follows e) words honest h =
    rw e record { place = tt; chosen = h.chosen }
Step-IsBacked ts i m s o p d (ask answers at e) words honest h =
    rw e record { place = tt; chosen = h.chosen }
Step-IsBacked ts i m s o p d (run at back e) words honest h =
    rw e record { place = tt; chosen = h.chosen }
Step-IsBacked ts i m s o p d (begin at e) words honest h =
    rw e record { place = λ j v q. absurd (ballot-replicate (m + 1) j v q); chosen = h.chosen }
Step-IsBacked ts i m s o p d (hear k b old answer at small e) words honest h =
    let backed : Backed ts b = subst (Behind ts) at h.place in
    rw e record {
      place = answered-Behind ts i k old answer b s words honest backed;
      chosen = h.chosen;
    }
Step-IsBacked ts i m s o p d (gathered k b at past e) words honest h =
    let backed : Backed ts b = subst (Behind ts) at h.place in
    rw e record { place = backed; chosen = h.chosen }
Step-IsBacked ts i m s o p d (retry b b' t at settled e) words honest h =
    let backed : Backed ts b = subst (Behind ts) at h.place in
    rw (e, settle-again i m s t b b' settled) record { place = backed; chosen = none_chosen ts m }
Step-IsBacked ts i m s o p d (win b t id at settled e) words honest h =
    let backed : Backed ts b = subst (Behind ts) at h.place in
    let most = (settle-elected i m s b t id settled).0 in
    rw e record {
      place = tt;
      chosen = λ id' q. (b, backed, subst (Majority m b) (some-injective _ _ q) most);
    }
Step-IsBacked ts i m s o p d (give_up b t at settled e) words honest h =
    rw e record { place = tt; chosen = none_chosen ts m }
