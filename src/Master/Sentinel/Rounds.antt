-- ===== src/Master/Sentinel/Rounds.antt =====
-- Vote requests, the rounds of the consensus loop, and the follower's watch over its leader.
use kyrin_box.Prelude.{
  ℕ, zero, suc, ◌+◌, ◌%◌, ◌^◌, ◌≤◌, ◌<◌, ◌≡◌, ◌≢◌, ◌∙◌, refl, ◌⊎◌, inl, inr, Bool, Option, none,
  some, List, [], ◌∷◌, ltb, ◌==◌, if◌then◌else◌, length, replicate, set, All, Bool-cases,
  Option-cases, arith, ap, Bytes,
}
use Prim.Native.Nat.{max}
use kyrin_box.Common.Decimal.{print_ticket, scan_ticket}
use kyrin_box.Common.Decimal.RoundTrip.{scan_ticket-print_ticket}
use kyrin_box.Io.Retry.{all_fail, retry_loop_lem}
use kyrin_box.Master.Sentinel.{
  consensus, Sentinel, Poll, Ballots, ballot, vote_handler, handle_all, check_response, tally, pick,
  poll, Outcome, again, elected, abandoned, fault, decide, settle, round, rounds, run_consensus,
  follow,
}
use kyrin_box.Master.Sentinel.Tally.{InRange, tally_total}

pub length-replicate : {A : Type 0} (n : ℕ) (a : A) → length (replicate n a) ≡ n
length-replicate zero a = refl
length-replicate (suc n) a = ap suc (length-replicate n a)

-- Two sentinels exchange tickets whose numbers are below 2 ^ 64: the one that answers is then at
-- the later of the two epochs, and its answer reads as its own epoch and vote. It gave its vote
-- to itself and went back to the election if the request was ahead, and is unchanged if not.
pub vote_handler-print_ticket :
    (kbid epoch vote : ℕ) (old old' : ℕ × ℕ) (s : Sentinel)
    → epoch < 2 ^ 64
    → vote < 2 ^ 64
    → s.epoch < 2 ^ 64
    → s.vote < 2 ^ 64
    → kbid < 2 ^ 64
    → let (t, reply) = vote_handler kbid old (print_ticket epoch vote) s in
      (t.epoch ≡ max s.epoch epoch)
      × (scan_ticket old' reply ≡ (t.epoch, t.vote))
      × ((s.epoch < epoch) × (t.status ≡ consensus) × (t.vote ≡ kbid) × (t.leader_id ≡ s.leader_id)
          ⊎ (epoch ≤ s.epoch) × (t ≡ s))
unfolding vote_handler
vote_handler-print_ticket kbid epoch vote old old' s he hv hs hw hk =
    let read = scan_ticket-print_ticket epoch vote old he hv in
    elim (Bool-cases (ltb s.epoch epoch)) [
      | inl ahead ↦
          rw (read, ahead)
            (
              ground arith,
              scan_ticket-print_ticket epoch kbid old' he hk,
              inl (ground arith, refl, refl, refl),
            )
      | inr behind ↦
          rw (read, behind)
            (
              ground arith,
              scan_ticket-print_ticket s.epoch s.vote old' hs hw,
              inr (ground arith, refl),
            )
    ]

vote_handler-epoch :
    (kbid : ℕ) (old : ℕ × ℕ) (body : Bytes) (s : Sentinel)
    → let t = (vote_handler kbid old body s).0 in
      (t ≡ s) ⊎ (t.status ≡ consensus) × (s.epoch < t.epoch)
unfolding vote_handler
vote_handler-epoch kbid old body s = elim (Bool-cases (ltb s.epoch (scan_ticket old body).0)) [
  | inl ahead ↦ rw ahead (inr (refl, ground arith))
  | inr behind ↦ rw behind (inl refl)
]

-- Whatever vote requests come in, the epoch never falls, and a sentinel that is not back in the
-- election, at a later epoch, is unchanged.
pub handle_all-epoch :
    (kbid : ℕ) (old : ℕ × ℕ) (bodies : List Bytes) (s : Sentinel)
    → let t = handle_all kbid old bodies s in (t ≡ s) ⊎ (t.status ≡ consensus) × (s.epoch < t.epoch)
unfolding handle_all
handle_all-epoch kbid old [] s = inl refl
handle_all-epoch kbid old (body ∷ bodies) s =
    let t = (vote_handler kbid old body s).0 in
    let later = handle_all-epoch kbid old bodies t in
    elim (vote_handler-epoch kbid old body s) [
      | inl same ↦ elim later [
        | inl kept ↦ inl (kept ∙ same)
        | inr (back, grows) ↦
            let e : t.epoch ≡ s.epoch = ap (λ (u : Sentinel). u.epoch) same in
            inr (back, omega arith)
      ]
      | inr (back, grows) ↦ elim later [
        | inl kept ↦ inr (rw kept back, rw kept grows)
        | inr (back', grows') ↦ inr (back', omega arith)
      ]
    ]

-- The answers name masters only.
abbrev pub Answers : ℕ → (ℕ → Poll) → Type 0
Answers m env = (i : ℕ) → (scan_ticket (env i).old (env i).answer).1 ≤ m

ballot-set :
    (b : Ballots) (i j v w : ℕ)
    → ballot (set b i (some v)) j ≡ some w
    → (w ≡ v) ⊎ (ballot b j ≡ some w)
ballot-set [] i j v w h = inr h
ballot-set (o ∷ b) zero zero v w h = inl (ground arith)
ballot-set (o ∷ b) zero (suc j) v w h = inr h
ballot-set (o ∷ b) (suc i) zero v w h = inr h
ballot-set (o ∷ b) (suc i) (suc j) v w h = ballot-set b i j v w h

pub set-InRange :
    (m : ℕ) (b : Ballots) (i v : ℕ) → v < m → InRange m b → InRange m (set b i (some v))
set-InRange m b i v h r =
    λ j w e. elim (ballot-set b i j v w e) [ inl same ↦ omega arith | inr kept ↦ r j w kept ]

poll-InRange :
    (m kbid n i : ℕ) (env : ℕ → Poll) (s : Sentinel) (b : Ballots)
    → Answers m env
    → InRange (m + 1) b
    → InRange (m + 1) (poll kbid n i env s b).1
unfolding poll
poll-InRange m kbid zero i env s b a r = r
poll-InRange m kbid (suc n) i env s b a r =
    let e = env i in
    let s' = handle_all kbid e.old e.before s in
    let epoch = (scan_ticket e.old e.answer).0 in
    let vote = (scan_ticket e.old e.answer).1 in
    let skip = poll-InRange m kbid n (i + 1) env s' b a r in
    let count =
      poll-InRange m kbid n (i + 1) env s' (set b i (some vote)) a
        (set-InRange (m + 1) b i vote (omega (arith, a i)) r) in
    elim (Bool-cases (check_response e.answer)) [
      | inr quiet ↦ rw (quiet, poll) skip
      | inl there ↦ elim (Bool-cases (epoch == s'.epoch)) [
        | inl same ↦ rw (there, same, poll) count
        | inr other ↦ rw (there, other, poll) r
      ]
    ]

settle-again :
    (kbid m : ℕ) (s s' : Sentinel) (b b' : Ballots) → settle kbid m (s, b) ≡ again s' b' → b' ≡ b
unfolding settle
settle-again kbid m s s' b b' h = elim (Option-cases (tally b m 1 (replicate (m + 1) 0))) [
  | inl out ↦ absurd (ground arith)
  | inr (r, counted) ↦ decide-again (pick m r m 1 (none, none)) (rw (counted, settle) at h)
]
  where
    decide-again : (found : Option ℕ × Option ℕ) → decide kbid s b found ≡ again s' b' → b' ≡ b
    decide-again (chosen, none) e = absurd (ground arith)
    decide-again (none, some c) e = ground arith
    decide-again (some x, some c) e = absurd (ground arith)

decide-ne-fault :
    (kbid : ℕ) (s : Sentinel) (b : Ballots) (found : Option ℕ × Option ℕ)
    → decide kbid s b found ≢ fault
unfolding decide
decide-ne-fault kbid s b (chosen, none) = λ e. cc
decide-ne-fault kbid s b (none, some c) = λ e. cc
decide-ne-fault kbid s b (some x, some c) = λ e. cc

settle-ne-fault :
    (kbid m : ℕ) (s : Sentinel) (b : Ballots) → InRange (m + 1) b → settle kbid m (s, b) ≢ fault
unfolding settle
settle-ne-fault kbid m s b r =
    let (result, counted) =
      tally_total b m 1 (replicate (m + 1) 0) (rw (length-replicate {A = ℕ} (m + 1) 0) r) in
    rw (counted, settle) (decide-ne-fault kbid s b (pick m result m 1 (none, none)))

-- One more round in front of rounds that do not fault.
rounds_step :
    (kbid m : ℕ) (env : ℕ → Poll) (envs : List (ℕ → Poll)) (s : Sentinel) (b : Ballots)
    → round kbid m env s b ≢ fault
    → ((s' : Sentinel) (b' : Ballots)
        → round kbid m env s b ≡ again s' b'
        → rounds kbid m envs s' b' ≢ fault)
    → (o : Outcome) → round kbid m env s b ≡ o
    → rounds kbid m (env ∷ envs) s b ≢ fault
unfolding rounds
rounds_step kbid m env envs s b good more (again s' b') e = rw (e, rounds) (more s' b' e)
rounds_step kbid m env envs s b good more (elected s' id) e = rw (e, rounds) (λ f. cc)
rounds_step kbid m env envs s b good more (abandoned s') e = rw (e, rounds) (λ f. cc)
rounds_step kbid m env envs s b good more fault e = absurd (good e)

rounds-ne-fault :
    (kbid m : ℕ) (envs : List (ℕ → Poll)) (s : Sentinel) (b : Ballots)
    → All (Answers m) envs
    → InRange (m + 1) b
    → rounds kbid m envs s b ≢ fault
unfolding rounds round
rounds-ne-fault kbid m [] s b a r = λ e. cc
rounds-ne-fault kbid m (env ∷ envs) s b a r =
    let (s1, b1) = poll kbid m 1 env s b in
    let r1 = poll-InRange m kbid m 1 env s b a.0 r in
    rounds_step kbid m env envs s b (settle-ne-fault kbid m s1 b1 r1)
      (λ s' b' e. rounds-ne-fault kbid m envs s' b' a.1 (rw (settle-again kbid m s1 s' b1 b' e) r1))
      (round kbid m env s b) refl

pub ballot-replicate : (n j : ℕ) → ballot (replicate n none) j ≡ none
ballot-replicate zero j = refl
ballot-replicate (suc n) zero = refl
ballot-replicate (suc n) (suc j) = ballot-replicate n j

pub none-InRange : (m n : ℕ) → InRange m (replicate n none)
none-InRange m n j v e = absurd (ground (arith, ballot-replicate n j))

-- As long as every answer reads as a vote of at most the number of masters, no election writes
-- out of bounds, however many rounds it takes and whatever vote requests arrive in between.
pub run_consensus-ne-fault :
    (kbid m : ℕ) (envs : List (ℕ → Poll)) (s : Sentinel)
    → All (Answers m) envs
    → run_consensus kbid m envs s ≢ fault
unfolding run_consensus
run_consensus-ne-fault kbid m envs s a =
    rounds-ne-fault kbid m envs _ _ a (none-InRange (m + 1) (m + 1))

-- A follower goes back to the election, one epoch on and voting for itself, exactly if its first
-- three requests to the leader fail: the answer to the fourth has no say.
pub follow_lem :
    (kbid : ℕ) (answers : List Bool) (s : Sentinel)
    → follow kbid answers s ≡ (
        if all_fail 3 answers
        then record s { status = consensus; epoch = (s.epoch + 1) % 2 ^ 64; vote = kbid }
        else s)
unfolding follow
follow_lem kbid answers s = rw (retry_loop_lem answers)
