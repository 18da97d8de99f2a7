-- ===== src/Master/Sentinel/Liveness.antt =====
-- An election among masters that all answer, all in one epoch.
use kyrin_box.Prelude.{
  ℕ, zero, suc, ◌+◌, ◌^◌, ◌≤◌, ◌<◌, ◌≡◌, ◌∙◌, refl, sym, ap, subst, true, false, Option, none, some,
  [], ◌∷◌, ltb, ◌==◌, if◌then◌else◌, length, replicate, set, arith, eq_bytes,
}
use kyrin_box.Common.Decimal.{print_ticket}
use kyrin_box.Common.Decimal.RoundTrip.{scan_ticket-print_ticket, print_ticket-cons}
use kyrin_box.Master.Sentinel.{
  leader, follower, Sentinel, Poll, Ballots, check_response, elected, again, settle, round, rounds,
  run_consensus, set_vote, vote_handler, get_vote_ticket, get_epoch,
}
use kyrin_box.Master.Sentinel.Tally.{InRange}
use kyrin_box.Master.Sentinel.Rounds.{length-replicate, set-InRange, none-InRange}
use kyrin_box.Master.Sentinel.Answered.{Answered, filled, poll-filled, length-filled, ballot-filled}
use kyrin_box.Master.Sentinel.Election.{settle-Majority, settle-each, ballots_for_one}

-- The polls of a round of the sentinel `me`, where the sentinels `peers i` answer, one request at a
-- time.
abbrev pub asks : ℕ × ℕ → Sentinel → (ℕ → Sentinel) → ℕ → Poll
asks old me peers i = record {
  before = [];
  answer = (vote_handler i old (get_vote_ticket me) (peers i)).1;
  old = old;
}

-- The masters are in the election, in one epoch, and with tickets that their variables can hold.
pub record Together (m epoch : ℕ) (peers : ℕ → Sentinel) : Type 0 where
  pub same : (i : ℕ) → 1 ≤ i → i ≤ m → (peers i).epoch ≡ epoch
  pub small : (i : ℕ) → 1 ≤ i → i ≤ m → (peers i).vote < 2 ^ 64
  pub epoch_small : epoch < 2 ^ 64

check_response-print_ticket : (epoch vote : ℕ) → check_response (print_ticket epoch vote) ≡ true
unfolding check_response eq_bytes
check_response-print_ticket epoch vote = let (c, t, e) = print_ticket-cons epoch vote in rw e refl

reply_lem :
    (kbid epoch : ℕ) (old : ℕ × ℕ) (me s : Sentinel)
    → me.epoch ≡ epoch
    → s.epoch ≡ epoch
    → me.vote < 2 ^ 64
    → epoch < 2 ^ 64
    → (vote_handler kbid old (get_vote_ticket me) s).1 ≡ print_ticket epoch s.vote
unfolding vote_handler get_vote_ticket get_epoch
reply_lem kbid epoch old me s e e' hv he =
    let read = scan_ticket-print_ticket epoch me.vote old he hv in
    let behind : ltb epoch epoch ≡ false = ground arith in rw (e, e', read, behind) refl

Together-Answered :
    (m epoch : ℕ) (old : ℕ × ℕ) (peers : ℕ → Sentinel) (me : Sentinel)
    → Together m epoch peers
    → me.epoch ≡ epoch
    → me.vote < 2 ^ 64
    → Answered m epoch (λ i. (peers i).vote) (asks old me peers)
Together-Answered m epoch old peers me h e hv =
    let reply = λ (i : ℕ) (lo : 1 ≤ i) (hi : i ≤ m).
      reply_lem i epoch old me (peers i) e (h.same i lo hi) hv h.epoch_small in
    record {
      quiet = λ i. refl;
      there = λ i lo hi. rw (reply i lo hi) (check_response-print_ticket epoch (peers i).vote);
      says = λ i lo hi.
          rw (reply i lo hi)
            (scan_ticket-print_ticket epoch (peers i).vote old h.epoch_small (h.small i lo hi));
    }

filled-InRange :
    (v : ℕ → ℕ) (m n i : ℕ) (b : Ballots)
    → ((j : ℕ) → i ≤ j → j < i + n → v j < m)
    → InRange m b
    → InRange m (filled v n i b)
unfolding filled
filled-InRange v m zero i b h r = r
filled-InRange v m (suc n) i b h r =
    filled-InRange v m n (i + 1) (set b i (some (v i))) (λ j lo hi. h j (omega arith) (omega arith))
      (set-InRange m b i (v i) (h i (omega arith) (omega arith)) r)

-- What a round of polling among such masters ends with.
polled :
    (m epoch kbid : ℕ) (old : ℕ × ℕ) (peers : ℕ → Sentinel) (me : Sentinel) (b : Ballots)
    → Together m epoch peers
    → me.epoch ≡ epoch
    → me.vote < 2 ^ 64
    → round kbid m (asks old me peers) me b ≡ settle kbid m (me, filled (λ i. (peers i).vote) m 1 b)
unfolding round
polled m epoch kbid old peers me b h e hv =
    let answered = Together-Answered m epoch old peers me h e hv in
    ap (settle kbid m) (
      poll-filled kbid m m 1 (λ i. (peers i).vote) (asks old me peers) me b
        (subst (λ x. Answered m x (λ i. (peers i).vote) (asks old me peers)) (sym e) answered)
        (omega arith) (omega arith))

first_round :
    (n epoch kbid : ℕ) (old : ℕ × ℕ) (peers : ℕ → Sentinel) (b : Ballots)
    → 1 ≤ n
    → 1 ≤ kbid
    → kbid ≤ suc n
    → Together (suc n) epoch (λ i. set_vote i (peers i))
    → length b ≡ suc n + 1
    → InRange (suc n + 1) b
    → let voting = λ (i : ℕ). set_vote i (peers i) in
      round kbid (suc n) (asks old (voting kbid) voting) (voting kbid) b
      ≡ again (record (peers kbid) { vote = suc n }) (filled (λ i. i) (suc n) 1 b)
unfolding set_vote
first_round n epoch kbid old peers b two lo hi h size fits =
    let m = suc n in
    polled m epoch kbid old (λ i. set_vote i (peers i)) (set_vote kbid (peers kbid)) b h
      (h.same kbid lo hi) (h.small kbid lo hi)
    ∙ settle-each kbid n (set_vote kbid (peers kbid)) (filled (λ i. i) m 1 b) two
        (filled-InRange (λ i. i) (m + 1) m 1 b (λ j lo' hi'. omega arith) fits)
        (λ j lo' hi'. ballot-filled (λ i. i) m 1 j b (omega (arith, size)) lo' (omega arith))

second_round :
    (n epoch kbid : ℕ) (old : ℕ × ℕ) (peers : ℕ → Sentinel) (b : Ballots)
    → 1 ≤ kbid
    → kbid ≤ suc n
    → Together (suc n) epoch (λ i. set_vote (suc n) (peers i))
    → length b ≡ suc n + 1
    → InRange (suc n + 1) b
    → let decided = λ (i : ℕ). set_vote (suc n) (peers i) in
      round kbid (suc n) (asks old (decided kbid) decided) (decided kbid) b
      ≡ elected
          record {
            status = if suc n == kbid then leader else follower;
            leader_id = suc n;
            vote = suc n;
            epoch = (peers kbid).epoch;
          }
          (suc n)
unfolding set_vote
second_round n epoch kbid old peers b lo hi h size fits =
    let m = suc n in
    let all = filled (λ i. m) m 1 b in
    let votes =
      ballots_for_one all m m 1
        (λ j lo' hi'. ballot-filled (λ i. m) m 1 j b (omega (arith, size)) lo' (omega arith)) in
    polled m epoch kbid old (λ i. set_vote m (peers i)) (set_vote m (peers kbid)) b h
      (h.same kbid lo hi) (h.small kbid lo hi)
    ∙ settle-Majority kbid m (set_vote m (peers kbid)) all m
        (filled-InRange (λ i. m) (m + 1) m 1 b (λ j lo' hi'. omega arith) fits)
        record { from_one = omega arith; in_range = omega arith; most = omega (arith, votes) }

-- Two masters or more, all in one epoch, go through the election in lockstep: each round of a master
-- polls the masters as they are when the round starts, and no answer is lost. In the first round
-- each has the others' votes for themselves, and elects nobody. In the second, in which they answer
-- with what the first one made of them, every master leaves the election, the last one as the
-- leader and the others as its followers.
pub run_consensus-elected :
    (m epoch : ℕ) (old : ℕ × ℕ) (peers : ℕ → Sentinel)
    → 2 ≤ m
    → m < 2 ^ 64
    → epoch < 2 ^ 64
    → ((i : ℕ) → 1 ≤ i → i ≤ m → (peers i).epoch ≡ epoch)
    → let voting = λ (i : ℕ). set_vote i (peers i) in
      (decided : ℕ → Sentinel) × (held : ℕ → Ballots) × ((i : ℕ)
        → 1 ≤ i
        → i ≤ m
        → round i m (asks old (voting i) voting) (voting i) (replicate (m + 1) none)
          ≡ again (decided i) (held i))
      × ((i : ℕ)
          → 1 ≤ i
          → i ≤ m
          → run_consensus i m
              (asks old (voting i) voting ∷ asks old (decided i) decided ∷ [])
              (peers i)
            ≡ elected
                record {
                  status = if m == i then leader else follower;
                  leader_id = m;
                  vote = m;
                  epoch = epoch;
                }
                m)
unfolding run_consensus rounds set_vote
run_consensus-elected zero epoch old peers two hm he same = absurd (omega arith)
run_consensus-elected (suc n) epoch old peers two hm he same =
    let m = suc n in
    let b : Ballots = replicate (m + 1) none in
    let size : length b ≡ m + 1 = length-replicate {A = Option ℕ} (m + 1) none in
    let fits = none-InRange (m + 1) (m + 1) in
    let b' = filled (λ i. i) m 1 b in
    let first = λ (i : ℕ) (lo : 1 ≤ i) (hi : i ≤ m).
      first_round n epoch i old peers b (omega arith) lo hi
        record { same = same; small = λ i lo' hi'. omega arith; epoch_small = he } size fits in
    let second = λ (i : ℕ) (lo : 1 ≤ i) (hi : i ≤ m).
      second_round n epoch i old peers b' lo hi
        record { same = same; small = λ i lo' hi'. omega arith; epoch_small = he }
        (length-filled (λ i. i) m 1 b ∙ size)
        (filled-InRange (λ i. i) (m + 1) m 1 b (λ j lo' hi'. omega arith) fits) in
    (
      λ i. set_vote m (peers i),
      λ i. b',
      first,
      λ i lo hi. rw (first i lo hi, rounds) (rw (second i lo hi, rounds) (rw (same i lo hi) refl)),
    )
