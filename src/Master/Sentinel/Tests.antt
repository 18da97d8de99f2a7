-- ===== src/Master/Sentinel/Tests.antt =====
-- The election's theorems in a cluster of three masters.
use kyrin_box.Prelude.{
  ℕ, zero, suc, ◌+◌, ◌%◌, ◌^◌, ◌<◌, ◌≤◌, ◌≡◌, ◌≢◌, ◌⊎◌, refl, true, false, none, some, List, [],
  ◌∷◌, Bytes, ◌==◌, if◌then◌else◌, eq_bytes, text, replicate, arith,
}
use Prim.Native.Nat.{max}
use kyrin_box.Common.Decimal.{print_ticket, scan_ticket, scan_u64, is_space, is_digit, scan_digits}
use kyrin_box.Io.Retry.{all_fail}
use kyrin_box.Master.Sentinel.{
  leader, follower, consensus, Sentinel, Poll, Ballots, vote_handler, handle_all, poll, settle,
  tally, pick, decide, round, run_consensus, follow, fault, elected, again, set_vote, count_ballot,
  check_response,
}
use kyrin_box.Master.Sentinel.Quorum.{Agree, round-agrees}
use kyrin_box.Master.Sentinel.Tally.{InRange, ballots_for}
use kyrin_box.Master.Sentinel.Election.{settle-Majority}
use kyrin_box.Master.Sentinel.Liveness.{asks, run_consensus-elected}
use kyrin_box.Master.Sentinel.Rounds.{
  Answers, vote_handler-print_ticket, handle_all-epoch, run_consensus-ne-fault, follow_lem,
}

abbrev candidate : ℕ → Sentinel
candidate kbid = record { status = consensus; leader_id = kbid; vote = kbid; epoch = 4 }

vote_handler-print_ticket_example :
    let (t, reply) = vote_handler 2 (0, 0) (print_ticket 5 1) (candidate 2) in
    (t.epoch ≡ max 4 5)
    × (scan_ticket (7, 7) reply ≡ (t.epoch, t.vote))
    × ((4 < 5) × (t.status ≡ consensus) × (t.vote ≡ 2) × (t.leader_id ≡ 2)
        ⊎ (5 ≤ 4) × (t ≡ candidate 2))
vote_handler-print_ticket_example =
    vote_handler-print_ticket 2 5 1 (0, 0) (7, 7) (candidate 2) (omega arith) (omega arith)
      (omega arith) (omega arith) (omega arith)

abbrev requests : List Bytes
requests = text "3 1" ∷ (text "8 3" ∷ [])

handle_all-epoch_example :
    let t = handle_all 2 (0, 0) requests (candidate 2) in
    (t ≡ candidate 2) ⊎ (t.status ≡ consensus) × (4 < t.epoch)
handle_all-epoch_example = handle_all-epoch 2 (0, 0) requests (candidate 2)

follow_lem_example : follow 2 (false ∷ (false ∷ (false ∷ (true ∷ [])))) (candidate 2) ≡ (
    if all_fail 3 (false ∷ (false ∷ (false ∷ (true ∷ []))))
    then record { status = consensus; leader_id = 2; vote = 2; epoch = (4 + 1) % 2 ^ 64 }
    else candidate 2)
follow_lem_example = follow_lem 2 (false ∷ (false ∷ (false ∷ (true ∷ [])))) (candidate 2)

-- All three masters answer that they vote for the third.
abbrev answers : ℕ → Poll
answers i = record { before = []; answer = text "4 3"; old = (0, 0) }

answers-Answers : Answers 3 answers
unfolding scan_ticket scan_u64 is_space is_digit scan_digits
answers-Answers i = omega arith

abbrev ballots : Ballots
ballots = none ∷ (some 3 ∷ (some 3 ∷ (some 3 ∷ [])))

abbrev empty_ballots : Ballots
empty_ballots = none ∷ (none ∷ (none ∷ (none ∷ [])))

abbrev winner : ℕ → Sentinel
winner kbid = record {
  status = if 3 == kbid then leader else follower;
  leader_id = 3;
  vote = kbid;
  epoch = 4;
}

agree : Agree ballots ballots
agree j v w h h' = ground arith

round-agrees_example : (winner 2).leader_id ≡ (winner 3).leader_id
unfolding round poll check_response settle tally pick decide count_ballot handle_all scan_ticket
    scan_u64 is_space is_digit scan_digits eq_bytes
round-agrees_example =
    round-agrees 3 2 3 answers answers (candidate 2) (candidate 3) (winner 2) (winner 3)
      empty_ballots empty_ballots 3 3 refl refl agree

run_consensus-ne-fault_example : run_consensus 2 3 (answers ∷ []) (candidate 2) ≢ fault
run_consensus-ne-fault_example =
    run_consensus-ne-fault 2 3 (answers ∷ []) (candidate 2) (answers-Answers, tt)

in_range : InRange 4 ballots
in_range zero v e = absurd (ground arith)
in_range (suc zero) v e = ground arith
in_range (suc (suc zero)) v e = ground arith
in_range (suc (suc (suc zero))) v e = ground arith
in_range (suc (suc (suc (suc j)))) v e = absurd (ground arith)

settle-Majority_example : settle 2 3 (candidate 2, ballots) ≡ elected (winner 2) 3
unfolding ballots_for
settle-Majority_example =
    settle-Majority 2 3 (candidate 2) ballots 3 in_range
      record { from_one = omega arith; in_range = omega arith; most = omega arith }

-- The three masters ask one another.
run_consensus-elected_example :
    let voting = λ (i : ℕ). set_vote i (candidate i) in
    (decided : ℕ → Sentinel) × (held : ℕ → Ballots) × ((i : ℕ)
      → 1 ≤ i
      → i ≤ 3
      → round i 3 (asks (0, 0) (voting i) voting) (voting i) (replicate 4 none)
        ≡ again (decided i) (held i))
    × ((i : ℕ)
        → 1 ≤ i
        → i ≤ 3
        → run_consensus i 3
            (asks (0, 0) (voting i) voting ∷ asks (0, 0) (decided i) decided ∷ [])
            (candidate i)
          ≡ elected
              record {
                status = if 3 == i then leader else follower;
                leader_id = 3;
                vote = 3;
                epoch = 4;
              }
              3)
run_consensus-elected_example =
    run_consensus-elected 3 4 (0, 0) candidate (omega arith) (omega arith) (omega arith)
      (λ i lo hi. refl)
