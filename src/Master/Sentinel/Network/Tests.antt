-- ===== src/Master/Sentinel/Network/Tests.antt =====
-- Three masters, two of which come to lead in one epoch: the first one votes for the second and,
-- after its own answer and the third one's were lost once, for the third.
use kyrin_box.Prelude.{ℕ, ◌≤◌, ◌≡◌, refl, inl, inr, none, some, [], ◌∷◌, text, eq_bytes, arith}
use kyrin_box.Common.Decimal.{print_ticket, scan_ticket, scan_u64, is_space, is_digit, scan_digits}
use kyrin_box.Master.Sentinel.{consensus, leader, Sentinel, start_sentinel, set_vote, settle}
use kyrin_box.Master.Sentinel.Machine.{answered, begins, run, begin, hear, gathered, retry, win}
use kyrin_box.Master.Sentinel.Network.{Network, make, act, starts, Reachable, boot, turn}
use kyrin_box.Master.Sentinel.Network.Votes.{Voted}
use kyrin_box.Master.Sentinel.Network.Agreement.{leaders-Voted}

abbrev fresh : ℕ → Sentinel
fresh i = record { status = consensus; leader_id = 0; vote = 0; epoch = 0 }

-- A reachable network of three.
record Run : Type 0 where
  last : Network
  reached : Reachable 3 last

abbrev booted : Run
booted = record { last = starts fresh; reached = boot fresh }

begun : Run
unfolding begins start_sentinel set_vote answered settle scan_ticket scan_u64 is_space is_digit
    scan_digits print_ticket eq_bytes
begun = record {
  last = _;
  reached =
      turn
        (turn
          (turn
            (turn
              (turn
                (turn
                  (turn
                    (turn
                      (turn (booted.reached)
                        (act 1 _ (run refl refl refl) (omega arith) (omega arith) tt refl))
                      (act 1 _ (begin refl refl) (omega arith) (omega arith) tt refl))
                    (act 2 _ (run refl refl refl) (omega arith) (omega arith) tt refl))
                  (act 2 _ (begin refl refl) (omega arith) (omega arith) tt refl))
                (act 3 _ (run refl refl refl) (omega arith) (omega arith) tt refl))
              (act 3 _ (begin refl refl) (omega arith) (omega arith) tt refl))
            (make 3 (omega arith) (omega arith) refl))
          (make 2 (omega arith) (omega arith) refl))
        (make 1 (omega arith) (omega arith) refl);
}

first_votes_second : Run
unfolding begins start_sentinel set_vote answered settle scan_ticket scan_u64 is_space is_digit
    scan_digits print_ticket eq_bytes begun
first_votes_second = record {
  last = _;
  reached =
      turn
        (turn
          (turn
            (turn
              (turn
                (turn (begun.reached) (
                  act 1 _
                    (hear 1 (none ∷ none ∷ none ∷ none ∷ []) (0, 0) (text "0 1") refl (omega arith)
                      refl)
                    (omega arith) (omega arith) (inr (inl (refl, refl))) refl))
                (act 1 _
                  (hear 2 (none ∷ some 1 ∷ none ∷ none ∷ []) (0, 0) (text "0 2") refl (omega arith)
                    refl)
                  (omega arith) (omega arith) (inr (inr (inl (refl, refl)))) refl))
              (act 1 _
                (hear 3 (none ∷ some 1 ∷ some 2 ∷ none ∷ []) (0, 0) [] refl (omega arith) refl)
                (omega arith) (omega arith) (inl refl) refl))
            (act 1 _ (gathered 4 (none ∷ some 1 ∷ some 2 ∷ none ∷ []) refl (omega arith) refl)
              (omega arith) (omega arith) tt refl))
          (act 1 _ (retry (none ∷ some 1 ∷ some 2 ∷ none ∷ []) _ _ refl refl refl) (omega arith)
            (omega arith) tt refl))
        (make 1 (omega arith) (omega arith) refl);
}

second_leads : Run
unfolding begins start_sentinel set_vote answered settle scan_ticket scan_u64 is_space is_digit
    scan_digits print_ticket eq_bytes first_votes_second
second_leads = record {
  last = _;
  reached =
      turn
        (turn
          (turn
            (turn
              (turn (first_votes_second.reached) (
                act 2 _
                  (hear 1 (none ∷ none ∷ none ∷ none ∷ []) (0, 0) (text "0 2") refl (omega arith)
                    refl)
                  (omega arith) (omega arith) (inr (inl (refl, refl))) refl))
              (act 2 _
                (hear 2 (none ∷ some 2 ∷ none ∷ none ∷ []) (0, 0) (text "0 2") refl (omega arith)
                  refl)
                (omega arith) (omega arith) (inr (inr (inr (inl (refl, refl))))) refl))
            (act 2 _ (hear 3 (none ∷ some 2 ∷ some 2 ∷ none ∷ []) (0, 0) [] refl (omega arith) refl)
              (omega arith) (omega arith) (inl refl) refl))
          (act 2 _ (gathered 4 (none ∷ some 2 ∷ some 2 ∷ none ∷ []) refl (omega arith) refl)
            (omega arith) (omega arith) tt refl))
        (act 2 _ (win (none ∷ some 2 ∷ some 2 ∷ none ∷ []) _ 2 refl refl refl) (omega arith)
          (omega arith) tt refl);
}

first_votes_third : Run
unfolding begins start_sentinel set_vote answered settle scan_ticket scan_u64 is_space is_digit
    scan_digits print_ticket eq_bytes second_leads
first_votes_third = record {
  last = _;
  reached =
      turn
        (turn
          (turn
            (turn
              (turn
                (turn (second_leads.reached) (
                  act 1 _
                    (hear 1 (none ∷ some 1 ∷ some 2 ∷ none ∷ []) (0, 0) [] refl (omega arith) refl)
                    (omega arith) (omega arith) (inl refl) refl))
                (act 1 _
                  (hear 2 (none ∷ some 1 ∷ some 2 ∷ none ∷ []) (0, 0) [] refl (omega arith) refl)
                  (omega arith) (omega arith) (inl refl) refl))
              (act 1 _
                (hear 3 (none ∷ some 1 ∷ some 2 ∷ none ∷ []) (0, 0) (text "0 3") refl (omega arith)
                  refl)
                (omega arith) (omega arith) (inr (inr (inr (inr (inl (refl, refl)))))) refl))
            (act 1 _ (gathered 4 (none ∷ some 1 ∷ some 2 ∷ some 3 ∷ []) refl (omega arith) refl)
              (omega arith) (omega arith) tt refl))
          (act 1 _ (retry (none ∷ some 1 ∷ some 2 ∷ some 3 ∷ []) _ _ refl refl refl) (omega arith)
            (omega arith) tt refl))
        (make 1 (omega arith) (omega arith) refl);
}

third_leads : Run
unfolding begins start_sentinel set_vote answered settle scan_ticket scan_u64 is_space is_digit
    scan_digits print_ticket eq_bytes first_votes_third
third_leads = record {
  last = _;
  reached =
      turn
        (turn
          (turn
            (turn
              (turn (first_votes_third.reached) (
                act 3 _
                  (hear 1 (none ∷ none ∷ none ∷ none ∷ []) (0, 0) (text "0 3") refl (omega arith)
                    refl)
                  (omega arith) (omega arith) (inr (inl (refl, refl))) refl))
              (act 3 _ (hear 2 (none ∷ some 3 ∷ none ∷ none ∷ []) (0, 0) [] refl (omega arith) refl)
                (omega arith) (omega arith) (inl refl) refl))
            (act 3 _
              (hear 3 (none ∷ some 3 ∷ none ∷ none ∷ []) (0, 0) (text "0 3") refl (omega arith)
                refl)
              (omega arith) (omega arith) (inr (inr (inr (inr (inr (inl (refl, refl))))))) refl))
          (act 3 _ (gathered 4 (none ∷ some 3 ∷ none ∷ some 3 ∷ []) refl (omega arith) refl)
            (omega arith) (omega arith) tt refl))
        (act 3 _ (win (none ∷ some 3 ∷ none ∷ some 3 ∷ []) _ 3 refl refl refl) (omega arith)
          (omega arith) tt refl);
}

two_leaders :
    let n = third_leads.last in
    ((n.threads 2).sentinel ≡ record { status = leader; leader_id = 2; vote = 2; epoch = 0 })
    × ((n.threads 3).sentinel ≡ record { status = leader; leader_id = 3; vote = 3; epoch = 0 })
unfolding third_leads
two_leaders = (refl, refl)

leaders-Voted_example :
    let n = third_leads.last in
    (k : ℕ) × (1 ≤ k) × (k ≤ 3) × Voted n.tickets k 2 × Voted n.tickets k 3
unfolding third_leads
leaders-Voted_example =
    leaders-Voted 3 2 3 third_leads.last third_leads.reached (λ e. absurd (ground arith))
      (λ e. absurd (ground arith))
