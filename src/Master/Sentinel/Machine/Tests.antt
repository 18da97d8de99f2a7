-- ===== src/Master/Sentinel/Machine/Tests.antt =====
-- A run of the loop: the second of two masters polls, follows the first and asks it.
use kyrin_box.Prelude.{ℕ, refl, none, some, [], ◌∷◌, text, eq_bytes}
use kyrin_box.Common.Decimal.{scan_ticket, scan_u64, is_space, is_digit, scan_digits}
use kyrin_box.Master.Sentinel.{
  handle_all, consensus, follower, Sentinel, Poll, Ballots, start_sentinel, set_vote, poll, settle,
}
use kyrin_box.Master.Sentinel.Machine.{
  Thread, following, polling, tallying, Reach, start, later, run, begin, win, lose, begins,
}
use kyrin_box.Master.Sentinel.Machine.Rounds.{at, poll-Reach}
use kyrin_box.Master.Sentinel.Machine.Roles.{IsSound, Reach-IsSound}

abbrev answers : ℕ → Poll
answers i = record { before = []; answer = text "0 1"; old = (0, 0) }

abbrev fresh : Sentinel
fresh = record { status = consensus; leader_id = 2; vote = 0; epoch = 0 }

abbrev second : Sentinel
second = record { status = consensus; leader_id = 2; vote = 2; epoch = 0 }

abbrev full : Ballots
full = none ∷ some 1 ∷ some 1 ∷ []

abbrev won : Sentinel
won = record { status = follower; leader_id = 1; vote = 2; epoch = 0 }

abbrev asks : Thread
asks = record { sentinel = won; chosen = some 1; place = following }

begun : Reach 2 2 (at second none (polling 1 (none ∷ none ∷ none ∷ [])))
unfolding begins start_sentinel set_vote
begun = later (later (start fresh) (run refl refl refl)) (begin refl refl)

counted : Reach 2 2 (at second none (tallying full))
unfolding poll eq_bytes scan_ticket scan_u64 is_space is_digit scan_digits handle_all
counted = poll-Reach 2 2 2 1 answers second (none ∷ none ∷ none ∷ []) none refl begun

asks_reached : Reach 2 2 asks
unfolding settle
asks_reached = later (later counted (win full won 1 refl refl refl)) (lose refl refl refl)

Reach-IsSound_example : IsSound 2 2 asks
Reach-IsSound_example = Reach-IsSound 2 2 asks asks_reached
