-- ===== src/Master/Sentinel/Locks/Tests.antt =====
-- The sentinel's own thread and its server's, where the first waits for the second.
use kyrin_box.Prelude.{suc, ◌≡◌, ◌⊎◌, refl, List, [], ◌∷◌}
use kyrin_box.Master.Sentinel.Locks.{
  status, vote, epoch, acquire, release, Operation, lose_leader, get_vote_ticket, program, run_all,
  Thread, exec, held_by_some, holds, same_lock, Step, starts, all_start, Reach, start, later,
}
use kyrin_box.Master.Sentinel.Locks.Progress.{Done, actions, Reach-goes_on}

abbrev operations : List (List Operation)
operations = (lose_leader ∷ []) ∷ ((get_vote_ticket ∷ []) ∷ [])

abbrev first : List Thread
first =
    record {
      held = status ∷ [];
      todo =
          acquire vote ∷ (acquire epoch ∷ (release epoch ∷ (release vote ∷ (release status ∷ []))));
    }
    ∷ (record {
      held = [];
      todo = acquire vote ∷ (acquire epoch ∷ (release vote ∷ (release epoch ∷ [])));
    }
        ∷ [])

abbrev waiting : List Thread
waiting =
    record {
      held = status ∷ [];
      todo =
          acquire vote ∷ (acquire epoch ∷ (release epoch ∷ (release vote ∷ (release status ∷ []))));
    }
    ∷ (record { held = vote ∷ []; todo = acquire epoch ∷ (release vote ∷ (release epoch ∷ [])) }
        ∷ [])

waiting_reached : Reach operations waiting
unfolding all_start starts run_all program exec held_by_some holds same_lock
waiting_reached =
    later {c = first}
      (later {c = all_start operations} start record {
        index = 0;
        before = starts (lose_leader ∷ []);
        after = record {
          held = status ∷ [];
          todo =
              acquire vote
              ∷ (acquire epoch ∷ (release epoch ∷ (release vote ∷ (release status ∷ []))));
        };
        at = refl;
        does = refl;
        result = refl;
      })
      record {
        index = 1;
        before = starts (get_vote_ticket ∷ []);
        after = record {
          held = vote ∷ [];
          todo = acquire epoch ∷ (release vote ∷ (release epoch ∷ []));
        };
        at = refl;
        does = refl;
        result = refl;
      }

Reach-goes_on_example :
    (Done waiting ⊎ (next : List Thread) × Step waiting next)
    × ((next : List Thread) → Step waiting next → actions waiting ≡ suc (actions next))
Reach-goes_on_example = Reach-goes_on operations waiting waiting_reached
