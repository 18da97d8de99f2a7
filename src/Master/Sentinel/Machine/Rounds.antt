-- ===== src/Master/Sentinel/Machine/Rounds.antt =====
-- The rounds of Sentinel are runs of the machine.
use kyrin_box.Prelude.{
  ℕ, zero, suc, ◌+◌, ◌≡◌, refl, Option, some, List, [], ◌∷◌, Bytes, set, ◌==◌, inl, inr, Bool-cases,
  arith,
}
use kyrin_box.Common.Decimal.{scan_ticket}
use kyrin_box.Master.Sentinel.{
  Sentinel, vote_handler, handle_all, check_response, Poll, Ballots, poll,
}
use kyrin_box.Master.Sentinel.Machine.{
  Place, polling, tallying, Thread, request, hear, gathered, answered, Reach, later,
}

abbrev pub at : Sentinel → Option ℕ → Place → Thread
at s o p = record { sentinel = s; chosen = o; place = p }

handle_all-Reach :
    (kbid m : ℕ) (old : ℕ × ℕ) (bodies : List Bytes) (s : Sentinel) (o : Option ℕ) (p : Place)
    → Reach kbid m (at s o p)
    → Reach kbid m (at (handle_all kbid old bodies s) o p)
unfolding handle_all
handle_all-Reach kbid m old [] s o p r = r
handle_all-Reach kbid m old (body ∷ bodies) s o p r =
    let t = (vote_handler kbid old body s).0 in
    handle_all-Reach kbid m old bodies t o p (later r (request old body refl))

-- From where the master `i` is asked next, the thread can reach what `poll` gives for the masters
-- that are left, for all requests that come in and all answers.
pub poll-Reach :
    (kbid m n i : ℕ) (env : ℕ → Poll) (s : Sentinel) (b : Ballots) (o : Option ℕ)
    → i + n ≡ m + 1
    → Reach kbid m (at s o (polling i b))
    → let (t, b') = poll kbid n i env s b in Reach kbid m (at t o (tallying b'))
unfolding poll answered
poll-Reach kbid m zero i env s b o h r = later r (gathered i b refl (omega arith) refl)
poll-Reach kbid m (suc n) i env s b o h r =
    let e = env i in
    let s' = handle_all kbid e.old e.before s in
    let (epoch, vote) = scan_ticket e.old e.answer in
    let heard =
      later (handle_all-Reach kbid m e.old e.before s o (polling i b) r)
        (hear i b e.old e.answer refl (omega arith) refl) in
    elim (Bool-cases (check_response e.answer)) [
      | inr quiet ↦
          rw (quiet, poll)
            (poll-Reach kbid m n (i + 1) env s' b o (omega arith) (rw (quiet, answered) at heard))
      | inl there ↦ elim (Bool-cases (epoch == s'.epoch)) [
        | inl same ↦
            rw (there, same, poll)
              (poll-Reach kbid m n (i + 1) env s' (set b i (some vote)) o (omega arith)
                (rw (there, same, answered) at heard))
        | inr other ↦ rw (there, other, poll) (rw (there, other, answered) at heard)
      ]
    ]
