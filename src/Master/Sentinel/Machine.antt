-- ===== src/Master/Sentinel/Machine.antt =====
-- server/master/kyrin_master_sentinel.cc: the loop of `sentinel_sync` as a step relation, with the
-- vote requests that the sentinel's server handles between any two of its steps.
pub mod Roles
pub mod Rounds
mod Tests
use kyrin_box.Prelude.{
  ℕ, ◌+◌, ◌≤◌, ◌<◌, ◌≡◌, ◌==◌, Bool, Option, none, some, List, Bytes, replicate, set, if◌then◌else◌,
}
use kyrin_box.Common.Decimal.{scan_ticket}
use kyrin_box.Master.Sentinel.{
  Status, leader, follower, consensus, Sentinel, start_sentinel, set_vote, vote_handler,
  check_response, Ballots, settle, again, elected, abandoned, follow,
}

-- Where the thread stands: at the head of the loop, behind the test of the status, in the loop over
-- the masters before the master that is asked next, or behind it.
pub data Place : Type 0 where
  head following starting : Place
  polling : ℕ → Ballots → Place
  tallying : Ballots → Place

-- The local `leader` is `none` for -1.
pub record Thread : Type 0 where
  pub sentinel : Sentinel
  pub chosen : Option ℕ
  pub place : Place

-- What is done with the answer of the master `i`: an answer of another epoch ends the loop.
unfoldable pub answered : ℕ → ℕ → ℕ × ℕ → Bytes → Ballots → Sentinel → Sentinel × Place
unfolding check_response
answered kbid i old answer b s =
    let (epoch, vote) = scan_ticket old answer in
    if check_response answer
    then if epoch == s.epoch
      then (s, polling (i + 1) (set b i (some vote)))
      else (record s { leader_id = kbid; epoch = epoch }, tallying b)
    else (s, polling (i + 1) b)

pub data Step (kbid m : ℕ) (c d : Thread) : Type 0 where
  request :
      (old : ℕ × ℕ) (body : Bytes)
      → d ≡ record c { sentinel = (vote_handler kbid old body c.sentinel).0 }
      → Step kbid m c d
  rest : c.place ≡ head → c.sentinel.status ≡ leader → d ≡ c → Step kbid m c d
  lose :
      c.place ≡ head
      → c.sentinel.status ≡ follower
      → d ≡ record c { place = following }
      → Step kbid m c d
  ask :
      (answers : List Bool)
      → c.place ≡ following
      → d ≡ record c { sentinel = follow kbid answers c.sentinel; place = head }
      → Step kbid m c d
  run :
      c.place ≡ head
      → c.sentinel.status ≡ consensus
      → d ≡ record c { place = starting }
      → Step kbid m c d
  begin :
      c.place ≡ starting
      → d ≡ record c {
        sentinel = set_vote kbid c.sentinel;
        place = polling 1 (replicate (m + 1) none);
      }
      → Step kbid m c d
  hear :
      (i : ℕ) (b : Ballots) (old : ℕ × ℕ) (answer : Bytes)
      → c.place ≡ polling i b
      → i ≤ m
      → d ≡ record c {
        sentinel = (answered kbid i old answer b c.sentinel).0;
        place = (answered kbid i old answer b c.sentinel).1;
      }
      → Step kbid m c d
  gathered :
      (i : ℕ) (b : Ballots)
      → c.place ≡ polling i b
      → m < i
      → d ≡ record c { place = tallying b }
      → Step kbid m c d
  retry :
      (b b' : Ballots) (s : Sentinel)
      → c.place ≡ tallying b
      → settle kbid m (c.sentinel, b) ≡ again s b'
      → d ≡ record { sentinel = s; chosen = none; place = polling 1 b' }
      → Step kbid m c d
  win :
      (b : Ballots) (s : Sentinel) (id : ℕ)
      → c.place ≡ tallying b
      → settle kbid m (c.sentinel, b) ≡ elected s id
      → d ≡ record { sentinel = s; chosen = some id; place = head }
      → Step kbid m c d
  give_up :
      (b : Ballots) (s : Sentinel)
      → c.place ≡ tallying b
      → settle kbid m (c.sentinel, b) ≡ abandoned s
      → d ≡ record { sentinel = s; chosen = none; place = head }
      → Step kbid m c d

unfoldable pub begins : ℕ → Sentinel → Thread
begins kbid s = record {
  sentinel = (start_sentinel s kbid Bool.true Bool.true).0;
  chosen = none;
  place = head;
}

pub data Reach (kbid m : ℕ) : Thread → Type 0 where
  start : (s : Sentinel) → Reach kbid m (begins kbid s)
  later : {c d : Thread} → Reach kbid m c → Step kbid m c d → Reach kbid m d
