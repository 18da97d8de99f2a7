-- ===== src/Master/Sentinel.antt =====
-- server/master/kyrin_master_sentinel.cc and kyrin_master_sentinel_server.cc: the election.
-- A kbid is a number from 1 up. The locks guard single fields, so a vote request can be handled
-- between any two steps of a poll: the requests that come in are part of the environment.
pub mod Tally
pub mod Quorum
pub mod Rounds
pub mod Machine
pub mod Network
pub mod Locks
pub mod Answered
pub mod Election
pub mod Liveness
mod Tests
use kyrin_box.Prelude.{
  ℕ, zero, suc, ◌+◌, ◌-◌, ◌/◌, ◌%◌, ◌^◌, Bool, true, false, not, ◌&&◌, ◌||◌, Option, none, some,
  List, [], ◌∷◌, Bytes, ltb, leb, ◌==◌, if◌then◌else◌, eq_bytes, text, replicate, get_elem?, set,
}
use kyrin_box.Common.Decimal.{print_ticket, scan_ticket}
use kyrin_box.Io.Retry.{retry_loop}

-- `KyrinMasterStatus`
pub data Status : Type 0 where
  leader follower consensus : Status

-- `m_status`, `m_leader`, `m_vote` and `m_epoch`
pub record Sentinel : Type 0 where
  pub status : Status
  pub leader_id : ℕ
  pub vote : ℕ
  pub epoch : ℕ

-- `start_sentinel`: the results of the two `pthread_create`s are given.
unfoldable pub start_sentinel : Sentinel → ℕ → Bool → Bool → Sentinel × Bool
start_sentinel s kbid server_thread sync_thread =
    (record s { epoch = 0; leader_id = kbid; status = consensus }, server_thread && sync_thread)

pub get_vote_ticket : Sentinel → Bytes
get_vote_ticket s = print_ticket s.epoch s.vote

pub get_epoch : Sentinel → ℕ
get_epoch s = s.epoch

pub set_epoch : ℕ → Sentinel → Sentinel
set_epoch epoch s = record s { epoch = epoch }

pub get_vote : Sentinel → ℕ
get_vote s = s.vote

pub set_vote : ℕ → Sentinel → Sentinel
set_vote vote s = record s { vote = vote }

pub get_leader : Sentinel → ℕ
get_leader s = s.leader_id

pub set_leader : ℕ → Sentinel → Sentinel
set_leader id s = record s { leader_id = id }

pub get_status : Sentinel → Status
get_status s = s.status

pub set_status : Status → Sentinel → Sentinel
set_status status s = record s { status = status }

-- `get_sentinel_status_handler`
pub status_reply : Sentinel → Bytes
unfolding get_status
status_reply s = elim (get_status s) [
  | leader ↦ text "leader"
  | follower ↦ text "follower"
  | consensus ↦ text "consensus"
]

-- `get_sentinel_vote_handler`: `body` is the post data, the empty text where it cannot be read, and
-- `old` is what the uninitialised `epoch` and `vote` hold.
pub vote_handler : ℕ → ℕ × ℕ → Bytes → Sentinel → Sentinel × Bytes
unfolding get_epoch set_epoch set_vote set_status get_vote_ticket
vote_handler kbid old body s =
    let epoch = (scan_ticket old body).0 in
    let s' =
      if ltb (get_epoch s) epoch
      then set_status consensus (set_vote kbid (set_epoch epoch s))
      else s in
    (s', get_vote_ticket s')

-- What a round of polling meets at each master: the vote requests that this master's own server
-- handles before the answer is processed, the answer, and the uninitialised variables.
pub record Poll : Type 0 where
  pub before : List Bytes
  pub answer : Bytes
  pub old : ℕ × ℕ

pub handle_all : ℕ → ℕ × ℕ → List Bytes → Sentinel → Sentinel
handle_all kbid old [] s = s
handle_all kbid old (body ∷ bodies) s = handle_all kbid old bodies (vote_handler kbid old body s).0

-- `check_response`
pub check_response : Bytes → Bool
check_response response = not (eq_bytes response [])

-- `votes[i].second`, where `voted[i]`: a ballot is `none` while `voted[i]` is false.
abbrev pub Ballots : Type 0
Ballots = List (Option ℕ)

-- `for (uint32_t i=1; i <= master_count; i++)` of the requests, with `n` masters left. An answer of
-- another epoch ends the loop.
pub poll : ℕ → ℕ → ℕ → (ℕ → Poll) → Sentinel → Ballots → Sentinel × Ballots
unfolding check_response
poll kbid zero i env s ballots = (s, ballots)
poll kbid (suc n) i env s ballots =
    let e = env i in
    let s' = handle_all kbid e.old e.before s in
    let (epoch, vote) = scan_ticket e.old e.answer in
    let skip = poll kbid n (i + 1) env s' ballots in
    let count = poll kbid n (i + 1) env s' (set ballots i (some vote)) in
    if check_response e.answer
    then if epoch == s'.epoch
      then count
      else (record s' { leader_id = kbid; epoch = epoch }, ballots)
    else skip

abbrev pub ballot : Ballots → ℕ → Option ℕ
ballot b i = elim (get_elem? b i) [ none ↦ none | some o ↦ o ]

-- `vote_result[votes[i].second]++`; `none` is a write out of the vector's bounds.
pub count_ballot : Option ℕ → List ℕ → Option (List ℕ)
count_ballot none result = some result
count_ballot (some v) result = elim (get_elem? result v) [
  | none ↦ none
  | some c ↦ some (set result v (c + 1))
]

pub tally : Ballots → ℕ → ℕ → List ℕ → Option (List ℕ)
unfolding count_ballot
tally b zero i result = some result
tally b (suc n) i result = elim (count_ballot (ballot b i) result) [
  | none ↦ none
  | some r ↦ tally b n (i + 1) r
]

abbrev pub votes_of : List ℕ → ℕ → ℕ
votes_of result i = elim (get_elem? result i) [ none ↦ 0 | some c ↦ c ]

-- The last loop: the leader and `max_candidate`, where -1 is `none`.
pub pick : ℕ → List ℕ → ℕ → ℕ → Option ℕ × Option ℕ → Option ℕ × Option ℕ
pick master_count result zero i found = found
pick master_count result (suc n) i (chosen, candidate) = pick master_count result n (i + 1) (
  (if leb (master_count / 2 + 1) (votes_of result i) then some i else chosen),
  (if votes_of result i == 0 then candidate else some i),
)

-- What a round of the `while (true)` comes to: it goes on, or it left the loop, with a leader or
-- (`unexpected candidate`) without one; `fault` is the write out of bounds.
pub data Outcome : Type 0 where
  again : Sentinel → Ballots → Outcome
  elected : Sentinel → ℕ → Outcome
  abandoned : Sentinel → Outcome
  fault : Outcome

pub decide : ℕ → Sentinel → Ballots → Option ℕ × Option ℕ → Outcome
decide kbid s b (chosen, none) = abandoned s
decide kbid s b (none, some candidate) = again (record s { vote = candidate }) b
decide kbid s b (some id, some candidate) =
    elected (record s { leader_id = id; status = if id == kbid then leader else follower }) id

-- What a round does with the ballots that it has.
pub settle : ℕ → ℕ → Sentinel × Ballots → Outcome
unfolding tally pick decide
settle kbid master_count (s, b) = elim (tally b master_count 1 (replicate (master_count + 1) 0)) [
  | none ↦ fault
  | some result ↦ decide kbid s b (pick master_count result master_count 1 (none, none))
]

pub round : ℕ → ℕ → (ℕ → Poll) → Sentinel → Ballots → Outcome
round kbid master_count env s b = settle kbid master_count (poll kbid master_count 1 env s b)

-- The `while (true)` over the rounds that the environment gives.
pub rounds : ℕ → ℕ → List (ℕ → Poll) → Sentinel → Ballots → Outcome
rounds kbid master_count [] s b = again s b
rounds kbid master_count (env ∷ envs) s b = elim (round kbid master_count env s b) [
  | again s' b' ↦ rounds kbid master_count envs s' b'
  | other ↦ other
]

-- The case `k_status_consensus` from its beginning.
pub run_consensus : ℕ → ℕ → List (ℕ → Poll) → Sentinel → Outcome
unfolding set_vote
run_consensus kbid master_count envs s =
    rounds kbid master_count envs (set_vote kbid s) (replicate (master_count + 1) none)

-- The case `k_status_follower`: the leader is asked for its status, up to four times.
pub follow : ℕ → List Bool → Sentinel → Sentinel
follow kbid answers s =
    if retry_loop 3 0 answers == 3
    then record s { status = consensus; epoch = (s.epoch + 1) % 2 ^ 64; vote = kbid }
    else s
