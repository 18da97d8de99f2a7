-- ===== src/Chunk/Gossip.antt =====
-- server/chunk/kyrin_chunk_gossiper.cc and kyrin_chunk_gossiper_server.cc: how a chunk server
-- exchanges its status with the others.
pub mod Failures
pub mod Rounds
pub mod Agreement
mod Tests
use kyrin_box.Prelude.{
  ℕ, zero, suc, ◌+◌, Bool, true, false, not, ◌&&◌, ◌||◌, Option, none, some, List, [], ◌∷◌, Bytes,
  ℤ, pos, negsuc, ltb, ◌==◌, if◌then◌else◌, eq_bytes, text,
}
use kyrin_box.Common.Base64.{base64_encode, base64_decode}
use kyrin_box.Io.Codec.{Codec, or_empty}
use kyrin_box.Io.HttpClient.{Curl, make_request_post}
use kyrin_box.Server.Base.{
  Request, Reply, server_get_postdata, server_send_reply_ok, server_send_reply_bad,
}
use kyrin_box.Chunk.Status.{
  Config, ChunkStatus, GossipData, ClusterStatus, empty_status, initialize, check_commons,
  get_config, set_dead, set_alive, to_string, from_string,
}
use kyrin_box.Chunk.Status.Random.{
  get_random_seed, get_random_common, get_random_dead_seed, get_random_dead_common,
}

-- The use of libcurl in each of the tries, the first one given by 0, the time, and the hellos of
-- other servers that the server's thread takes up, each at its time: while the posts are made, and
-- between the mark and the comparison with the answer.
pub record World : Type 0 where
  pub curls : ℕ → Curl
  pub now : ℕ
  pub during : List (GossipData × ℕ)
  pub late : List (GossipData × ℕ)

-- `check_commons` for each of the hellos.
pub greeted : List (GossipData × ℕ) → ChunkStatus → ChunkStatus
greeted [] s = s
greeted ((hello, now) ∷ hellos) s = greeted hellos (check_commons hello now s).0

-- The loop of posts: the number of retries when it ends, and `response`. `n` is how many retries
-- are left.
pub post_loop : (ℕ → Curl) → Config → Bytes → ℕ → ℕ → Bytes → ℕ × Bytes
post_loop curls c to_post zero retry response = (
  retry,
  (make_request_post (curls retry) c.host c.gossip_port (text "/GetStatus") response to_post).1,
)
post_loop curls c to_post (suc n) retry response =
    let (sent, answer) =
      make_request_post (curls retry) c.host c.gossip_port (text "/GetStatus") response to_post in
    let again = post_loop curls c to_post n (retry + 1) answer in
    if sent then (retry, answer) else again

-- What the result of the loop says of the server that was asked.
pub mark : ℕ → ℤ → ℕ → ℕ → ChunkStatus → ChunkStatus
mark kbid (pos n) retry now s =
    if retry == 3 && not (n == 0) then set_dead kbid (pos n) now s else s
mark kbid (negsuc n) retry now s = if ltb retry 3 then set_alive kbid (negsuc n) now s else s

-- The status of the other server, if it is the later one.
pub adopt : Codec ClusterStatus → Bytes → ChunkStatus → ChunkStatus
adopt codec response s =
    let (t_status, parsed) = from_string codec response empty_status in
    if parsed
    then (if ltb s.timestamp t_status.timestamp then (from_string codec response s).0 else s)
    else s

-- The loop's body for one of the four servers. The comparison with the answer and its adoption are
-- one step.
pub gossip_with :
    Codec ClusterStatus → Codec GossipData → GossipData → World → ℕ → ℤ → ChunkStatus → ChunkStatus
unfolding post_loop mark adopt greeted
gossip_with codec data_codec self w kbid flag s =
    let to_post = base64_encode (or_empty (data_codec.serialize self)) in
    let asked : ChunkStatus = elim (get_config kbid s) [
      | none ↦ s
      | some c ↦
          let (retry, response) = post_loop w.curls c to_post 3 0 [] in
          let s' = mark kbid flag retry w.now (greeted w.during s) in
          if retry == 3 then s' else adopt codec (base64_decode response) (greeted w.late s')
    ] in
    if kbid == 0 then s else asked

-- One round of `gossip_sync`: the four servers are drawn before the first one is asked.
pub gossip_round :
    Codec ClusterStatus
    → Codec GossipData
    → GossipData
    → (ℕ → World)
    → (ℕ → ℕ)
    → ChunkStatus
    → ChunkStatus
unfolding gossip_with
gossip_round codec data_codec self w rand s =
    let seed = get_random_seed (rand 0) s in
    let common = get_random_common (rand 1) s in
    let dead_seed = get_random_dead_seed (rand 2) s in
    let dead_common = get_random_dead_common (rand 3) s in
    let s1 = gossip_with codec data_codec self (w 0) seed (pos 1) s in
    let s2 = gossip_with codec data_codec self (w 1) common (pos 2) s1 in
    let s3 = gossip_with codec data_codec self (w 2) dead_seed (negsuc 0) s2 in
    gossip_with codec data_codec self (w 3) dead_common (negsuc 1) s3

-- `start_gossip`: the results of the two `pthread_create`s are given, true where there is a thread,
-- and the status is set up behind the threads.
pub start_gossip :
    (ℕ → Config) → List ℕ × List ℕ → ℕ → Bool → Bool → ChunkStatus → ChunkStatus × Bool
start_gossip cluster (seeds, commons) now server_thread sync_thread s =
    if server_thread && sync_thread
    then (initialize cluster seeds commons 0 now s, true)
    else (s, false)

abbrev pub answer : Codec ClusterStatus → Request → ChunkStatus → Option Reply × ChunkStatus
answer codec req s = (server_send_reply_ok req (base64_encode (or_empty (to_string codec s))), s)

-- `KyrinChunkGossiperServer::handle_request`
pub handle_request :
    Codec ClusterStatus → Codec GossipData → ℕ → Request → ChunkStatus → Option Reply × ChunkStatus
handle_request codec data_codec now req s = elim (server_get_postdata req) [
  | none ↦ (server_send_reply_bad req (text "Can't read post"), s)
  | some body ↦
      let (parsed, send) = data_codec.parse (base64_decode body) in
      if eq_bytes body (text "Read")
      then answer codec req s
      else if parsed
      then answer codec req (check_commons send now s).0
      else (server_send_reply_bad req (text "Can't parse protobuf"), s)
]
