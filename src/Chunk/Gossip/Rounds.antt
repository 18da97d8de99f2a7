-- ===== src/Chunk/Gossip/Rounds.antt =====
-- What a chunk server's own rounds and the requests of the others keep of its status.
use kyrin_box.Prelude.{
  ℕ, zero, suc, ◌+◌, ◌≡◌, sym, ap, subst, inl, inr, true, not, ◌&&◌, List, [], ◌∷◌, Bytes, ℤ, pos,
  negsuc, ltb, ◌==◌, eq_bytes, text, Bool-cases, Option-cases,
}
use kyrin_box.Common.Base64.{base64_encode, base64_decode}
use kyrin_box.Io.Codec.{Codec, or_empty}
use kyrin_box.Io.HttpClient.{make_request_post}
use kyrin_box.Io.HttpClient.Failure.{post-fails}
use kyrin_box.Server.Base.{Request, server_get_postdata}
use kyrin_box.Chunk.Status.{
  Config, ChunkStatus, GossipData, ClusterStatus, empty_status, check_commons, get_config,
  from_string,
}
use kyrin_box.Chunk.Status.Random.{
  get_random_seed, get_random_common, get_random_dead_seed, get_random_dead_common,
}
use kyrin_box.Chunk.Status.Members.{IsValid, set_dead-IsValid, check_commons-IsValid}
use kyrin_box.Chunk.Status.Exchange.{from_string-parsed}
use kyrin_box.Chunk.Gossip.{
  World, post_loop, mark, adopt, greeted, gossip_with, gossip_round, handle_request,
}

-- A text that reads as a valid status, or as none.
abbrev pub Good : Codec ClusterStatus → Bytes → Type 0
Good codec b =
    (t : ChunkStatus) → from_string codec (base64_decode b) empty_status ≡ (t, true) → IsValid t

-- Whoever answers, answers with a valid status.
pub record Honest (codec : Codec ClusterStatus) (w : World) : Type 0 where
  pub answers :
      (retry : ℕ) (c : Config) (to_post : Bytes)
      → Good codec
          (make_request_post (w.curls retry) c.host c.gossip_port (text "/GetStatus") [] to_post).1

post_loop-Good :
    (codec : Codec ClusterStatus) (w : World) (c : Config) (to_post : Bytes) (n retry : ℕ)
    → Honest codec w
    → Good codec (post_loop w.curls c to_post n retry []).1
unfolding post_loop
post_loop-Good codec w c to_post zero retry h = h.answers retry c to_post
post_loop-Good codec w c to_post (suc n) retry h =
    let answer =
      make_request_post (w.curls retry) c.host c.gossip_port (text "/GetStatus") [] to_post in
    let good = h.answers retry c to_post in
    let more = post_loop-Good codec w c to_post n (retry + 1) h in
    elim (Bool-cases answer.0) [
      | inl sent ↦ rw (sent, post_loop) good
      | inr failed ↦
          let empty : answer.1 ≡ [] =
            post-fails (w.curls retry) c.host c.gossip_port (text "/GetStatus") [] to_post failed in
          rw (failed, post_loop)
            (subst (λ r. Good codec (post_loop w.curls c to_post n (retry + 1) r).1) (sym empty)
              more)
    ]

mark-IsValid :
    (kbid : ℕ) (flag : ℤ) (retry now : ℕ) (s : ChunkStatus)
    → IsValid s
    → IsValid (mark kbid flag retry now s)
unfolding mark
mark-IsValid kbid (pos n) retry now s v = elim (Bool-cases (retry == 3 && not (n == 0))) [
  | inl dead ↦ rw dead (set_dead-IsValid kbid (pos n) now s v).0
  | inr kept ↦ rw kept v
]
mark-IsValid kbid (negsuc n) retry now s v = elim (Bool-cases (ltb retry 3)) [
  | inl alive ↦ rw alive (set_dead-IsValid kbid (negsuc n) now s v).1
  | inr kept ↦ rw kept v
]

adopt-IsValid :
    (codec : Codec ClusterStatus) (response : Bytes) (s : ChunkStatus)
    → Good codec response
    → IsValid s
    → IsValid (adopt codec (base64_decode response) s)
unfolding adopt
adopt-IsValid codec response s g v =
    let read = from_string codec (base64_decode response) empty_status in
    elim (Bool-cases read.1) [
      | inr unread ↦ rw (unread, adopt) v
      | inl parsed ↦
          let peer : IsValid read.0 = g read.0 (ap (λ b. (read.0, b)) parsed) in
          let same = from_string-parsed codec (base64_decode response) empty_status s parsed in
          elim (Bool-cases (ltb s.timestamp read.0.timestamp)) [
            | inl later ↦ rw (parsed, later, same, adopt) peer
            | inr older ↦ rw (parsed, older, adopt) v
          ]
    ]

greeted-IsValid :
    (hellos : List (GossipData × ℕ)) (s : ChunkStatus) → IsValid s → IsValid (greeted hellos s)
unfolding greeted
greeted-IsValid [] s v = v
greeted-IsValid ((hello, now) ∷ hellos) s v =
    greeted-IsValid hellos (check_commons hello now s).0 (check_commons-IsValid hello now s v)

gossip_with-IsValid :
    (codec : Codec ClusterStatus) (data_codec : Codec GossipData) (self : GossipData) (w : World)
    (kbid : ℕ) (flag : ℤ) (s : ChunkStatus)
    → Honest codec w
    → IsValid s
    → IsValid (gossip_with codec data_codec self w kbid flag s)
unfolding gossip_with
gossip_with-IsValid codec data_codec self w kbid flag s h v = elim (Bool-cases (kbid == 0)) [
  | inl nobody ↦ rw nobody v
  | inr somebody ↦ elim (Option-cases (get_config kbid s)) [
    | inl unknown ↦ rw (somebody, unknown) v
    | inr (c, known) ↦
        let to_post = base64_encode (or_empty (data_codec.serialize self)) in
        let (retry, response) = post_loop w.curls c to_post 3 0 [] in
        let marked =
          mark-IsValid kbid flag retry w.now (greeted w.during s) (greeted-IsValid w.during s v) in
        let s' = mark kbid flag retry w.now (greeted w.during s) in
        let adopted =
          adopt-IsValid codec response (greeted w.late s') (post_loop-Good codec w c to_post 3 0 h)
            (greeted-IsValid w.late s' marked) in
        elim (Bool-cases (retry == 3)) [
          | inl failed ↦ rw (somebody, known, failed) marked
          | inr answered ↦ rw (somebody, known, answered) adopted
        ]
  ]
]

-- The status of a chunk server stays valid, each server being listed once at most and only with an
-- entry in the map, in a round of gossip with whichever servers the drawn numbers hit, whatever
-- requests fail and whoever answers with a valid status; and in every request of another server.
pub gossip-IsValid :
    (codec : Codec ClusterStatus) (data_codec : Codec GossipData) (self : GossipData)
    (w : ℕ → World) (rand : ℕ → ℕ) (now : ℕ) (req : Request) (s : ChunkStatus)
    → ((i : ℕ) → Honest codec (w i))
    → IsValid s
    → IsValid (gossip_round codec data_codec self w rand s)
      × IsValid (handle_request codec data_codec now req s).1
unfolding gossip_round handle_request
gossip-IsValid codec data_codec self w rand now req s h v = (
  (let seed = get_random_seed (rand 0) s in
      let common = get_random_common (rand 1) s in
      let dead_seed = get_random_dead_seed (rand 2) s in
      let dead_common = get_random_dead_common (rand 3) s in
      let s1 = gossip_with codec data_codec self (w 0) seed (pos 1) s in
      let s2 = gossip_with codec data_codec self (w 1) common (pos 2) s1 in
      let s3 = gossip_with codec data_codec self (w 2) dead_seed (negsuc 0) s2 in
      let v1 = gossip_with-IsValid codec data_codec self (w 0) seed (pos 1) s (h 0) v in
      let v2 = gossip_with-IsValid codec data_codec self (w 1) common (pos 2) s1 (h 1) v1 in
      let v3 = gossip_with-IsValid codec data_codec self (w 2) dead_seed (negsuc 0) s2 (h 2) v2 in
      gossip_with-IsValid codec data_codec self (w 3) dead_common (negsuc 1) s3 (h 3) v3),
  elim (Option-cases (server_get_postdata req)) [
    | inl unread ↦ rw (unread, handle_request) v
    | inr (body, read) ↦ elim (Bool-cases (eq_bytes body (text "Read"))) [
      | inl asked ↦ rw (read, asked, handle_request) v
      | inr hello ↦ elim (Bool-cases (data_codec.parse (base64_decode body)).0) [
        | inl parsed ↦
            rw (read, hello, parsed, handle_request)
              (check_commons-IsValid (data_codec.parse (base64_decode body)).1 now s v)
        | inr unparsed ↦ rw (read, hello, unparsed, handle_request) v
      ]
    ]
  ],
)
