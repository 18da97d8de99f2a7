-- ===== src/Chunk/Gossip/Failures.antt =====
-- When a server is taken for dead.
use kyrin_box.Prelude.{
  ℕ, zero, suc, ◌+◌, ◌≡◌, ◌∙◌, refl, Bool, true, false, not, ◌&&◌, some, [], Bytes, pos, ◌==◌,
  if◌then◌else◌, text, arith, inl, inr, Bool-cases,
}
use kyrin_box.Common.Base64.{base64_encode, base64_decode}
use kyrin_box.Io.Codec.{Codec, or_empty}
use kyrin_box.Io.HttpClient.{Curl, make_request_post}
use kyrin_box.Io.HttpClient.Failure.{post-fails}
use kyrin_box.Chunk.Status.{Config, ChunkStatus, ClusterStatus, GossipData, get_config, set_dead}
use kyrin_box.Chunk.Gossip.{World, post_loop, mark, adopt, greeted, gossip_with}

-- Whether the tries from `r` on, of which there are `n`, all fail.
abbrev pub all_fail : (ℕ → Curl) → Config → Bytes → ℕ → ℕ → Bool
all_fail curls c to_post zero r = true
all_fail curls c to_post (suc n) r =
    not (make_request_post (curls r) c.host c.gossip_port (text "/GetStatus") [] to_post).0
    && all_fail curls c to_post n (r + 1)

post_loop-all_fail :
    (curls : ℕ → Curl) (c : Config) (to_post : Bytes) (n r t : ℕ)
    → t ≡ r + n
    → ((post_loop curls c to_post n r []).0 == t) ≡ all_fail curls c to_post n r
unfolding post_loop
post_loop-all_fail curls c to_post zero r t h = ground arith
post_loop-all_fail curls c to_post (suc n) r t h =
    elim (Bool-cases
      (make_request_post (curls r) c.host c.gossip_port (text "/GetStatus") [] to_post).0) [
        | inl sent ↦ rw sent (ground (arith, h))
        | inr fails ↦
            rw
              (
                fails,
                post-fails (curls r) c.host c.gossip_port (text "/GetStatus") [] to_post fails,
              )
              (post_loop-all_fail curls c to_post n (r + 1) t (omega arith))
      ]

-- A living server that is asked, a seed (1) or another one (2), is moved to the dead ones exactly if
-- the first three tries fail, whatever the fourth one gives; else the status is kept, or replaced by
-- the answer's if that is the later one. The hellos that come in meanwhile are taken up before.
pub gossip_with-set_dead :
    (codec : Codec ClusterStatus) (data_codec : Codec GossipData) (self : GossipData) (w : World)
    (kbid n : ℕ) (c : Config) (s : ChunkStatus)
    → (kbid == 0) ≡ false
    → get_config kbid s ≡ some c
    → let to_post = base64_encode (or_empty (data_codec.serialize self)) in
      let t = gossip_with codec data_codec self w kbid (pos (n + 1)) s in
      t ≡ (
        if all_fail w.curls c to_post 3 0
        then set_dead kbid (pos (n + 1)) w.now (greeted w.during s)
        else adopt codec
            (base64_decode (post_loop w.curls c to_post 3 0 []).1)
            (greeted w.late (greeted w.during s)))
unfolding gossip_with
gossip_with-set_dead codec data_codec self w kbid n c s other known =
    let to_post = base64_encode (or_empty (data_codec.serialize self)) in
    let lem = post_loop-all_fail w.curls c to_post 3 0 3 refl in
    let more : (n + 1 == 0) ≡ false = ground arith in
    elim (Bool-cases (all_fail w.curls c to_post 3 0)) [
      | inl fails ↦ let three = lem ∙ fails in rw (other, known, mark, three, fails, more)
      | inr sent ↦ let fewer = lem ∙ sent in rw (other, known, mark, fewer, sent)
    ]
