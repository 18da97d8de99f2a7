-- ===== src/Chunk/Gossip/Agreement.antt =====
-- Two chunk servers that ask one another come to agree.
mod Tests
use kyrin_box.Prelude.{
  ℕ, suc, ◌+◌, ◌<◌, ◌≡◌, ◌⊎◌, ◌∙◌, refl, sym, ap, subst, Bool, true, false, Option, some, [], Bytes,
  pos, ltb, ◌==◌, if◌then◌else◌, eq_bytes, text, All, inl, inr, Bool-cases, arith,
}
use kyrin_box.Common.Base64.{base64_encode, base64_decode}
use kyrin_box.Common.Base64.RoundTrip.{decode-encode}
use kyrin_box.Common.Base64.Printed.{c_str-encode}
use kyrin_box.Io.Codec.{Codec, or_empty}
use kyrin_box.Io.HttpClient.{make_request_post}
use kyrin_box.Server.Base.{Request, Reply, ok_reply, server_get_postdata, server_send_reply_ok}
use kyrin_box.Chunk.Status.{
  Config, ChunkStatus, ClusterStatus, GossipData, empty_status, get_config, find, check_commons,
  to_protobuf, to_string, from_string,
}
use kyrin_box.Chunk.Status.Exchange.{Ascending, from_string-protobuf, check_commons_known}
use kyrin_box.Chunk.Gossip.{World, post_loop, mark, adopt, greeted, gossip_with, handle_request}

-- The status that an asker with `s` holds when it has read `t`.
abbrev pub later : ChunkStatus → ChunkStatus → ChunkStatus
later s t = if ltb s.timestamp t.timestamp then t else s

-- The server `kbid` with the status `t` handles the hello of a server with the status `s` at the
-- time `now`, and its reply arrives at the first try; the one that asks takes up no other hello
-- meanwhile.
pub record Reaches (codec : Codec ClusterStatus) (data_codec : Codec GossipData) (self : GossipData)
    (w : World) (kbid : ℕ) (s : ChunkStatus) (now : ℕ) (t : ChunkStatus) : Type 0 where
  pub quiet : w.during ≡ []
  pub quiet_after : w.late ≡ []
  pub config : Config
  pub known : get_config kbid s ≡ some config
  pub hello : Bytes
  pub wrote : data_codec.serialize self ≡ some hello
  pub greeted : data_codec.parse hello ≡ (true, self)
  pub hello_bytes : All (λ c. c < 256) hello
  pub no_command : eq_bytes (base64_encode hello) (text "Read") ≡ false
  pub request : Request
  pub buffer : request.buffer ≡ true
  pub posted : server_get_postdata request ≡ some (base64_encode hello)
  pub shown : Bytes
  pub shows : to_string codec (check_commons self now t).0 ≡ some shown
  pub reads : codec.parse shown ≡ (true, to_protobuf (check_commons self now t).0)
  pub shown_bytes : All (λ c. c < 256) shown
  pub arrives :
      (reply : Bytes)
      → (handle_request codec data_codec now request t).0 ≡ some (ok_reply reply)
      → make_request_post
          (w.curls 0)
          config.host
          config.gossip_port
          (text "/GetStatus")
          []
          (base64_encode hello)
        ≡ (true, reply)

handle_request-hello :
    (codec : Codec ClusterStatus) (data_codec : Codec GossipData) (self : GossipData) (w : World)
    (kbid now : ℕ) (s t : ChunkStatus) (r : Reaches codec data_codec self w kbid s now t)
    → handle_request codec data_codec now r.request t
      ≡ (some (ok_reply (base64_encode r.shown)), (check_commons self now t).0)
unfolding handle_request server_send_reply_ok
handle_request-hello codec data_codec self w kbid now s t r =
    rw
      (
        r.posted,
        r.no_command,
        decode-encode r.hello r.hello_bytes,
        r.greeted,
        r.shows,
        r.buffer,
        c_str-encode r.shown r.shown_bytes,
        handle_request,
      )
      refl

-- What a hello comes to on both sides: the server that is asked has taken up the newcomer, and
-- the one that asks holds the later of the two statuses.
asks_lem :
    (codec : Codec ClusterStatus) (data_codec : Codec GossipData) (self : GossipData) (w : World)
    (kbid n now : ℕ) (s t : ChunkStatus)
    → (kbid == 0) ≡ false
    → Ascending 0 (check_commons self now t).0.configs
    → (r : Reaches codec data_codec self w kbid s now t)
    → (gossip_with codec data_codec self w kbid (pos n) s ≡ later s (check_commons self now t).0)
unfolding gossip_with greeted adopt mark post_loop
asks_lem codec data_codec self w kbid n now s t other ascending r =
    let t' = (check_commons self now t).0 in
    let replied = ap (λ p. p.0) (handle_request-hello codec data_codec self w kbid now s t r) in
    let sent = r.arrives (base64_encode r.shown) replied in
    let read = from_string-protobuf codec t' empty_status r.shown ascending r.reads in
    let read' = from_string-protobuf codec t' s r.shown ascending r.reads in
    rw
      (
        other,
        r.known,
        r.wrote,
        sent,
        r.quiet,
        r.quiet_after,
        decode-encode r.shown r.shown_bytes,
        read,
        read',
        gossip_with,
      )
      refl

later_again : (s t : ChunkStatus) → later t (later s t) ≡ later t s
later_again s t = elim (Bool-cases (ltb s.timestamp t.timestamp)) [
  | inl less ↦
      let same : ltb t.timestamp t.timestamp ≡ false = ground arith in
      let more : ltb t.timestamp s.timestamp ≡ false = ground arith in rw (less, same, more) refl
  | inr more ↦ rw more refl
]

later_agrees : (s t : ChunkStatus) → (s.timestamp ≡ t.timestamp) ⊎ (later s t ≡ later t s)
later_agrees s t = elim (Bool-cases (ltb s.timestamp t.timestamp)) [
  | inl less ↦
      let more : ltb t.timestamp s.timestamp ≡ false = ground arith in inr (rw (less, more) refl)
  | inr more ↦ elim (Bool-cases (ltb t.timestamp s.timestamp)) [
    | inl less ↦ inr (rw (more, less) refl)
    | inr same ↦ inl (ground arith)
  ]
]

later_both :
    (s t : ChunkStatus) (k : ℕ) (c c' : Config)
    → Ascending 0 s.configs
    → Ascending 0 t.configs
    → find k t.configs ≡ some c
    → find k s.configs ≡ some c'
    → let u = later s t in (d : Config) × Ascending 0 u.configs × (find k u.configs ≡ some d)
later_both s t k c c' a b p q = elim (Bool-cases (ltb s.timestamp t.timestamp)) [
  | inl less ↦ rw less (c, b, p)
  | inr more ↦ rw more (c', a, q)
]

pub asks_known :
    (codec : Codec ClusterStatus) (data_codec : Codec GossipData) (self : GossipData) (w : World)
    (kbid n now : ℕ) (s t : ChunkStatus) (c : Config)
    → (kbid == 0) ≡ false
    → Ascending 0 t.configs
    → find self.kbid t.configs ≡ some c
    → (r : Reaches codec data_codec self w kbid s now t)
    → (gossip_with codec data_codec self w kbid (pos n) s ≡ later s t)
      × ((handle_request codec data_codec now r.request t).1 ≡ t)
asks_known codec data_codec self w kbid n now s t c other ascending known r =
    let same : (check_commons self now t).0 ≡ t =
      ap (λ p. p.0) (check_commons_known self now t c known) in
    (
      asks_lem codec data_codec self w kbid n now s t other
            (subst (λ u. Ascending 0 u.configs) (sym same) ascending) r
          ∙ ap (later s) same,
      ap (λ p. p.1) (handle_request-hello codec data_codec self w kbid now s t r) ∙ same,
    )

-- Two chunk servers that know one another ask one another, one after the other, each is answered at
-- the first try, and neither takes up another hello while it asks: then each holds the later of the two statuses, and its own if they are
-- of the same time. So they agree, unless they were of the same time. Nothing else changes, neither
-- by the one hello nor by the other.
pub gossip_agrees :
    (codec : Codec ClusterStatus) (data_codec : Codec GossipData) (self self' : GossipData)
    (w w' : World) (n n' now now' : ℕ) (s t : ChunkStatus) (c c' c'' : Config)
    → (self.kbid == 0) ≡ false
    → (self'.kbid == 0) ≡ false
    → Ascending 0 s.configs
    → Ascending 0 t.configs
    → find self.kbid t.configs ≡ some c
    → find self'.kbid t.configs ≡ some c'
    → find self'.kbid s.configs ≡ some c''
    → (r : Reaches codec data_codec self w self'.kbid s now t)
    → let s' = gossip_with codec data_codec self w self'.kbid (pos n) s in
      (r' : Reaches codec data_codec self' w' self.kbid t now' s')
      → let t' = gossip_with codec data_codec self' w' self.kbid (pos n') t in
        (s' ≡ later s t)
        × (t' ≡ later t s)
        × ((s.timestamp ≡ t.timestamp) ⊎ (s' ≡ t'))
        × ((handle_request codec data_codec now r.request t).1 ≡ t)
        × ((handle_request codec data_codec now' r'.request s').1 ≡ s')
gossip_agrees codec data_codec self self' w w' n n' now now' s t c c' c'' here there asc asc' known
      own known' r r' =
    let (first, kept) =
      asks_known codec data_codec self w self'.kbid n now s t c there asc' known r in
    let s' = gossip_with codec data_codec self w self'.kbid (pos n) s in
    let facts : (d : Config) × Ascending 0 s'.configs × (find self'.kbid s'.configs ≡ some d) =
      subst (λ u. (d : Config) × Ascending 0 u.configs × (find self'.kbid u.configs ≡ some d))
        (sym first) (later_both s t self'.kbid c' c'' asc asc' own known') in
    let (d, asc'', known'') = facts in
    let (second, kept') =
      asks_known codec data_codec self' w' self.kbid n' now' t s' d here asc'' known'' r' in
    let both = second ∙ ap (later t) first ∙ later_again s t in
    (
      first,
      both,
      elim (later_agrees s t) [
        | inl same ↦ inl same
        | inr agrees ↦ inr (first ∙ agrees ∙ sym both)
      ],
      kept,
      kept',
    )
