-- ===== src/Chunk/Gossip/Tests.antt =====
-- A seed whose first three tries fail.
use kyrin_box.Prelude.{
  subst, ap, Option-cases, inl, inr, arith, ◌≡◌, refl, true, false, none, some, [], ◌∷◌, pos, ltb,
  if◌then◌else◌, text,
}
use kyrin_box.Common.Base64.{base64_encode, base64_decode}
use kyrin_box.Io.Codec.{Codec}
use kyrin_box.Io.HttpClient.{Curl}
use kyrin_box.Server.Example.{answering, request}
use kyrin_box.Chunk.Status.{
  default_config, ChunkStatus, ClusterStatus, GossipData, empty_status, to_protobuf, set_dead,
  get_config, find, assign, assign_datas, from_string,
}
use kyrin_box.Chunk.Gossip.{
  World, greeted, post_loop, adopt, gossip_with, gossip_round, handle_request,
}
use kyrin_box.Chunk.Status.Members.{IsValid, occurs}
use kyrin_box.Chunk.Gossip.Rounds.{Honest, gossip-IsValid}
use kyrin_box.Chunk.Gossip.Failures.{all_fail, gossip_with-set_dead}

abbrev down : Curl
down = record (answering []) { perform = λ url fields. (false, []) }

abbrev codec : Codec ClusterStatus
codec = record { serialize = λ m. none; parse = λ b. (false, to_protobuf empty_status) }

abbrev self : GossipData
self = record { kbid = 3001; config = default_config }

-- One more server says hello while the seed is asked.
abbrev world : World
world = record {
  curls = λ i. if ltb i 3 then down else answering (text "late");
  now = 10;
  during = (record { kbid = 3004; config = default_config }, 10) ∷ [];
  late = [];
}

abbrev data_codec : Codec GossipData
data_codec = record { serialize = λ m. some (text "self"); parse = λ b. (true, self) }

abbrev status : ChunkStatus
status = record empty_status {
  timestamp = 9;
  configs = (3002, default_config) ∷ [];
  seeds = 3002 ∷ [];
}

gossip_with-set_dead_example : gossip_with codec data_codec self world 3002 (pos 1) status ≡ (
    if all_fail world.curls default_config (base64_encode (text "self")) 3 0
    then set_dead 3002 (pos 1) 10 (greeted world.during status)
    else adopt codec
        (base64_decode
          (post_loop world.curls default_config (base64_encode (text "self")) 3 0 []).1)
        (greeted [] (greeted world.during status)))
unfolding get_config find
gossip_with-set_dead_example =
    gossip_with-set_dead codec data_codec self world 3002 0 default_config status refl refl

-- A peer that knows one more seed, and is later.
abbrev peer : ChunkStatus
peer = record {
  timestamp = 12;
  configs = (3002, default_config) ∷ ((3003, default_config) ∷ []);
  seeds = 3003 ∷ [];
  commons = [];
  dead_seeds = 3002 ∷ [];
  dead_commons = [];
}

abbrev peer_message : ClusterStatus
peer_message = record {
  timestamp = 12;
  datas =
      record { kbid = 3002; config = default_config }
      ∷ (record { kbid = 3003; config = default_config } ∷ []);
  seeds = 3003 ∷ [];
  commons = [];
  dead_seeds = 3002 ∷ [];
  dead_commons = [];
}

abbrev peer_codec : Codec ClusterStatus
peer_codec = record { serialize = λ m. none; parse = λ b. (true, peer_message) }

peer-IsValid : IsValid peer
unfolding occurs find
peer-IsValid = record {
  once = λ k. ground arith;
  known = λ k h. elim (Option-cases (find k peer.configs)) [
    | inr stored ↦ stored
    | inl out ↦ absurd (ground arith)
  ];
}

status-IsValid : IsValid status
unfolding occurs find
status-IsValid = record {
  once = λ k. ground arith;
  known = λ k h. elim (Option-cases (find k status.configs)) [
    | inr stored ↦ stored
    | inl out ↦ absurd (ground arith)
  ];
}

world-Honest : Honest peer_codec world
unfolding from_string assign_datas assign
world-Honest = record {
  answers = λ retry c to_post t e. subst IsValid (ap (λ p. p.0) e) peer-IsValid;
}

gossip-IsValid_example :
    IsValid (gossip_round peer_codec data_codec self (λ i. world) (λ i. 0) status)
    × IsValid (handle_request peer_codec data_codec 10 (request [] (text "hello")) status).1
gossip-IsValid_example =
    gossip-IsValid peer_codec data_codec self (λ i. world) (λ i. 0) 10 (request [] (text "hello"))
      status (λ i. world-Honest) status-IsValid
