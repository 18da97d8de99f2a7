-- ===== src/Chunk/Gossip/Agreement/Tests.antt =====
-- Two servers, of which the second one's status is the later.
use kyrin_box.Prelude.{
  ℕ, ◌≡◌, ◌⊎◌, refl, sym, ap, subst, true, Option, some, [], ◌∷◌, Bytes, pos, ◌==◌, if◌then◌else◌,
  eq_bytes, text, c_str, arith,
}
use kyrin_box.Common.Base64.{base64_encode, base64_decode, is_base64, char_of}
use kyrin_box.Io.Codec.{Codec}
use kyrin_box.Io.HttpClient.{make_request_post}
use kyrin_box.Server.Base.{Reply, ok_reply, server_get_postdata, server_send_reply_ok}
use kyrin_box.Server.Example.{answering, request}
use kyrin_box.Chunk.Status.{
  default_config, ChunkStatus, ClusterStatus, GossipData, to_protobuf, get_config, find, to_string,
  check_commons,
}
use kyrin_box.Chunk.Status.Exchange.{check_commons_known}
use kyrin_box.Chunk.Gossip.{World, gossip_with, handle_request}
use kyrin_box.Chunk.Gossip.Agreement.{Reaches, later, asks_known, gossip_agrees}

abbrev first : GossipData
first = record { kbid = 3001; config = default_config }

abbrev second : GossipData
second = record { kbid = 3002; config = default_config }

abbrev early : ChunkStatus
early = record {
  timestamp = 9;
  configs = (3001, default_config) ∷ ((3002, default_config) ∷ []);
  seeds = 3001 ∷ (3002 ∷ []);
  commons = [];
  dead_seeds = [];
  dead_commons = [];
}

abbrev late : ChunkStatus
late = record early {
  timestamp = 12;
  configs = (3001, default_config) ∷ ((3002, default_config) ∷ ((3003, default_config) ∷ []));
  commons = 3003 ∷ [];
}

abbrev codec : Codec ClusterStatus
codec = record { serialize = λ m. some (text "1"); parse = λ b. (true, to_protobuf late) }

abbrev data_codec : Codec GossipData
data_codec = record {
  serialize = λ m. if m.kbid == 3001 then some (text "a") else some (text "b");
  parse = λ b. (true, if eq_bytes b (text "a") then first else second);
}

abbrev page : Bytes
page = base64_encode (text "1")

abbrev world : World
world = record { curls = λ i. answering page; now = 20; during = []; late = [] }

abbrev text_of : Option Reply → Bytes
text_of (some (ok_reply b)) = b
text_of _ = []

-- The second server's hello is handled by the first one with the second one's status.
knows_first : (now : ℕ) → to_protobuf late ≡ to_protobuf (check_commons first now late).0
unfolding find
knows_first now =
    ap (λ p. to_protobuf p.0) (sym (check_commons_known first now late default_config refl))

knows_second : (now : ℕ) → to_protobuf late ≡ to_protobuf (check_commons second now late).0
unfolding find
knows_second now =
    ap (λ p. to_protobuf p.0) (sym (check_commons_known second now late default_config refl))

asks_first : Reaches codec data_codec first world 3002 early 20 late
unfolding get_config find handle_request server_get_postdata base64_encode eq_bytes base64_decode
    is_base64 server_send_reply_ok c_str make_request_post char_of to_string
asks_first = record {
  quiet = refl;
  quiet_after = refl;
  config = default_config;
  known = refl;
  hello = text "a";
  wrote = refl;
  greeted = refl;
  hello_bytes = omega arith;
  no_command = refl;
  request = request [] (base64_encode (text "a"));
  buffer = refl;
  posted = refl;
  shown = text "1";
  shows = refl;
  reads = ap (λ m. (true, m)) (knows_first 20);
  shown_bytes = omega arith;
  arrives = λ reply e. ap (λ r. (true, text_of r)) e;
}

asks_second : Reaches codec data_codec second world 3001 late 20 late
unfolding get_config find handle_request server_get_postdata base64_encode eq_bytes base64_decode
    is_base64 server_send_reply_ok c_str make_request_post char_of to_string
asks_second = record {
  quiet = refl;
  quiet_after = refl;
  config = default_config;
  known = refl;
  hello = text "b";
  wrote = refl;
  greeted = refl;
  hello_bytes = omega arith;
  no_command = refl;
  request = request [] (base64_encode (text "b"));
  buffer = refl;
  posted = refl;
  shown = text "1";
  shows = refl;
  reads = ap (λ m. (true, m)) (knows_second 20);
  shown_bytes = omega arith;
  arrives = λ reply e. ap (λ r. (true, text_of r)) e;
}

abbrev asked : ChunkStatus
asked = gossip_with codec data_codec first world 3002 (pos 1) early

asked-late : asked ≡ late
unfolding find
asked-late =
    (asks_known codec data_codec first world 3002 1 20 early late default_config refl (omega arith)
      refl asks_first).0

asks_back : Reaches codec data_codec second world 3001 late 20 asked
asks_back = subst (Reaches codec data_codec second world 3001 late 20) (sym asked-late) asks_second

gossip_agrees_example :
    let t = gossip_with codec data_codec second world 3001 (pos 1) late in
    (asked ≡ later early late)
    × (t ≡ later late early)
    × (◌≡◌ {A = ℕ} 9 12 ⊎ (asked ≡ t))
    × ((handle_request codec data_codec 20 asks_first.request late).1 ≡ late)
    × ((handle_request codec data_codec 20 asks_back.request asked).1 ≡ asked)
unfolding find
gossip_agrees_example =
    gossip_agrees codec data_codec first second world world 1 1 20 20 early late default_config
      default_config default_config refl refl (omega arith) (omega arith) refl refl refl asks_first
      asks_back
