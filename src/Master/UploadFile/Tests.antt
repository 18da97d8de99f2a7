-- ===== src/Master/UploadFile/Tests.antt =====
-- An upload in a cluster of three masters whose other two say "ok".
use kyrin_box.Prelude.{
  ◌+◌, ◌/◌, ◌<◌, ◌≡◌, refl, true, some, none, [], ◌∷◌, Bytes, text, pos, eq_bytes, c_str,
}
use kyrin_box.Common.Base64.{base64_encode, char_of}
use kyrin_box.Common.OplogId.{get_zero}
use kyrin_box.Common.Cluster.{Cluster, master, master_confirm_oplog, ConfigMap}
use kyrin_box.Io.Codec.{Codec}
use kyrin_box.Io.Database
use kyrin_box.Io.Database.Tests.{memory}
use kyrin_box.Io.HttpClient.{make_request_post}
use kyrin_box.Server.Base.{server_send_reply_ok}
use kyrin_box.Server.Example.{request, answering}
use kyrin_box.Chunk.Status.{ClusterStatus, empty_status, to_protobuf}
use kyrin_box.Master.Oplog.{Dbs, UploadFileOperation, next_id, store}
use kyrin_box.Master.Oplog.Example.{codecs}
use kyrin_box.Master.UploadFile.{World, phases, finish, two_phase}
use kyrin_box.Master.UploadFile.Majority.{first_post, count_ok, phases-ok}

abbrev config : ConfigMap
config = (text "MachineAddress", text "host") ∷ ((text "MasterConfirmOplogPort", text "81") ∷ [])

abbrev cluster : Cluster
cluster = record {
  server_type = master;
  kbid = 1;
  master_server_count = 3;
  chunk_seed_count = 0;
  master_configs = config ∷ (config ∷ (config ∷ []));
  chunk_configs = [];
  key_center_config = [];
}

abbrev status_codec : Codec ClusterStatus
status_codec = record { serialize = λ m. none; parse = λ b. (true, to_protobuf empty_status) }

abbrev world : World
world = record {
  gossip = answering [];
  first_phase = λ i. answering (text "ok");
  second_phase = λ i. answering [];
  rand = 0;
  rands = [];
}

abbrev operation : UploadFileOperation
operation = record {
  key = text "me";
  content = record { file_hosts = []; file_size = pos 3; merkle_sha1 = text "sha" };
}

abbrev before : Dbs memory
before = record { oplog = []; userdata = [] }

abbrev after : Dbs memory
after = record {
  oplog = (0 ∷ (0 ∷ (0 ∷ (0 ∷ (0 ∷ (0 ∷ (0 ∷ (0 ∷ []))))))), text "me") ∷ [];
  userdata = (text "me", text "sha") ∷ [];
}

phases-ok_example :
    (id : Bytes) × (next_id memory [] ≡ some id)
    × (3 / 2
        < 1 + count_ok cluster (λ i. answering (text "ok")) 1 (first_post codecs id operation) 3 1)
unfolding server_send_reply_ok phases finish two_phase store Database.put Database.fetch_last_key
    get_zero next_id eq_bytes c_str master_confirm_oplog make_request_post base64_encode char_of
phases-ok_example =
    phases-ok memory codecs status_codec cluster world 1 (request [] []) operation (text "sha")
      before after (text "c2hh") refl
