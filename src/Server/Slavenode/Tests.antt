-- ===== src/Server/Slavenode/Tests.antt =====
-- A slave node that gets a log of one entry, and asks again, when there is no more.
use kyrin_box.Prelude.{
  ℕ, ◌≡◌, true, false, none, some, [], ◌∷◌, Bytes, eq_bytes, text, if◌then◌else◌,
}
use kyrin_box.Common.Base64.{base64_encode}
use kyrin_box.Common.Cluster.{Cluster, slavenode}
use kyrin_box.Common.OplogId.{get_zero}
use kyrin_box.Io.Database
use kyrin_box.Io.Database.Tests
use kyrin_box.Io.HttpClient.{Curl, make_request_post}
use kyrin_box.Master.GetOplog.{handle_request, page}
use kyrin_box.Master.Oplog.{Codecs}
use kyrin_box.Master.Oplog.Example
use kyrin_box.Master.ConfirmOplog.CatchUp.Example.{theirs, page_text, sent, same_page}
use kyrin_box.Server.Base.{Reply, server_get_postdata}
use kyrin_box.Server.Example.{memory, request}
use kyrin_box.Server.Slavenode.Answers.{text_of}
use kyrin_box.Server.Slavenode.Synced.{Synced}

-- The page of one entry is written as the text 1, and any other text is read as no entries.
abbrev codecs : Codecs
codecs = record Example.codecs {
  page = record {
    serialize = λ m. if same_page m sent then some (text "1") else none;
    parse =
        λ b. (true, if eq_bytes b (text "1") then sent else record { last_id = []; log_data = [] });
  };
}

-- What GetOplog answers on the log of one entry.
abbrev curl : Curl
curl = record {
  init = true;
  set_url = true;
  set_post = true;
  set_fields = true;
  set_function = true;
  set_data = true;
  perform = λ url fields. elim fields [
    | none ↦ (false, [])
    | some posted ↦
        if eq_bytes posted (base64_encode get_zero)
        then (true, page_text ∷ [])
        else (true, text "No such op id" ∷ [])
  ];
}

abbrev cluster : Cluster
cluster = record {
  server_type = slavenode;
  kbid = 2001;
  master_server_count = 1;
  chunk_seed_count = 0;
  master_configs =
      ((text "MachineAddress", text "host") ∷ ((text "MasterGetOplogPort", text "90") ∷ [])) ∷ [];
  chunk_configs = [];
  key_center_config = [];
}

-- What libcurl gives, and what the handler replies, for an id.
abbrev Gives : Bytes → ℕ → Reply → Bytes → Type 0
Gives host port reply id =
    (server_get_postdata (request [] (base64_encode id)) ≡ some (base64_encode id))
    × ((handle_request Tests.memory codecs theirs (request [] (base64_encode id))).0 ≡ some reply)
    × (make_request_post curl host port (text "/GetOplog") [] (base64_encode id)
        ≡ (true, text_of reply))
