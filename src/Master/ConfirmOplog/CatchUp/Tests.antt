-- ===== src/Master/ConfirmOplog/CatchUp/Tests.antt =====
-- A follower with an empty log that lacks the leader's first entry.
use kyrin_box.Prelude.{
  ◌≡◌, ◌∙◌, Option, refl, sym, ap, true, false, some, [], ◌∷◌, Bytes, pos, eq_bytes, text, c_str,
  arith,
}
use kyrin_box.Common.Base64.{base64_encode}
use kyrin_box.Common.Decimal.{scan_digits, is_digit}
use kyrin_box.Common.Cluster.{Cluster, master, master_get_oplog}
use kyrin_box.Common.OplogId.{get_zero, add_one}
use kyrin_box.Io.Codec.One.{one-RoundTrips, one-serialize}
use kyrin_box.Io.Database
use kyrin_box.Io.Database.Tests.{memory}
use kyrin_box.Io.HttpClient.{make_request_post}
use kyrin_box.Server.Base.{
  Request, Reply, ok_reply, bad_reply, server_get_postdata, server_send_reply_bad,
}
use kyrin_box.Server.Example.{request, answering}
use kyrin_box.Master.GetOplog
use kyrin_box.Master.GetOplog.Served.{handle_request-message_of}
use kyrin_box.Master.Oplog.{Dbs, OperationLogMessage, default_log, next_id}
use kyrin_box.Master.ConfirmOplog.{Confirm, replied, prepare}
use kyrin_box.Master.ConfirmOplog.CatchUp.{Has}
use kyrin_box.Master.ConfirmOplog.CatchUp.InSync.{prepare-Has}
use kyrin_box.Master.ConfirmOplog.CatchUp.Example.{
  memory-IsWorking, same_page, same_page_lem, sent, codecs, theirs, second, page_text,
}

abbrev message : OperationLogMessage
message = record { state = pos 1; op_id = second; op_log = default_log }

abbrev empty : Confirm memory codecs
empty = record {
  dbs = record { oplog = []; userdata = [] };
  state = false;
  state_id = [];
  state_data = default_log;
}

abbrev cluster : Cluster
cluster = record {
  server_type = master;
  kbid = 2;
  master_server_count = 2;
  chunk_seed_count = 0;
  master_configs =
      ((text "MachineAddress", text "host") ∷ ((text "MasterGetOplogPort", text "90") ∷ []))
      ∷ ([] ∷ []);
  chunk_configs = [];
  key_center_config = [];
}

abbrev asked : Request
asked = request [] (base64_encode get_zero)

abbrev text_of : Option Reply → Bytes
text_of (some (ok_reply b)) = b
text_of _ = []

-- What the leader replies reaches the follower.
arrives :
    (reply : Bytes)
    → (GetOplog.handle_request memory codecs theirs asked).0 ≡ some (ok_reply reply)
    → make_request_post
        (answering page_text)
        (text "host")
        90
        (text "/GetOplog")
        []
        (base64_encode get_zero)
      ≡ (true, reply)
unfolding make_request_post get_zero server_get_postdata base64_encode Database.exist eq_bytes
arrives reply e =
    let served =
      handle_request-message_of memory codecs theirs theirs asked get_zero (text "1")
        (get_zero, text "op") [] refl (omega arith) refl refl refl (omega arith)
        (one-serialize same_page sent refl) (omega arith) in
    ap (λ r. (true, text_of r)) (sym (ap (λ p. p.0) served) ∙ e)

prepare-Has_example :
    (t : Dbs memory) × (prepare memory codecs cluster 1
        (answering page_text ∷ [])
        (request [] [])
        message
        empty
      ≡ replied
          (some (bad_reply (text "ok")))
          record { dbs = t; state = true; state_id = second; state_data = default_log })
    × Has memory codecs get_zero theirs empty.dbs t
unfolding next_id Database.fetch_last_key get_zero server_get_postdata base64_encode Database.exist
    eq_bytes master_get_oplog server_send_reply_bad c_str add_one scan_digits is_digit
prepare-Has_example =
    prepare-Has memory codecs memory-IsWorking (one-RoundTrips same_page sent same_page_lem) cluster
      1 90 (text "host") (answering page_text) [] (request [] []) asked message empty theirs theirs
      get_zero (text "1") (get_zero, text "op") [] refl (omega arith) refl refl refl refl refl
      (omega arith) (refl, (second, refl, refl)) ((refl, (text "sha", refl)), tt)
      (one-serialize same_page sent refl) (omega arith) arrives
