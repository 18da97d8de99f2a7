-- ===== src/Master/ConfirmOplog/Tests.antt =====
-- A second phase behind its first one.
use kyrin_box.Prelude.{
  ℕ, Option, Bytes, some, none, false, arith, ◌≡◌, refl, sym, ap, subst, Bool, true, [], ◌∷◌, text,
  pos, eq_ℤ, eq_bytes, c_str,
}
use mathlib.Core.Option.{some-injective}
use kyrin_box.Common.Base64.{base64_encode, base64_decode, char_of, is_base64, sextet_of}
use kyrin_box.Common.OplogId.{get_zero}
use kyrin_box.Common.Cluster.{Cluster, master}
use kyrin_box.Chunk.Status.{ClusterStatus}
use kyrin_box.Io.Codec.{Codec}
use kyrin_box.Master.UploadFile
use kyrin_box.Master.UploadFile.{World, two_phase}
use kyrin_box.Master.ConfirmOplog.Example
use kyrin_box.Master.ConfirmOplog.Example.{operation}
use kyrin_box.Master.ConfirmOplog.TwoPhase.{Posted, answer, phases_lem}
use kyrin_box.Io.Database
use kyrin_box.Io.Database.Tests.{memory, memory-Reliable}
use kyrin_box.Server.Base.{Request, Reply, ok_reply, server_send_reply_ok, server_get_postdata}
use kyrin_box.Server.Example.{request}
use kyrin_box.Master.Sentinel.{follower}
use kyrin_box.Master.Oplog.{OperationLogMessage, default_log, store, next_id, stored}
use kyrin_box.Master.Oplog.Example.{codecs}
use kyrin_box.Master.ConfirmOplog.{Confirm, replied, handle_request, prepare, stores, commit}
use kyrin_box.Master.ConfirmOplog.Prepared.{FirstPhase, Reachable, boot, handled, commit-posted}
use kyrin_box.Master.ConfirmOplog.Phases.{Keeps, commit-ok}

abbrev prepared : Confirm memory codecs
prepared = record {
  dbs = record { oplog = []; userdata = [] };
  state = true;
  state_id = text "7";
  state_data = record { op_type = pos 1; log_data = text "data" };
}

abbrev committed : Confirm memory codecs
committed = record prepared {
  dbs = record { oplog = (text "7", text "data") ∷ []; userdata = (text "key", text "sha") ∷ [] };
}

abbrev message : OperationLogMessage
message = record { state = pos 2; op_id = text "7"; op_log = default_log }

commit-ok_example :
    (true ≡ true)
    × (eq_bytes (text "7") (text "7") ≡ true)
    × (eq_ℤ (pos 1) (pos 1) ≡ true)
    × Keeps memory codecs message prepared committed
unfolding commit stores server_send_reply_ok store Database.put eq_bytes c_str
commit-ok_example =
    commit-ok memory memory-Reliable codecs (request [] []) message prepared committed (text "ok")
      refl

posted : Posted Example.codecs get_zero operation (text "1") (text "2") (text "op") (text "sha")
unfolding eq_bytes get_zero
posted = record {
  body = text "op";
  of_operation = refl;
  of_log = refl;
  of_content = refl;
  of_first = refl;
  of_second = refl;
  first_bytes = omega arith;
  second_bytes = omega arith;
}

abbrev empty : Confirm memory Example.codecs
empty = record {
  dbs = record { oplog = []; userdata = [] };
  state = false;
  state_id = [];
  state_data = default_log;
}

abbrev cluster : Cluster
cluster = record {
  server_type = master;
  kbid = 2;
  master_server_count = 2;
  chunk_seed_count = 0;
  master_configs = [] ∷ ([] ∷ []);
  chunk_configs = [];
  key_center_config = [];
}

abbrev status_codec : Codec ClusterStatus
status_codec = record {
  serialize = λ m. none;
  parse = λ b. (
    false,
    record {
      timestamp = 0;
      seeds = [];
      commons = [];
      dead_seeds = [];
      dead_commons = [];
      datas = [];
    },
  );
}

abbrev post : Bytes → Request
post b = request [] (base64_encode b)

phases_lem_example :
    (s1 : Confirm memory Example.codecs) × (s2 : Confirm memory Example.codecs) × (handle_request
        memory Example.codecs cluster follower 1 []
        (post (text "1"))
        empty
      ≡ replied (server_send_reply_ok (post (text "1")) (text "ok")) s1)
    × (handle_request memory Example.codecs cluster follower 1 [] (post (text "2")) s1
        ≡ replied (answer (post (text "2")) stored) s2)
    × (s2.dbs
        ≡ record { oplog = (get_zero, text "op") ∷ []; userdata = (text "key", text "sha") ∷ [] })
    × ((ours : Cluster) (w : World) (kbid n : ℕ) (client : Request)
        → two_phase ours w.second_phase kbid (base64_encode (text "2")) ours.master_server_count 1 0
          ≡ some n
        → (reply : Option Reply) × (UploadFile.finish memory Example.codecs status_codec ours w kbid
              client get_zero operation
              record { op_type = pos 1; log_data = text "op" }
              (text "sha")
              empty.dbs
            ≡ UploadFile.replied reply s2.dbs))
unfolding server_get_postdata base64_encode next_id Database.fetch_last_key store Database.put
    posted
phases_lem_example =
    phases_lem memory Example.codecs status_codec cluster follower follower 1 [] []
      (post (text "1")) (post (text "2")) get_zero operation (text "1") (text "2") (text "op")
      (text "sha") empty Example.message-RoundTrips Example.operation-RoundTrips posted (λ e. cc)
      (λ e. cc) refl refl refl

abbrev told : Confirm memory Example.codecs
told = record empty { state = true; state_id = get_zero; state_data = Example.upload_log }

told-reads :
    (m : OperationLogMessage)
    → FirstPhase memory Example.codecs (post (text "1")) m
    → m ≡ Example.first_message
unfolding server_get_postdata base64_encode base64_decode eq_bytes char_of is_base64 sextet_of
told-reads m is =
    let body : base64_encode (text "1") ≡ is.body = some-injective _ _ is.posted in
    let read : ◌≡◌ {A = Bool × OperationLogMessage} (true, Example.first_message) (true, m) =
      subst (λ b. Example.codecs.message.parse (base64_decode b) ≡ (true, m)) (sym body) is.reads in
    sym (ap (λ p. p.1) read)

told-Reachable : Reachable memory Example.codecs (λ m. m ≡ Example.first_message) told
unfolding handle_request prepare server_get_postdata base64_encode base64_decode eq_bytes char_of
    is_base64 sextet_of next_id Database.fetch_last_key get_zero server_send_reply_ok c_str
told-Reachable =
    handled empty told cluster follower 1 [] (post (text "1")) (some (ok_reply (text "ok")))
      (boot empty refl) told-reads refl

abbrev kept : Confirm memory Example.codecs
kept = record told {
  dbs = record { oplog = (get_zero, text "op") ∷ []; userdata = (text "key", text "sha") ∷ [] };
}

commit-posted_example :
    (m : OperationLogMessage) × (k : OperationLogMessage) × (log : Bytes) × (m
      ≡ Example.first_message)
    × (k ≡ Example.first_message)
    × (get_zero ≡ k.op_id)
    × (Example.codecs.log.serialize m.op_log ≡ some log)
    × (Database.get memory ((get_zero, text "op") ∷ []) get_zero
        ≡ (true, log, (get_zero, text "op") ∷ []))
unfolding commit stores server_send_reply_ok store Database.put eq_bytes c_str get_zero
commit-posted_example =
    commit-posted memory Example.codecs memory-Reliable (λ m. m ≡ Example.first_message)
      (post (text "2")) Example.second_message told kept (text "ok") told-Reachable refl
