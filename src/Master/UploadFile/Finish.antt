-- ===== src/Master/UploadFile/Finish.antt =====
-- What the leader stores in the second phase.
use kyrin_box.Prelude.{ℕ, ◌≡◌, refl, Option, some, Bytes, pos, text, inl, inr}
use kyrin_box.Common.Base64.{base64_encode}
use kyrin_box.Common.Cluster.{Cluster}
use kyrin_box.Io.Codec.{Codec, or_empty}
use kyrin_box.Io.Database.{LevelDb}
use kyrin_box.Server.Base.{Request, Reply, server_send_reply_ok, server_send_reply_bad}
use kyrin_box.Chunk.Status.{ClusterStatus}
use kyrin_box.Master.Oplog.{OperationLog, UploadFileOperation, Codecs, Dbs, default_log, store}
use kyrin_box.Master.Oplog.Store.{Stored-cases}
use kyrin_box.Master.UploadFile.{World, two_phase, finish, replied}

-- The leader's second phase, behind its requests.
pub finish_lem :
    (L : LevelDb) (codecs : Codecs) (status_codec : Codec ClusterStatus) (cluster : Cluster)
    (w : World) (kbid n : ℕ) (req : Request) (id : Bytes) (operation : UploadFileOperation)
    (op_log : OperationLog) (log content : Bytes) (s : Dbs L)
    → two_phase cluster w.second_phase kbid
        (base64_encode (
          or_empty
            (codecs.message.serialize record { state = pos 2; op_id = id; op_log = default_log })))
        cluster.master_server_count
        1
        0
      ≡ some n
    → codecs.log.serialize op_log ≡ some log
    → (reply : Option Reply) × (finish L codecs status_codec cluster w kbid req id operation op_log
          content s
        ≡ replied reply (store L s id log operation.key content).1)
unfolding finish
finish_lem L codecs status_codec cluster w kbid n req id operation op_log log content s asked
      logged =
    elim (Stored-cases (store L s id log operation.key content).0) [
      | inl e ↦
          (server_send_reply_ok req (base64_encode content), rw (asked, logged, finish, e) refl)
      | inr (inl e) ↦ (
        server_send_reply_bad req (text "put in oplog failed"),
        rw (asked, logged, finish, e) refl,
      )
      | inr (inr e) ↦ (
        server_send_reply_bad req (text "put in userdata failed"),
        rw (asked, logged, finish, e) refl,
      )
    ]
