-- ===== src/Master/ConfirmOplog/TwoPhase.antt =====
-- A follower and the leader in the two phases of one upload.
use kyrin_box.Prelude.{
  subst, All, ◌<◌, ◌∙◌, ℕ, ◌≡◌, ◌≢◌, refl, true, Option, some, List, Bytes, pos, eq_ℤ,
  if◌then◌else◌, text, eq_bytes, eq_bytes_iff, inl, inr, ap,
}
use kyrin_box.Common.Base64.{base64_encode}
use kyrin_box.Common.Base64.RoundTrip.{decode-encode}
use kyrin_box.Common.Cluster.{Cluster}
use kyrin_box.Io.Codec.{Codec, RoundTrips}
use kyrin_box.Io.Database.{LevelDb}
use kyrin_box.Io.HttpClient.{Curl}
use kyrin_box.Server.Base.{
  Request, Reply, server_get_postdata, server_send_reply_ok, server_send_reply_bad,
}
use kyrin_box.Chunk.Status.{ClusterStatus}
use kyrin_box.Master.Sentinel.{Status, leader, follower, consensus}
use kyrin_box.Master.Oplog.{
  OperationLog, OperationLogMessage, UploadFileOperation, Codecs, Stored, stored, log_failed,
  data_failed, default_log, next_id, store,
}
use kyrin_box.Master.Oplog.Store.{Stored-cases}
use kyrin_box.Master.UploadFile.Finish.{finish_lem}
use kyrin_box.Master.UploadFile
use kyrin_box.Master.UploadFile.{World, two_phase}
use kyrin_box.Master.ConfirmOplog.{Confirm, replied, prepare, stores, commit, handle_request}

-- What the leader makes of an operation, and posts.
pub record Posted (codecs : Codecs) (id : Bytes) (operation : UploadFileOperation)
    (first second log content : Bytes) : Type 0 where
  pub body : Bytes
  pub of_operation : codecs.operation.serialize operation ≡ some body
  pub of_log : codecs.log.serialize record { op_type = pos 1; log_data = body } ≡ some log
  pub of_content : codecs.response.serialize operation.content ≡ some content
  pub of_first :
      codecs.message.serialize
        record { state = pos 1; op_id = id; op_log = record { op_type = pos 1; log_data = body } }
      ≡ some first
  pub of_second :
      codecs.message.serialize record { state = pos 2; op_id = id; op_log = default_log }
      ≡ some second
  pub first_bytes : All (λ c. c < 256) first
  pub second_bytes : All (λ c. c < 256) second

-- The reply for what a store comes to.
abbrev pub answer : Request → Stored → Option Reply
answer req stored = server_send_reply_ok req (text "ok")
answer req log_failed = server_send_reply_bad req (text "put in oplog failed")
answer req data_failed = server_send_reply_bad req (text "put in userdata failed")

-- What a request comes to that is a posted message.
received :
    (L : LevelDb) (codecs : Codecs) (cluster : Cluster) (status : Status) (leader_id : ℕ)
    (curls : List Curl) (req : Request) (s : Confirm L codecs) (message : OperationLogMessage)
    (b : Bytes)
    → RoundTrips codecs.message
    → status ≢ leader
    → codecs.message.serialize message ≡ some b
    → All (λ c. c < 256) b
    → server_get_postdata req ≡ some (base64_encode b)
    → handle_request L codecs cluster status leader_id curls req s ≡ (
        if eq_ℤ message.state (pos 1)
        then prepare L codecs cluster leader_id curls req message s
        else if eq_ℤ message.state (pos 2)
        then commit L codecs req message s
        else replied (server_send_reply_bad req (text "System error")) s)
unfolding handle_request
received L codecs cluster leader leader_id curls req s message b codec other wrote bytes posted =
    absurd (other refl)
received L codecs cluster follower leader_id curls req s message b codec other wrote bytes posted =
    rw (posted, decode-encode b bytes, codec message b wrote, handle_request) refl
received L codecs cluster consensus leader_id curls req s message b codec other wrote bytes posted =
    rw (posted, decode-encode b bytes, codec message b wrote, handle_request) refl

-- The first phase of a follower whose log is as long as the leader's.
prepare_in_sync :
    (L : LevelDb) (codecs : Codecs) (cluster : Cluster) (leader_id : ℕ) (curls : List Curl)
    (req : Request) (message : OperationLogMessage) (s : Confirm L codecs)
    → next_id L s.dbs.oplog ≡ some message.op_id
    → prepare L codecs cluster leader_id curls req message s
      ≡ replied
          (server_send_reply_ok req (text "ok"))
          record s { state_id = message.op_id; state = true; state_data = message.op_log }
unfolding prepare
prepare_in_sync L codecs cluster leader_id curls req message s next =
    let same : eq_bytes message.op_id message.op_id ≡ true =
      (eq_bytes_iff message.op_id message.op_id).1 refl in
    rw (next, same, prepare) refl

stores_parsed :
    (L : LevelDb) (codecs : Codecs) (req : Request) (message : OperationLogMessage)
    (s : Confirm L codecs) (log content : Bytes)
    → codecs.log.serialize s.state_data ≡ some log
    → let operation = (codecs.operation.parse s.state_data.log_data).1 in
      codecs.response.serialize operation.content ≡ some content
      → stores L codecs req message s
        ≡ replied
            (answer req (store L s.dbs message.op_id log operation.key content).0)
            record s { dbs = (store L s.dbs message.op_id log operation.key content).1 }
unfolding stores
stores_parsed L codecs req message s log content logged kept =
    let operation = (codecs.operation.parse s.state_data.log_data).1 in
    elim (Stored-cases (store L s.dbs message.op_id log operation.key content).0) [
      | inl e ↦ rw (logged, kept, stores, e, answer) refl
      | inr (inl e) ↦ rw (logged, kept, stores, e, answer) refl
      | inr (inr e) ↦ rw (logged, kept, stores, e, answer) refl
    ]

-- What the second phase stores, and answers.
stores_lem :
    (L : LevelDb) (codecs : Codecs) (req : Request) (message : OperationLogMessage)
    (s : Confirm L codecs) (operation : UploadFileOperation) (log content : Bytes)
    → (codecs.operation.parse s.state_data.log_data).1 ≡ operation
    → codecs.log.serialize s.state_data ≡ some log
    → codecs.response.serialize operation.content ≡ some content
    → stores L codecs req message s
      ≡ replied
          (answer req (store L s.dbs message.op_id log operation.key content).0)
          record s { dbs = (store L s.dbs message.op_id log operation.key content).1 }
stores_lem L codecs req message s operation log content parsed logged =
    subst
      (λ (o : UploadFileOperation).
        codecs.response.serialize o.content ≡ some content
        → stores L codecs req message s
          ≡ replied (answer req (store L s.dbs message.op_id log o.key content).0)
              record s { dbs = (store L s.dbs message.op_id log o.key content).1 })
      parsed (stores_parsed L codecs req message s log content logged)

commit_prepared :
    (L : LevelDb) (codecs : Codecs) (req : Request) (message : OperationLogMessage)
    (s : Confirm L codecs)
    → s.state ≡ true
    → message.op_id ≡ s.state_id
    → eq_ℤ s.state_data.op_type (pos 1) ≡ true
    → commit L codecs req message s ≡ stores L codecs req message s
unfolding commit
commit_prepared L codecs req message s ready same upload =
    let id : eq_bytes message.op_id s.state_id ≡ true =
      (eq_bytes_iff message.op_id s.state_id).1 same in
    rw (ready, id, upload, commit) refl

-- The leader posts the two messages of an operation to a follower whose log ends where the leader's
-- does, and which is not the leader by its own status. On the first the follower answers ok; on the
-- second it stores the same operation under the same id, and the same content under the same key,
-- as the leader does, and answers ok if both databases took it. If both had the same databases, and
-- the leader's second phase ends, then they have the same databases again.
pub phases_lem :
    (L : LevelDb) (codecs : Codecs) (status_codec : Codec ClusterStatus) (cluster : Cluster)
    (status status' : Status) (leader_id : ℕ) (curls curls' : List Curl) (req req' : Request)
    (id : Bytes) (operation : UploadFileOperation) (first second log content : Bytes)
    (s : Confirm L codecs)
    → RoundTrips codecs.message
    → RoundTrips codecs.operation
    → (posted : Posted codecs id operation first second log content) → status ≢ leader
    → status' ≢ leader
    → server_get_postdata req ≡ some (base64_encode first)
    → server_get_postdata req' ≡ some (base64_encode second)
    → next_id L s.dbs.oplog ≡ some id
    → (s1 : Confirm L codecs) × (s2 : Confirm L codecs) × (handle_request L codecs cluster status
          leader_id curls req s
        ≡ replied (server_send_reply_ok req (text "ok")) s1)
      × (handle_request L codecs cluster status' leader_id curls' req' s1
          ≡ replied (answer req' (store L s.dbs id log operation.key content).0) s2)
      × (s2.dbs ≡ (store L s.dbs id log operation.key content).1)
      × ((ours : Cluster) (w : World) (kbid n : ℕ) (client : Request)
          → two_phase ours w.second_phase kbid (base64_encode second) ours.master_server_count 1 0
            ≡ some n
          → (reply : Option Reply) × (UploadFile.finish L codecs status_codec ours w kbid client id
                operation
                record { op_type = pos 1; log_data = posted.body }
                content
                s.dbs
              ≡ UploadFile.replied reply s2.dbs))
phases_lem L codecs status_codec cluster status status' leader_id curls curls' req req' id operation
      first second log content s message_codec operation_codec posted other other' sent sent' next =
    let op_log : OperationLog = record { op_type = pos 1; log_data = posted.body } in
    let m1 : OperationLogMessage = record { state = pos 1; op_id = id; op_log = op_log } in
    let m2 : OperationLogMessage = record { state = pos 2; op_id = id; op_log = default_log } in
    let s1 : Confirm L codecs = record s { state_id = id; state = true; state_data = op_log } in
    let s2 : Confirm L codecs = record s1 {
      dbs = (store L s.dbs id log operation.key content).1;
    } in
    let parsed = ap (λ p. p.1) (operation_codec operation posted.body posted.of_operation) in
    (
      s1,
      s2,
      received L codecs cluster status leader_id curls req s m1 first message_codec other
            posted.of_first posted.first_bytes sent
          ∙ prepare_in_sync L codecs cluster leader_id curls req m1 s next,
      received L codecs cluster status' leader_id curls' req' s1 m2 second message_codec other'
            posted.of_second posted.second_bytes sent'
          ∙ commit_prepared L codecs req' m2 s1 refl refl refl
          ∙ stores_lem L codecs req' m2 s1 operation log content parsed posted.of_log
              posted.of_content,
      refl,
      λ ours w kbid n client asked.
          finish_lem L codecs status_codec ours w kbid n client id operation op_log log content
            s.dbs (rw posted.of_second asked) posted.of_log,
    )
