-- ===== src/Master/ConfirmOplog.antt =====
-- server/request_handlers/confirm_oplog_request_handler.cc: a follower's part in the two phases
-- that add an operation to the log.
pub mod Phases
pub mod Prepared
pub mod TwoPhase
pub mod CatchUp
pub mod Example
mod Tests
use kyrin_box.Prelude.{
  ℕ, Bool, true, false, Option, none, some, List, [], ◌∷◌, Bytes, ℤ, pos, eq_ℤ, if◌then◌else◌,
  eq_bytes, text,
}
use kyrin_box.Common.OplogId.{add_one}
use kyrin_box.Common.Base64.{base64_encode, base64_decode}
use kyrin_box.Common.Cluster.{Cluster, master_get_oplog}
use kyrin_box.Io.Codec.{or_empty}
use kyrin_box.Io.Database.{LevelDb}
use kyrin_box.Io.HttpClient.{Curl, make_request_post}
use kyrin_box.Server.Base.{
  Request, Reply, server_get_postdata, server_send_reply_ok, server_send_reply_bad,
}
use kyrin_box.Master.Sentinel.{Status, leader, follower, consensus}
use kyrin_box.Master.Oplog.{
  OperationLog, OperationLogMessage, GetOplogResponse, UploadFileOperation, Codecs, Dbs, Stored,
  stored, log_failed, data_failed, next_id, store,
}

module _ (L : LevelDb) (codecs : Codecs) where
  -- What the loop over one page comes to: `update_oplog` returns false, undefined behaviour, or the
  -- databases and `current_last_id` at its end.
  pub data Applied : Type 0 where
    stopped : Dbs L → Applied
    broken : Applied
    applied : Dbs L → Bytes → Applied

  -- The loop over `data.log_data`: only an operation of type 1 is stored and takes an id.
  pub apply_page : List Bytes → Dbs L → Bytes → Applied
  apply_page [] s current_last_id = applied s current_last_id
  apply_page (item ∷ items) s current_last_id =
      let op_log = (codecs.log.parse item).1 in
      let op_data = (codecs.operation.parse op_log.log_data).1 in
      let skip = apply_page items s current_last_id in
      if eq_ℤ op_log.op_type (pos 1)
      then elim (codecs.response.serialize op_data.content) [
        | none ↦ stopped s
        | some operation_data ↦
            let (result, s') = store L s current_last_id item op_data.key operation_data in
            elim result [
              | stored ↦ elim (add_one current_last_id) [
                | none ↦ broken
                | some (id, _) ↦ apply_page items s' id
              ]
              | log_failed ↦ stopped s'
              | data_failed ↦ stopped s'
            ]
      ]
      else skip

  -- What `update_oplog` comes to: its result, undefined behaviour, or the loop is still running
  -- when the given answers are used up.
  pub data Updated : Type 0 where
    updated : Bool → Dbs L → Updated
    undefined : Updated
    running : Dbs L → Updated

  -- The loop, one use of libcurl a round. Every round posts `last_id`.
  pub update_loop : Bytes × ℕ → List Curl → Dbs L → Bytes → Bytes → Bytes → Updated
  unfolding apply_page
  update_loop to [] s last_id current_last_id target_id = running s
  update_loop (host, port) (curl ∷ curls) s last_id current_last_id target_id =
      let (sent, response) =
        make_request_post curl host port (text "/GetOplog") [] (base64_encode last_id) in
      let page = (codecs.page.parse (base64_decode response)).1 in
      if sent
      then elim (apply_page page.log_data s current_last_id) [
        | stopped s' ↦ updated false s'
        | broken ↦ undefined
        | applied s' id ↦
            let more = update_loop (host, port) curls s' last_id id target_id in
            if eq_bytes id target_id then updated true s' else more
      ]
      else updated false s

  -- `m_state`, `m_state_id` and `m_state_data`, with the databases.
  pub record Confirm : Type 0 where
    pub dbs : Dbs L
    pub state : Bool
    pub state_id : Bytes
    pub state_data : OperationLog

  -- What a request comes to: a reply, undefined behaviour, or it is still running.
  pub data Handled : Type 0 where
    replied : Option Reply → Confirm → Handled
    no_behaviour : Handled
    unfinished : Handled

  -- The part with `state == 1`.
  pub prepare : Cluster → ℕ → List Curl → Request → OperationLogMessage → Confirm → Handled
  unfolding update_loop
  prepare cluster leader_id curls req message s =
      let s' : Confirm = record s { state_id = message.op_id } in
      let ready : Confirm = record s' { state = true; state_data = message.op_log } in
      elim (next_id L s.dbs.oplog) [
        | none ↦ no_behaviour
        | some last_id ↦
            let update : Handled = elim (master_get_oplog cluster leader_id) [
              | none ↦ no_behaviour
              | some to ↦ elim (update_loop to curls s.dbs last_id last_id message.op_id) [
                | updated ok dbs ↦
                    if ok
                    then replied (server_send_reply_bad req (text "ok"))
                        (record ready { dbs = dbs })
                    else replied (server_send_reply_bad req (text "no ok"))
                        (record s' { dbs = dbs })
                | undefined ↦ no_behaviour
                | running dbs ↦ unfinished
              ]
            ] in
            if eq_bytes last_id message.op_id
            then replied (server_send_reply_ok req (text "ok")) ready
            else update
      ]

  -- What the second phase does behind its guards.
  pub stores : Request → OperationLogMessage → Confirm → Handled
  stores req message s =
      let refuse = λ (s : Confirm) (reply : Bytes). replied (server_send_reply_bad req reply) s in
      let operation = (codecs.operation.parse s.state_data.log_data).1 in
      elim (codecs.log.serialize s.state_data) [
        | none ↦ refuse s (text "Serialize op_log failed")
        | some op_log_str ↦ elim (codecs.response.serialize operation.content) [
          | none ↦ refuse s (text "Serialize op_data failed")
          | some operation_data ↦
              let (result, dbs) =
                store L s.dbs message.op_id op_log_str operation.key operation_data in
              let s' : Confirm = record s { dbs = dbs } in
              elim result [
                | stored ↦ replied (server_send_reply_ok req (text "ok")) s'
                | log_failed ↦ refuse s' (text "put in oplog failed")
                | data_failed ↦ refuse s' (text "put in userdata failed")
              ]
        ]
      ]

  -- The part with `state == 2`.
  pub commit : Request → OperationLogMessage → Confirm → Handled
  commit req message s =
      let refuse = λ (reply : Bytes). replied (server_send_reply_bad req reply) s in
      if s.state
      then (if eq_bytes message.op_id s.state_id
          then (if eq_ℤ s.state_data.op_type (pos 1)
              then stores req message s
              else refuse (text "No such operation type..."))
          else refuse (text "No such current id"))
      else refuse (text "System error")

  -- `handle_request`
  pub handle_request : Cluster → Status → ℕ → List Curl → Request → Confirm → Handled
  handle_request cluster status leader_id curls req s =
      let refuse = λ (reply : Bytes). replied (server_send_reply_bad req reply) s in
      let go : Handled = elim (server_get_postdata req) [
        | none ↦ refuse (text "Can't read post data.")
        | some body ↦
            let (parsed, message) = codecs.message.parse (base64_decode body) in
            if parsed
            then (if eq_ℤ message.state (pos 1)
                then prepare cluster leader_id curls req message s
                else if eq_ℤ message.state (pos 2)
                then commit req message s
                else refuse (text "System error"))
            else refuse (text "Can't parse from post data")
      ] in
      elim status [ leader ↦ refuse (text "System error") | follower ↦ go | consensus ↦ go ]
