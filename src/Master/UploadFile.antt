-- ===== src/Master/UploadFile.antt =====
-- server/request_handlers/upload_file_request_handler.cc: the leader's part in the two phases.
pub mod Majority
pub mod Finish
mod Tests
use kyrin_box.Prelude.{
  ℕ, zero, suc, ◌+◌, ◌/◌, Bool, true, false, Option, none, some, List, [], ◌∷◌, ◌++◌, Bytes, ℤ, pos,
  ltb, leb, ◌==◌, if◌then◌else◌, eq_bytes, text, length, c_str,
}
use kyrin_box.Common.Base64.{base64_encode, base64_decode}
use kyrin_box.Common.Cluster.{Cluster, random_chunk_seed, master_confirm_oplog}
use kyrin_box.Common.Decimal.{print_u64}
use kyrin_box.Io.Codec.{Codec, or_empty}
use kyrin_box.Io.Database
use kyrin_box.Io.Database.{LevelDb}
use kyrin_box.Io.HttpClient.{Curl, make_request_post}
use kyrin_box.Server.Base.{
  Request, Reply, server_get_postdata, server_send_reply_ok, server_send_reply_bad,
}
use kyrin_box.Chunk.Status.{Config, ChunkStatus, ClusterStatus, empty_status, from_string}
use kyrin_box.Chunk.Status.Random.{Drawn, not_ready, running, ready, get_random_alive_3}
use kyrin_box.Master.Sentinel.{Status, leader, follower, consensus}
use kyrin_box.Master.Oplog.{
  OperationLog, OperationLogMessage, UploadFileRequest, UploadFileResponse, UploadFileOperation,
  Codecs, Dbs, Stored, stored, log_failed, data_failed, next_id, store, default_log,
}

-- `sprintf(gsp_port, "%s %u", ...)` into 30 bytes; `none` is a write behind their end.
pub print_host : ℕ × Config → Option Bytes
print_host (kbid, c) =
    let line = c_str c.host ++ (b' ' ∷ print_u64 kbid) in
    if ltb (length line) 30 then some line else none

-- The loop over the three hosts.
pub print_hosts : List (ℕ × Config) → Option (List Bytes)
unfolding print_host
print_hosts [] = some []
print_hosts (h ∷ hosts) = elim (print_host h) [
  | none ↦ none
  | some line ↦ elim (print_hosts hosts) [ none ↦ none | some lines ↦ some (line ∷ lines) ]
]

-- The loop that asks the masters `i`, `i + 1`, ... of which there are `n`, one use of libcurl each,
-- and counts those that answer "ok" on top of `cnt`; `none` is undefined behaviour.
pub two_phase : Cluster → (ℕ → Curl) → ℕ → Bytes → ℕ → ℕ → ℕ → Option ℕ
two_phase cluster curls kbid message zero i cnt = some cnt
two_phase cluster curls kbid message (suc n) i cnt =
    let skip = two_phase cluster curls kbid message n (i + 1) cnt in
    let ask : Option ℕ = elim (master_confirm_oplog cluster i) [
      | none ↦ none
      | some (host, port) ↦
          let tp_res =
            (make_request_post (curls i) host port (text "/ConfirmOplog") [] message).1 in
          two_phase cluster curls kbid message n (i + 1)
            (if eq_bytes tp_res (text "ok") then cnt + 1 else cnt)
    ] in
    if i == kbid then skip else ask

-- What the handler is given from outside: the uses of libcurl for the chunk servers and for the two
-- phases, and the values of `rand()`.
pub record World : Type 0 where
  pub gossip : Curl
  pub first_phase : ℕ → Curl
  pub second_phase : ℕ → Curl
  pub rand : ℕ
  pub rands : List ℕ

module _ (L : LevelDb) (codecs : Codecs) (status_codec : Codec ClusterStatus) where
  -- What a request comes to: a reply, undefined behaviour, or a loop that does not end with what
  -- the handler is given.
  pub data Handled : Type 0 where
    replied : Option Reply → Dbs L → Handled
    undefined : Handled
    spinning : Handled

  -- From the second phase on: every master is told, and the operation is stored here.
  pub finish :
      Cluster
      → World
      → ℕ
      → Request
      → Bytes
      → UploadFileOperation
      → OperationLog
      → Bytes
      → Dbs L
      → Handled
  finish cluster w kbid req id operation op_log operation_data s =
      let confirm : OperationLogMessage = record {
        state = pos 2;
        op_id = id;
        op_log = default_log;
      } in
      let post = base64_encode (or_empty (codecs.message.serialize confirm)) in
      let refuse = λ (s : Dbs L) (reply : Bytes). replied (server_send_reply_bad req reply) s in
      elim (two_phase cluster w.second_phase kbid post cluster.master_server_count 1 0) [
        | none ↦ undefined
        | some _ ↦ elim (codecs.log.serialize op_log) [
          | none ↦ refuse s (text "Serialize op_log failed")
          | some op_log_str ↦
              let (result, s') = store L s id op_log_str operation.key operation_data in
              elim result [
                | stored ↦ replied (server_send_reply_ok req (base64_encode operation_data)) s'
                | log_failed ↦ refuse s' (text "put in oplog failed")
                | data_failed ↦ refuse s' (text "put in userdata failed")
              ]
        ]
      ]

  -- The two phases: the first one counts this master and those that answer "ok".
  pub phases : Cluster → World → ℕ → Request → UploadFileOperation → Bytes → Dbs L → Handled
  phases cluster w kbid req operation operation_data s = elim (next_id L s.oplog) [
    | none ↦ undefined
    | some id ↦
        let op_log : OperationLog = record {
          op_type = pos 1;
          log_data = or_empty (codecs.operation.serialize operation);
        } in
        let message : OperationLogMessage = record { state = pos 1; op_id = id; op_log = op_log } in
        let post = base64_encode (or_empty (codecs.message.serialize message)) in
        elim (two_phase cluster w.first_phase kbid post cluster.master_server_count 1 1) [
          | none ↦ undefined
          | some tp_cnt ↦
              if leb tp_cnt (cluster.master_server_count / 2)
              then replied (server_send_reply_bad req (text "Two phase rejected..")) s
              else finish cluster w kbid req id operation op_log operation_data s
        ]
  ]

  -- The three servers, and the operation that is made of them.
  pub make_operation : UploadFileRequest → List Bytes → UploadFileOperation
  make_operation request hosts = record {
    key = request.account ++ request.file_name;
    content = record {
      file_hosts = hosts;
      file_size = request.file_size;
      merkle_sha1 = request.merkle_sha1;
    };
  }

  -- From the operation to the phases.
  pub propose : Cluster → World → ℕ → Request → UploadFileOperation → Dbs L → Handled
  propose cluster w kbid req operation s = elim (codecs.response.serialize operation.content) [
    | none ↦ replied (server_send_reply_bad req (text "Fail to serialize protobuf")) s
    | some operation_data ↦
        let (found, u) = Database.exist L s.userdata operation.key in
        let s' : Dbs L = record s { userdata = u } in
        if found
        then replied (server_send_reply_bad req (operation.key ++ text "Filename existed...")) s'
        else phases cluster w kbid req operation operation_data s'
  ]

  -- `handle_request`
  pub handle_request : Cluster → World → Status → ℕ → Request → Dbs L → Handled
  handle_request cluster w status kbid req s =
      let refuse = λ (reply : Bytes). replied (server_send_reply_bad req reply) s in
      let go : Handled = elim (server_get_postdata req) [
        | none ↦ refuse (text "Can't read post data...")
        | some body ↦
            let request = (codecs.request.parse (base64_decode body)).1 in
            elim (random_chunk_seed w.rand cluster) [
              | none ↦ undefined
              | some (host, port) ↦
                  let response =
                    (make_request_post w.gossip host port (text "/GetStatus") [] (text "Read")).1 in
                  let chunk_status =
                    (from_string status_codec (base64_decode response) empty_status).0 in
                  elim (get_random_alive_3 w.rands chunk_status) [
                    | not_ready ↦ refuse (text "Chunk server not ready...")
                    | running ↦ spinning
                    | ready hosts t ↦ elim (print_hosts hosts) [
                      | none ↦ undefined
                      | some lines ↦ propose cluster w kbid req (make_operation request lines) s
                    ]
                  ]
            ]
      ] in
      elim status [
        | consensus ↦ spinning
        | follower ↦ refuse (text "Service denied...")
        | leader ↦ go
      ]
