-- ===== src/Server/Slavenode.antt =====
-- server/slavenode/kyrin_slavenode_sync.cc: how a slave node copies the log of the masters, and
-- request_handlers/download_file_request_handler.cc: how it answers from the copy.
pub mod Answers
pub mod Copy
pub mod Synced
mod Tests
use kyrin_box.Prelude.{
  ℕ, ◌++◌, negsuc, c_str, ◌+◌, ◌%◌, Option, none, some, List, [], ◌∷◌, Bytes, ℤ, pos, eq_ℤ, ◌==◌,
  if◌then◌else◌, text,
}
use kyrin_box.Common.OplogId.{get_zero, add_one}
use kyrin_box.Common.Base64.{base64_encode, base64_decode}
use kyrin_box.Common.Cluster.{Cluster, master_get_oplog}
use kyrin_box.Common.Decimal.{print_u64}
use kyrin_box.Io.Codec.{Codec}
use kyrin_box.Server.Base.{
  Request, Reply, server_get_postdata, server_send_reply_ok, server_send_reply_bad,
}
use kyrin_box.Io.HttpClient.{Curl, make_request_post}
use kyrin_box.Server.Redis.{Redis, no_reply, redis_error, other_reply, string_reply}
use kyrin_box.Master.Oplog.{UploadFileResponse, Codecs}

module _ (R : Redis) (codecs : Codecs) where
  -- The loop over one page: the redis and `current_id` where it ends or breaks off; `none` is
  -- undefined behaviour of `add_one`.
  pub apply_page : List Bytes → R.Db → Bytes → Option (R.Db × Bytes)
  apply_page [] db current_id = some (db, current_id)
  apply_page (item ∷ items) db current_id =
      let op_log = (codecs.log.parse item).1 in
      let op_data = (codecs.operation.parse op_log.log_data).1 in
      let skip = apply_page items db current_id in
      if eq_ℤ op_log.op_type (pos 1)
      then elim (codecs.response.serialize op_data.content) [
        | none ↦ some (db, current_id)
        | some operation_data ↦
            let (result, db') = R.set db op_data.key operation_data in
            let next : Option (R.Db × Bytes) = elim (add_one current_id) [
              | none ↦ none
              | some (id, _) ↦ apply_page items db' id
            ] in
            elim result [
              | redis_error ↦ some (db', current_id)
              | no_reply ↦ next
              | other_reply ↦ next
              | string_reply _ ↦ next
            ]
      ]
      else skip

  -- One round of the loop, with one use of libcurl and the value of `rand()` that picks the master.
  pub sync_round : Cluster → Curl → ℕ → R.Db × Bytes → Option (R.Db × Bytes)
  unfolding apply_page
  sync_round cluster curl rand (db, current_id) =
      if cluster.master_server_count == 0
      then none
      else elim (master_get_oplog cluster (rand % cluster.master_server_count + 1)) [
        | none ↦ none
        | some (host, port) ↦
            let (sent, response) =
              make_request_post curl host port (text "/GetOplog") [] (base64_encode current_id) in
            let data' = (codecs.page.parse (base64_decode response)).1 in
            if sent then apply_page data'.log_data db current_id else some (db, current_id)
      ]

  -- The rounds that the given uses of libcurl and values of `rand()` allow.
  pub sync : Cluster → List (Curl × ℕ) → R.Db × Bytes → Option (R.Db × Bytes)
  unfolding sync_round
  sync cluster [] s = some s
  sync cluster ((curl, rand) ∷ steps) s = elim (sync_round cluster curl rand s) [
    | none ↦ none
    | some s' ↦ sync cluster steps s'
  ]

  -- `kyrin_slavenode_sync_func` behind the connection to redis.
  pub sync_func : Cluster → List (Curl × ℕ) → R.Db → Option (R.Db × Bytes)
  unfolding sync
  sync_func cluster steps db = sync cluster steps (db, get_zero)

-- `stringstream << int64_t`
pub print_i64 : ℤ → Bytes
print_i64 (pos n) = print_u64 n
print_i64 (negsuc n) = b'-' ∷ print_u64 (n + 1)

pub print_file_hosts : List Bytes → Bytes
print_file_hosts [] = []
print_file_hosts (host ∷ hosts) = host ++ (text " | " ++ print_file_hosts hosts)

-- The text that `DownloadFileRequestHandler` makes of a message.
pub print_response : UploadFileResponse → Bytes
unfolding print_file_hosts print_i64
print_response r =
    print_file_hosts r.file_hosts
    ++ (print_i64 r.file_size ++ (text " | " ++ (r.merkle_sha1 ++ text "\n")))

-- server/request_handlers/download_file_request_handler.cc
pub download_file : (R : Redis) → Codec UploadFileResponse → Request → R.Db → Option Reply × R.Db
unfolding print_response
download_file R codec req db = elim (server_get_postdata req) [
  | none ↦ (server_send_reply_bad req (text "Can't read post"), db)
  | some body ↦
      let (found, db') = R.get db body in
      let refused : Option Reply × R.Db = (server_send_reply_bad req (text "No such key"), db') in
      elim found [
        | no_reply ↦ refused
        | redis_error ↦ refused
        | other_reply ↦ refused
        | string_reply str ↦
            (server_send_reply_ok req (print_response (codec.parse (c_str str)).1), db')
      ]
]
