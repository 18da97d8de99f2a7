-- ===== src/Master/GetOplog.antt =====
-- server/request_handlers/get_oplog_request_handler.cc: a page of the operation log.
pub mod Page
pub mod Served
mod Tests
use kyrin_box.Prelude.{
  ℕ, ◌+◌, Bool, true, false, Option, none, some, List, [], ◌∷◌, ◌++◌, Bytes, ◌==◌, if◌then◌else◌,
  text,
}
use kyrin_box.Common.Base64.{base64_encode, base64_decode}
use kyrin_box.Io.Codec.{or_empty}
use kyrin_box.Io.Database
use kyrin_box.Io.Database.{LevelDb}
use kyrin_box.Server.Base.{
  Request, Reply, server_get_postdata, server_send_reply_ok, server_send_reply_bad,
}
use kyrin_box.Master.Oplog.{Codecs}

-- `k_server_max_get_oplog_size`
abbrev pub max_get_oplog_size : ℕ
max_get_oplog_size = 100

-- The loop over the iterator, at the entry `(key, value)` with `rest` behind it: the values, and
-- the key of the last one.
unfoldable pub page : ℕ → List Bytes → Bytes × Bytes → List (Bytes × Bytes) → List Bytes × Bytes
page cnt acc (key, value) [] = (acc ++ (value ∷ []), key)
page cnt acc (key, value) (e ∷ rest) =
    let more = page (cnt + 1) (acc ++ (value ∷ [])) e rest in
    if cnt + 1 == max_get_oplog_size then (acc ++ (value ∷ []), key) else more

-- `handle_request`: the reply, and the database, which a failed read may have opened again.
unfoldable pub handle_request : (L : LevelDb) → Codecs → L.Db → Request → Option Reply × L.Db
handle_request L codecs db req = elim (server_get_postdata req) [
  | none ↦ (server_send_reply_bad req (text "Can't read post"), db)
  | some body ↦
      let id = base64_decode body in
      let (found, db') = Database.exist L db id in
      let reply : Option Reply = elim (L.seek db' id) [
        | [] ↦ server_send_reply_bad req (text "Invalid status")
        | e ∷ rest ↦
            let (values, last) = page 0 [] e rest in
            server_send_reply_ok req (
              base64_encode
                (or_empty (codecs.page.serialize (record { last_id = last; log_data = values }))))
      ] in
      (if found then reply else server_send_reply_bad req (text "No such op id"), db')
]
