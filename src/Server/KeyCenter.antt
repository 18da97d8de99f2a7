-- ===== src/Server/KeyCenter.antt =====
-- server/request_handlers/set_kyrin_key_request_handler.cc and get_kyrin_key_request_handler.cc:
-- the public keys of the users.
pub mod Access
mod Tests
use kyrin_box.Prelude.{
  ℕ, Bool, true, false, Option, none, some, ◌⊎◌, inl, inr, [], ◌∷◌, Bytes, if◌then◌else◌, text,
  c_str,
}
use kyrin_box.Common.Base64.{base64_decode}
use kyrin_box.Io.Codec.{Codec}
use kyrin_box.Server.Base.{
  Request, Reply, server_get_postdata, server_get_header, server_get_digest, server_send_reply_ok,
  server_send_reply_bad,
}
use kyrin_box.Server.Rsa.{OpenSsl, GetKeyRequest, examine_legality}
use kyrin_box.Server.Redis.{Redis, RedisReply, no_reply, redis_error, other_reply, string_reply}

pub record SetKeyRequest : Type 0 where
  pub key_id : Bytes
  pub key_public : Bytes

module _ (R : Redis) where
  -- What a request comes to: a reply, or undefined behaviour.
  pub data Handled : Type 0 where
    replied : Option Reply → R.Db → Handled
    undefined : Handled

  -- `SetKyrinKeyRequestHandler::handle_request`: the result of `server_get_digest` is not looked
  -- at. A SET without a reply ends in `freeReplyObject(NULL)`, which does nothing.
  pub set_key : OpenSsl → (Bytes → Bytes) → Codec SetKeyRequest → Request → R.Db → Handled
  set_key S sha1 codec req db =
      let refuse = λ (reply : Bytes) (db : R.Db). replied (server_send_reply_bad req reply) db in
      elim (server_get_postdata req) [
        | none ↦ refuse (text "Can't read post data ...") db
        | some body ↦
            let request = (codec.parse (base64_decode body)).1 in
            let (admin, db1) = R.get db (text "KeyCenterAdminPublicKey") in
            elim admin [
              | no_reply ↦ refuse (text "Failed to authenticate") db1
              | redis_error ↦ refuse (text "Failed to authenticate") db1
              | other_reply ↦ refuse (text "Failed to authenticate") db1
              | string_reply public_key ↦ elim (server_get_header req (text "KYRIN-SIGNATURE")) [
                | none ↦ refuse (text "No signature found") db1
                | some signature ↦
                    let digest : Bytes = elim (server_get_digest sha1 req) [
                      | inl _ ↦ []
                      | inr digest ↦ digest
                    ] in
                    let legal =
                      examine_legality S (c_str public_key) digest (base64_decode signature) in
                    let (written, db2) =
                      R.set db1 (c_str request.key_id) (c_str request.key_public) in
                    let wrote : Handled = elim written [
                      | redis_error ↦ refuse (text "Failed to write key") db2
                      | no_reply ↦ replied (server_send_reply_ok req (text "ok")) db2
                      | other_reply ↦ replied (server_send_reply_ok req (text "ok")) db2
                      | string_reply _ ↦ replied (server_send_reply_ok req (text "ok")) db2
                    ] in
                    if legal then wrote else refuse (text "Unauthorized") db1
              ]
            ]
      ]

  -- `GetKyrinKeyRequestHandler::handle_request`
  pub get_key : Codec GetKeyRequest → Request → R.Db → Handled
  get_key codec req db =
      let refuse = λ (reply : Bytes) (db : R.Db). replied (server_send_reply_bad req reply) db in
      elim (server_get_postdata req) [
        | none ↦ refuse (text "Can't read post data ...") db
        | some body ↦
            let (parsed, request) = codec.parse (base64_decode body) in
            let (found, db1) = R.get db (c_str request.key_id) in
            let answer : Handled = elim found [
              | string_reply key ↦ replied (server_send_reply_ok req (c_str key)) db1
              | no_reply ↦ refuse (text "No such key") db1
              | redis_error ↦ refuse (text "No such key") db1
              | other_reply ↦ refuse (text "No such key") db1
            ] in
            if parsed then answer else refuse (text "Bad request...") db
      ]
