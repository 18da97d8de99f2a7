-- ===== src/Server/Base.antt =====
-- server/base/kyrin_base_server.cc: headers, post data, digests and replies over libevent.
pub mod Digest
use kyrin_box.Prelude.{
  ℕ, ◌*◌, Bool, ◌&&◌, Option, none, some, ◌⊎◌, inl, inr, ◌++◌, Bytes, ltb, if◌then◌else◌, text,
  length, c_str,
}
use kyrin_box.Common.Hex.{string_to_hex}

-- An `evhttp_request`: the headers, the bytes of the input buffer, which no read removes, and
-- whether `evbuffer_new` gives a buffer for the reply.
pub record Request : Type 0 where
  pub header : Bytes → Option Bytes
  pub body : Bytes
  pub buffer : Bool

-- `HTTP_OK` and `HTTP_BADREQUEST`, with the text of the reply.
pub data Reply : Type 0 where
  ok_reply : Bytes → Reply
  bad_reply : Bytes → Reply

-- The reply that is sent; `none` is the result false. `%s` ends at the first zero byte.
unfoldable pub server_send_reply_ok : Request → Bytes → Option Reply
server_send_reply_ok req msg = if req.buffer then some (ok_reply (c_str msg)) else none

unfoldable pub server_send_reply_bad : Request → Bytes → Option Reply
server_send_reply_bad req msg = if req.buffer then some (bad_reply (c_str msg)) else none

unfoldable pub server_get_header : Request → Bytes → Option Bytes
server_get_header req key = req.header key

-- `k_server_max_post_data_size`
abbrev pub max_post_data_size : ℕ
max_post_data_size = 1024 * 64

unfoldable pub server_get_postdata : Request → Option Bytes
server_get_postdata req =
    if ltb 0 (length req.body) && ltb (length req.body) max_post_data_size
    then some req.body
    else none

-- common/crypto/kyrin_sha1.cc; `sha1` is OpenSSL's `SHA1`.
unfoldable pub kyrin_sha1 : (Bytes → Bytes) → Bytes → Bytes
kyrin_sha1 sha1 data' = string_to_hex (sha1 data')

-- The digest, or the reply that is set with the result false.
unfoldable pub server_get_digest : (Bytes → Bytes) → Request → Bytes ⊎ Bytes
unfolding server_get_postdata server_get_header kyrin_sha1
server_get_digest sha1 req = elim (server_get_postdata req) [
  | none ↦ inl (text "Can't read post data..")
  | some post_data ↦ elim (server_get_header req (text "KYRIN-TIMESTAMP")) [
    | none ↦ inl (text "Can't read post KYRIN-TIMESTAMP..")
    | some timestamp ↦ inr (kyrin_sha1 sha1 (timestamp ++ post_data))
  ]
]
