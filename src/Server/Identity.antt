-- ===== src/Server/Identity.antt =====
-- server/request_filters/examine_identity_request_filter.cc: who may use a server.
pub mod Passes
mod Tests
use kyrin_box.Prelude.{
  ℕ, ◌≡◌, refl, Bool, true, false, not, Option, none, some, ◌⊎◌, inl, inr, [], ◌∷◌, Bytes,
  if◌then◌else◌, text,
}
use kyrin_box.Common.Base64.{base64_decode}
use kyrin_box.Io.Codec.{Codec}
use kyrin_box.Io.HttpClient.{Curl}
use kyrin_box.Server.Base.{
  Request, Reply, server_send_reply_bad, server_get_header, server_get_digest,
}
use kyrin_box.Server.Rsa.{OpenSsl, RsaHelper, GetKeyRequest, examine_legality_from_user}

-- What the filter comes to: the request goes on to its handler, or a reply was sent.
pub data Verdict : Type 0 where
  pass : RsaHelper → Verdict
  rejected : RsaHelper → Option Reply → Verdict

-- `filter_request`; `none` is undefined behaviour of the cache.
pub filter_request :
    OpenSsl → (Bytes → Bytes) → Codec GetKeyRequest → Curl → RsaHelper → Request → Option Verdict
filter_request S sha1 codec curl h req =
    let refuse = λ (h : RsaHelper) (reply : Bytes). rejected h (server_send_reply_bad req reply) in
    elim (server_get_header req (text "KYRIN-SIGNATURE")) [
      | none ↦ some (refuse h (text "Can't read KYRIN-SIGNATURE.."))
      | some signature ↦ elim (server_get_header req (text "KYRIN-ISSUER")) [
        | none ↦ some (refuse h (text "Can't read KYRIN-ISSUER.."))
        | some issuer ↦ elim (server_get_digest sha1 req) [
          | inl reply ↦ some (refuse h (text "Can't read digest"))
          | inr digest ↦
              elim (examine_legality_from_user S codec curl h issuer digest
                (base64_decode signature)) [
                  | none ↦ none
                  | some (h', legal) ↦
                      if legal then some (pass h') else some (refuse h' (text "Bad signature"))
                ]
        ]
      ]
    ]
