-- ===== src/Server/KeyCenter/Access.antt =====
-- Who may write a key.
use kyrin_box.Prelude.{◌≡◌, none, some, ◌⊎◌, [], Bytes, text, c_str}
use kyrin_box.Common.Base64.{base64_decode}
use kyrin_box.Io.Codec.{Codec}
use kyrin_box.Server.Base.{Request, server_get_postdata, server_get_header}
use kyrin_box.Server.Base.Digest.{IsDigest}
use kyrin_box.Server.Rsa.Signatures.{Confirms}
use kyrin_box.Server.Rsa.{OpenSsl}
use kyrin_box.Server.Redis.{Redis, string_reply}
use kyrin_box.Server.KeyCenter.{SetKeyRequest}

-- The digest of the request or, where it has no timestamp, the empty text.
abbrev pub IsCompared : (Bytes → Bytes) → Request → Bytes → Type 0
IsCompared sha1 req digest =
    IsDigest sha1 req digest
    ⊎ ((server_get_header req (text "KYRIN-TIMESTAMP") ≡ none) × (digest ≡ []))

-- What an authorised request has: the key centre has an administrator's key, which decrypts the
-- signature of the request to the digest, and what is left is what SET left of the posted key and
-- name.
pub record Authorised (R : Redis) (S : OpenSsl) (sha1 : Bytes → Bytes) (codec : Codec SetKeyRequest)
    (req : Request) (db db' : R.Db) : Type 0 where
  pub key : Bytes
  pub signature : Bytes
  pub digest : Bytes
  pub body : Bytes
  pub admin : (R.get db (text "KeyCenterAdminPublicKey")).0 ≡ string_reply key
  pub signed : server_get_header req (text "KYRIN-SIGNATURE") ≡ some signature
  pub posted : server_get_postdata req ≡ some body
  pub compared : IsCompared sha1 req digest
  pub confirmed : Confirms S (c_str key) digest (base64_decode signature)
  pub written :
      let request = (codec.parse (base64_decode body)).1 in
      db'
      ≡ (R.set
          (R.get db (text "KeyCenterAdminPublicKey")).1
          (c_str request.key_id)
          (c_str request.key_public)).1
