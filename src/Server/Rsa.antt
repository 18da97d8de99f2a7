-- ===== src/Server/Rsa.antt =====
-- common/crypto/kyrin_rsa.cc and common/kyrin_rsa_helper.cc, over OpenSSL as a parameter.
pub mod Issuers
pub mod Signatures
mod Tests
use kyrin_box.Prelude.{
  ℕ, Bool, true, false, not, ◌||◌, Option, none, some, [], Bytes, if◌then◌else◌, text, c_str,
  eq_bytes,
}
use kyrin_box.Common.Base64.{base64_encode}
use kyrin_box.Common.LruCache
use kyrin_box.Common.LruCache.{Cache}
use kyrin_box.Io.Codec.{Codec, or_empty}
use kyrin_box.Io.HttpClient.{Curl, make_request_post}

-- What the code calls of OpenSSL: reading a key in PEM form, and the four operations with
-- `RSA_PKCS1_PADDING`, where `none` is the length -1.
pub record OpenSsl : Type 1 where
  pub Key : Type 0
  pub read_public : Bytes → Option Key
  pub read_private : Bytes → Option Key
  pub public_encrypt : Key → Bytes → Option Bytes
  pub public_decrypt : Key → Bytes → Option Bytes
  pub private_encrypt : Key → Bytes → Option Bytes
  pub private_decrypt : Key → Bytes → Option Bytes

module _ (S : OpenSsl) where
  -- `create_rsa`; the key is read as a C string.
  pub create_rsa : Bytes → Bool → Option S.Key
  create_rsa key is_public =
      if is_public then S.read_public (c_str key) else S.read_private (c_str key)

  -- The text that is assigned; `none` is the result false.
  pub public_encrypt : Bytes → Bytes → Option Bytes
  unfolding create_rsa
  public_encrypt plaintext key = elim (create_rsa key true) [
    | none ↦ none
    | some rsa ↦ S.public_encrypt rsa plaintext
  ]

  pub public_decrypt : Bytes → Bytes → Option Bytes
  unfolding create_rsa
  public_decrypt ciphertext key = elim (create_rsa key true) [
    | none ↦ none
    | some rsa ↦ S.public_decrypt rsa ciphertext
  ]

  unfoldable pub private_encrypt : Bytes → Bytes → Option Bytes
  unfolding create_rsa
  private_encrypt plaintext key = elim (create_rsa key false) [
    | none ↦ none
    | some rsa ↦ S.private_encrypt rsa plaintext
  ]

  pub private_decrypt : Bytes → Bytes → Option Bytes
  unfolding create_rsa
  private_decrypt ciphertext key = elim (create_rsa key false) [
    | none ↦ none
    | some rsa ↦ S.private_decrypt rsa ciphertext
  ]

  -- `KyrinRsaHelper::examine_legality`
  unfoldable pub examine_legality : Bytes → Bytes → Bytes → Bool
  unfolding public_decrypt
  examine_legality public_key digest signature = elim (public_decrypt signature public_key) [
    | none ↦ false
    | some plaintext ↦ eq_bytes plaintext digest
  ]

-- `KyrinRsaHelper`: `m_host`, `m_port` and `m_cache`.
pub record RsaHelper : Type 0 where
  pub host : Bytes
  pub port : ℕ
  pub cache : Cache Bytes Bytes

-- The message `GetKyrinKeyRequest`.
pub record GetKeyRequest : Type 0 where
  pub key_id : Bytes

-- `fetch_public_key`: the key; `none` is the result false.
pub fetch_public_key : Codec GetKeyRequest → Curl → RsaHelper → Bytes → Option Bytes
fetch_public_key codec curl h issuer =
    let postdata = base64_encode (or_empty (codec.serialize (record { key_id = issuer }))) in
    let (sent, public_key) =
      make_request_post curl h.host h.port (text "/GetKyrinKey") [] postdata in
    if not sent || eq_bytes public_key [] then none else some public_key

-- `examine_legality_from_user`: the helper behind the call, and the result; the outer `none` is
-- undefined behaviour of the cache.
unfoldable pub examine_legality_from_user :
    OpenSsl
    → Codec GetKeyRequest
    → Curl
    → RsaHelper
    → Bytes
    → Bytes
    → Bytes
    → Option (RsaHelper × Bool)
unfolding fetch_public_key
examine_legality_from_user S codec curl h issuer digest signature =
    elim (LruCache.get eq_bytes h.cache issuer) [
      | none ↦ none
      | some (cache, some public_key) ↦
          some (record h { cache = cache }, examine_legality S public_key digest signature)
      | some (cache, none) ↦ elim (fetch_public_key codec curl h issuer) [
        | none ↦ some (record h { cache = cache }, false)
        | some public_key ↦
            some (record h { cache = cache }, examine_legality S public_key digest signature)
      ]
    ]
