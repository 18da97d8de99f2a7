-- ===== src/Server/Identity/Tests.antt =====
-- A request with a good signature.
use kyrin_box.Prelude.{
  ◌≡◌, refl, sym, true, some, none, inr, arith, [], ◌∷◌, Bytes, text, c_str, eq_bytes,
}
use kyrin_box.Common.Base64.{base64_encode, base64_decode, char_of, is_base64, sextet_of}
use kyrin_box.Common.Hex.{string_to_hex, digit_of}
use kyrin_box.Common.LruCache.{init, get, find}
use kyrin_box.Io.Codec.{Codec}
use kyrin_box.Io.HttpClient.{make_request_post}
use kyrin_box.Server.Base.{
  Request, server_get_header, server_get_postdata, server_get_digest, kyrin_sha1,
}
use kyrin_box.Server.Example.{plain, request, answering}
use kyrin_box.Server.Rsa.{
  RsaHelper, GetKeyRequest, private_encrypt, examine_legality, examine_legality_from_user,
}
use kyrin_box.Server.Base.Digest.{IsDigest}
use kyrin_box.Server.Rsa.Signatures.{Confirms, IsPair}
use kyrin_box.Server.Rsa.Issuers.{IsKeyOf}
use kyrin_box.Server.Identity.{pass, filter_request}
use kyrin_box.Server.Identity.Passes.{filter_request-pass, filter_request-signed}

abbrev codec : Codec GetKeyRequest
codec = record { serialize = λ m. none; parse = λ b. (true, record { key_id = [] }) }

abbrev helper : RsaHelper
helper = record { host = text "h"; port = 80; cache = init 4 }

filter_request-pass_example :
    let req = request (text "MDE=") (text "x") in
    (signature : Bytes) × (issuer : Bytes) × (digest : Bytes) × (key : Bytes) × (server_get_header
        req
        (text "KYRIN-SIGNATURE")
      ≡ some signature)
    × (server_get_header req (text "KYRIN-ISSUER") ≡ some issuer)
    × IsDigest (λ b. 1 ∷ []) req digest
    × IsKeyOf codec (answering (text "key")) helper issuer key
    × Confirms plain key digest (base64_decode signature)
unfolding filter_request sextet_of examine_legality examine_legality_from_user server_get_digest
    base64_decode is_base64 string_to_hex digit_of eq_bytes c_str get find init make_request_post
filter_request-pass_example =
    filter_request-pass plain (λ b. 1 ∷ []) codec (answering (text "key")) helper helper
      (request (text "MDE=") (text "x")) refl

pair : IsPair plain (text "key") (text "private")
pair = record {
  rsa = _;
  rsa' = _;
  reads_public = refl;
  reads_private = refl;
  decrypts = λ t c e. sym e;
}

-- A request that is signed by the text of its digest.
abbrev signed : Request
signed = request (text "MDE=") (text "x")

signed-IsDigest : IsDigest (λ b. 1 ∷ []) signed (text "01")
unfolding server_get_postdata server_get_header kyrin_sha1 string_to_hex digit_of eq_bytes
signed-IsDigest = record {
  body = text "x";
  timestamp = [];
  posted = refl;
  stamped = refl;
  made = refl;
}

filter_request-signed_example :
    filter_request plain (λ b. 1 ∷ []) codec (answering (text "key")) helper signed
    ≡ some (pass helper)
unfolding private_encrypt server_get_header base64_encode char_of eq_bytes c_str get find init
    make_request_post
filter_request-signed_example =
    filter_request-signed plain (λ b. 1 ∷ []) codec (answering (text "key")) helper signed
      (text "me") (text "key") (text "private") (text "01") (text "01") pair signed-IsDigest refl
      (omega arith) refl refl (init 4, inr (refl, (refl, refl)))
