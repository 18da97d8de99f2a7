-- ===== src/Server/Identity/Passes.antt =====
-- Which requests pass the filter.
use kyrin_box.Prelude.{
  All, ◌<◌, ◌≡◌, ◌∙◌, ◌⊎◌, refl, sym, ap, some, inl, inr, Bytes, eq_bytes_iff, text, arith,
  Bool-cases, Option-cases,
}
use kyrin_box.Common.Base64.{base64_encode, base64_decode}
use kyrin_box.Common.Base64.RoundTrip.{decode-encode}
use kyrin_box.Io.Codec.{Codec}
use kyrin_box.Io.HttpClient.{Curl}
use kyrin_box.Server.Base.{Request, server_get_header, server_get_digest}
use kyrin_box.Server.Rsa.{
  OpenSsl, RsaHelper, GetKeyRequest, private_encrypt, examine_legality_from_user,
}
use kyrin_box.Server.Base.Digest.{IsDigest, server_get_digest-IsDigest}
use kyrin_box.Server.Rsa.Signatures.{Confirms, IsPair, examine_legality-private_encrypt}
use kyrin_box.Server.Rsa.Issuers.{
  IsKeyOf, examine_legality_from_user-Confirms, examine_legality_from_user_lem,
}
use kyrin_box.Server.Identity.{pass, filter_request}

Sum-cases : (x : Bytes ⊎ Bytes) → ((a : Bytes) × (x ≡ inl a)) ⊎ ((b : Bytes) × (x ≡ inr b))
Sum-cases (inl a) = inl (a, refl)
Sum-cases (inr b) = inr (b, refl)

-- A request passes only with a signature, an issuer, a timestamp and post data, such that the key of
-- the issuer, from the cache or else from the key centre, decrypts the signature to the digest of
-- the timestamp and the post data.
pub filter_request-pass :
    (S : OpenSsl) (sha1 : Bytes → Bytes) (codec : Codec GetKeyRequest) (curl : Curl)
    (h h' : RsaHelper) (req : Request)
    → filter_request S sha1 codec curl h req ≡ some (pass h')
    → (signature : Bytes) × (issuer : Bytes) × (digest : Bytes) × (key : Bytes) × (server_get_header
          req
          (text "KYRIN-SIGNATURE")
        ≡ some signature)
      × (server_get_header req (text "KYRIN-ISSUER") ≡ some issuer)
      × IsDigest sha1 req digest
      × IsKeyOf codec curl h issuer key
      × Confirms S key digest (base64_decode signature)
unfolding filter_request
filter_request-pass S sha1 codec curl h h' req e =
    elim (Option-cases (server_get_header req (text "KYRIN-SIGNATURE"))) [
      | inl out ↦ let bad = rw (filter_request, out) at e in absurd (ground arith)
      | inr (signature, signed) ↦
          elim (Option-cases (server_get_header req (text "KYRIN-ISSUER"))) [
            | inl out ↦ let bad = rw (filter_request, signed, out) at e in absurd (ground arith)
            | inr (issuer, issued) ↦ elim (Sum-cases (server_get_digest sha1 req)) [
              | inl (reply, out) ↦
                  let bad = rw (filter_request, signed, issued, out) at e in absurd (ground arith)
              | inr (digest, made) ↦
                  elim (Option-cases (
                    examine_legality_from_user S codec curl h issuer digest
                      (base64_decode signature))) [
                        | inl out ↦
                            let bad = rw (filter_request, signed, issued, made, out) at e in
                            absurd (ground arith)
                        | inr ((h1, legal), known) ↦ elim (Bool-cases legal) [
                          | inr out ↦
                              let bad =
                                rw (filter_request, signed, issued, made, known, out) at e in
                              absurd (ground arith)
                          | inl good ↦
                              let (key, of, confirmed) =
                                examine_legality_from_user-Confirms S codec curl h h1 issuer digest
                                  (base64_decode signature) (ground (arith, known, good)) in
                              (
                                signature,
                                issuer,
                                digest,
                                key,
                                signed,
                                issued,
                                server_get_digest-IsDigest sha1 req digest made,
                                of,
                                confirmed,
                              )
                        ]
                      ]
            ]
          ]
    ]

-- A request that its issuer signed passes: if the signature was made, with the private key of a pair,
-- of the digest of the timestamp and the post data, and the public key of the pair is the one of the
-- issuer.
pub filter_request-signed :
    (S : OpenSsl) (sha1 : Bytes → Bytes) (codec : Codec GetKeyRequest) (curl : Curl) (h : RsaHelper)
    (req : Request) (issuer public_key private_key digest signature : Bytes)
    → IsPair S public_key private_key
    → IsDigest sha1 req digest
    → private_encrypt S digest private_key ≡ some signature
    → All (λ c. c < 256) signature
    → server_get_header req (text "KYRIN-SIGNATURE") ≡ some (base64_encode signature)
    → server_get_header req (text "KYRIN-ISSUER") ≡ some issuer
    → (of : IsKeyOf codec curl h issuer public_key)
    → filter_request S sha1 codec curl h req ≡ some (pass (record h { cache = of.0 }))
unfolding filter_request server_get_digest
filter_request-signed S sha1 codec curl h req issuer public_key private_key digest signature pair is
      signs bytes signed issued of =
    let accepts =
      examine_legality-private_encrypt S public_key private_key digest digest signature pair signs
      ∙ (eq_bytes_iff digest digest).1 refl in
    let made : server_get_digest sha1 req ≡ inr digest =
      rw (is.posted, is.stamped, server_get_digest) (ap (λ d. inr d) (sym is.made)) in
    let known =
      examine_legality_from_user_lem S codec curl h issuer public_key digest signature of in
    rw (signed, issued, made, decode-encode signature bytes, known, accepts, filter_request) refl
