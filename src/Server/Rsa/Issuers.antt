-- ===== src/Server/Rsa/Issuers.antt =====
-- Whose key decides about the signature of a user.
use mathlib.Core.Option.{some-injective}
use kyrin_box.Prelude.{
  ◌≡◌, ◌⊎◌, refl, subst, true, false, none, some, [], Bytes, eq_bytes, text, inl, inr, Bool-cases,
  Option-cases, arith,
}
use kyrin_box.Common.Base64.{base64_encode}
use kyrin_box.Common.LruCache
use kyrin_box.Common.LruCache.{Cache}
use kyrin_box.Io.Codec.{Codec, or_empty}
use kyrin_box.Io.HttpClient.{Curl, make_request_post}
use kyrin_box.Server.Rsa.{
  OpenSsl, RsaHelper, GetKeyRequest, fetch_public_key, examine_legality, examine_legality_from_user,
}
use kyrin_box.Server.Rsa.Signatures.{Confirms, examine_legality-Confirms}

-- The key centre answers a request for the key of the issuer by this text, which is not empty.
abbrev pub Fetched : Codec GetKeyRequest → Curl → RsaHelper → Bytes → Bytes → Type 0
Fetched codec curl h issuer key =
    (make_request_post curl h.host h.port (text "/GetKyrinKey") []
        (base64_encode (or_empty (codec.serialize record { key_id = issuer })))
      ≡ (true, key))
    × (eq_bytes key [] ≡ false)

-- The key is the one of the issuer: it is in the cache or, if it is not there, at the key centre.
abbrev pub IsKeyOf : Codec GetKeyRequest → Curl → RsaHelper → Bytes → Bytes → Type 0
IsKeyOf codec curl h issuer key =
    (cache : Cache Bytes Bytes) × ((LruCache.get eq_bytes h.cache issuer ≡ some (cache, some key))
      ⊎ ((LruCache.get eq_bytes h.cache issuer ≡ some (cache, none))
          × Fetched codec curl h issuer key))

fetch_public_key-Fetched :
    (codec : Codec GetKeyRequest) (curl : Curl) (h : RsaHelper) (issuer key : Bytes)
    → fetch_public_key codec curl h issuer ≡ some key
    → Fetched codec curl h issuer key
unfolding fetch_public_key
fetch_public_key-Fetched codec curl h issuer key e =
    let got =
      make_request_post curl h.host h.port (text "/GetKyrinKey") []
        (base64_encode (or_empty (codec.serialize record { key_id = issuer }))) in
    elim (Bool-cases got.0) [
      | inr fails ↦ let bad = rw (fetch_public_key, fails) at e in absurd (ground (arith, bad))
      | inl sent ↦ elim (Bool-cases (eq_bytes got.1 [])) [
        | inl empty ↦
            let bad = rw (fetch_public_key, sent, empty) at e in absurd (ground (arith, bad))
        | inr full ↦
            let e' = rw (fetch_public_key, sent, full) at e in
            let same : got.1 ≡ key = some-injective got.1 key e' in
            (λ i. (sent i, same i), subst (λ k. eq_bytes k [] ≡ false) same full)
      ]
    ]

pub examine_legality_from_user-Confirms :
    (S : OpenSsl) (codec : Codec GetKeyRequest) (curl : Curl) (h h' : RsaHelper)
    (issuer digest signature : Bytes)
    → examine_legality_from_user S codec curl h issuer digest signature ≡ some (h', true)
    → (key : Bytes) × IsKeyOf codec curl h issuer key × Confirms S key digest signature
unfolding examine_legality_from_user
examine_legality_from_user-Confirms S codec curl h h' issuer digest signature e =
    elim (Option-cases (LruCache.get eq_bytes h.cache issuer)) [
      | inl out ↦
          let bad = rw (examine_legality_from_user, out) at e in absurd (ground (arith, bad))
      | inr ((cache, some key), known) ↦
          let e1 = rw (examine_legality_from_user, known) at e in
          let legal : examine_legality S key digest signature ≡ true = ground (arith, e1) in
          (key, (cache, inl known), examine_legality-Confirms S key digest signature legal)
      | inr ((cache, none), unknown) ↦ elim (Option-cases (fetch_public_key codec curl h issuer)) [
        | inl out ↦
            let bad = rw (examine_legality_from_user, unknown, out) at e in
            absurd (ground (arith, bad))
        | inr (key, fetched) ↦
            let e1 = rw (examine_legality_from_user, unknown, fetched) at e in
            let legal : examine_legality S key digest signature ≡ true = ground (arith, e1) in
            (
              key,
              (cache, inr (unknown, fetch_public_key-Fetched codec curl h issuer key fetched)),
              examine_legality-Confirms S key digest signature legal,
            )
      ]
    ]

-- And with a key of the issuer the result is whether this key accepts the signature.
pub examine_legality_from_user_lem :
    (S : OpenSsl) (codec : Codec GetKeyRequest) (curl : Curl) (h : RsaHelper)
    (issuer key digest signature : Bytes) (of : IsKeyOf codec curl h issuer key)
    → examine_legality_from_user S codec curl h issuer digest signature
      ≡ some (record h { cache = of.0 }, examine_legality S key digest signature)
unfolding examine_legality_from_user fetch_public_key
examine_legality_from_user_lem S codec curl h issuer key digest signature (cache, inl known) =
    rw (known, examine_legality_from_user) refl
examine_legality_from_user_lem S codec curl h issuer key digest signature
      (cache, inr (unknown, (sent, full))) =
    rw (unknown, sent, full, examine_legality_from_user) refl
