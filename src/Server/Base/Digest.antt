-- ===== src/Server/Base/Digest.antt =====
-- What a digest is made of.
use kyrin_box.Prelude.{◌≡◌, ◌⊎◌, refl, none, some, inl, inr, Bytes, ◌++◌, text, Option-cases, arith}
use kyrin_box.Server.Base.{
  Request, server_get_postdata, server_get_header, server_get_digest, kyrin_sha1,
}

-- The digest is that of the timestamp and the post data.
pub record IsDigest (sha1 : Bytes → Bytes) (req : Request) (digest : Bytes) : Type 0 where
  pub body : Bytes
  pub timestamp : Bytes
  pub posted : server_get_postdata req ≡ some body
  pub stamped : server_get_header req (text "KYRIN-TIMESTAMP") ≡ some timestamp
  pub made : digest ≡ kyrin_sha1 sha1 (timestamp ++ body)

pub server_get_digest-cases :
    (sha1 : Bytes → Bytes) (req : Request) (body : Bytes)
    → server_get_postdata req ≡ some body
    → ((digest : Bytes) × (server_get_digest sha1 req ≡ inr digest) × IsDigest sha1 req digest)
      ⊎ ((reply : Bytes) × (server_get_digest sha1 req ≡ inl reply)
          × (server_get_header req (text "KYRIN-TIMESTAMP") ≡ none))
unfolding server_get_digest
server_get_digest-cases sha1 req body posted =
    elim (Option-cases (server_get_header req (text "KYRIN-TIMESTAMP"))) [
      | inl out ↦
          inr (
            text "Can't read post KYRIN-TIMESTAMP..",
            rw (server_get_digest, posted, out) refl,
            out,
          )
      | inr (timestamp, stamped) ↦ inl (
        kyrin_sha1 sha1 (timestamp ++ body),
        rw (server_get_digest, posted, stamped) refl,
        record {
          body = body;
          timestamp = timestamp;
          posted = posted;
          stamped = stamped;
          made = refl;
        },
      )
    ]

pub server_get_digest-IsDigest :
    (sha1 : Bytes → Bytes) (req : Request) (digest : Bytes)
    → server_get_digest sha1 req ≡ inr digest
    → IsDigest sha1 req digest
unfolding server_get_digest
server_get_digest-IsDigest sha1 req digest h = elim (Option-cases (server_get_postdata req)) [
  | inl out ↦ let bad = rw (server_get_digest, out) at h in absurd (ground (arith, bad))
  | inr (body, posted) ↦ elim (Option-cases (server_get_header req (text "KYRIN-TIMESTAMP"))) [
    | inl out ↦ let bad = rw (server_get_digest, posted, out) at h in absurd (ground (arith, bad))
    | inr (timestamp, stamped) ↦
        let e = rw (server_get_digest, posted, stamped) at h in
        record {
          body = body;
          timestamp = timestamp;
          posted = posted;
          stamped = stamped;
          made = ground (arith, e);
        }
  ]
]
