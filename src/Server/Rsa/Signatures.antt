-- ===== src/Server/Rsa/Signatures.antt =====
-- What a signature that is accepted has behind it.
use kyrin_box.Prelude.{
  ◌≡◌, ◌∙◌, refl, true, some, Bytes, c_str, eq_bytes, eq_bytes_iff, inl, inr, ap, Option-cases,
  arith,
}
use kyrin_box.Server.Rsa.{OpenSsl, create_rsa, public_decrypt, private_encrypt, examine_legality}

-- The text is the PEM form of a key that decrypts the signature to the digest.
pub record Confirms (S : OpenSsl) (public_key digest signature : Bytes) : Type 0 where
  pub rsa : S.Key
  pub read : S.read_public (c_str public_key) ≡ some rsa
  pub decrypts : S.public_decrypt rsa signature ≡ some digest

-- A signature is accepted only if the key confirms it.
pub examine_legality-Confirms :
    (S : OpenSsl) (public_key digest signature : Bytes)
    → examine_legality S public_key digest signature ≡ true
    → Confirms S public_key digest signature
unfolding examine_legality public_decrypt create_rsa
examine_legality-Confirms S public_key digest signature h =
    elim (Option-cases (S.read_public (c_str public_key))) [
      | inl none' ↦ let bad = rw (none', examine_legality) at h in absurd (ground (arith, bad))
      | inr (rsa, read) ↦ elim (Option-cases (S.public_decrypt rsa signature)) [
        | inl none' ↦
            let bad = rw (read, none', examine_legality) at h in absurd (ground (arith, bad))
        | inr (plaintext, decrypted) ↦
            let same = rw (read, decrypted, examine_legality) at h in
            record {
              rsa = rsa;
              read = read;
              decrypts = decrypted ∙ ap (λ t. some t) ((eq_bytes_iff plaintext digest).0 same);
            }
      ]
    ]

-- The two texts are keys of a pair: what the private one encrypts, the public one decrypts.
pub record IsPair (S : OpenSsl) (public_key private_key : Bytes) : Type 0 where
  pub rsa : S.Key
  pub rsa' : S.Key
  pub reads_public : S.read_public (c_str public_key) ≡ some rsa
  pub reads_private : S.read_private (c_str private_key) ≡ some rsa'
  pub decrypts : (t c : Bytes) → S.private_encrypt rsa' t ≡ some c → S.public_decrypt rsa c ≡ some t

-- A signature that is made with the private key of a pair is accepted by the public key for the
-- text that was signed, and for no other.
pub examine_legality-private_encrypt :
    (S : OpenSsl) (public_key private_key digest digest' signature : Bytes)
    → IsPair S public_key private_key
    → private_encrypt S digest private_key ≡ some signature
    → examine_legality S public_key digest' signature ≡ eq_bytes digest digest'
unfolding examine_legality public_decrypt private_encrypt create_rsa
examine_legality-private_encrypt S public_key private_key digest digest' signature pair made =
    let signed : S.private_encrypt pair.rsa' digest ≡ some signature =
      rw (pair.reads_private, private_encrypt) at made in
    rw (pair.reads_public, pair.decrypts digest signature signed, examine_legality) refl
