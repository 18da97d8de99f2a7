-- ===== src/Server/Rsa/Tests.antt =====
-- A signature of an RSA that is the identity.
use kyrin_box.Prelude.{◌≡◌, refl, sym, text, eq_bytes}
use kyrin_box.Server.Example.{plain}
use kyrin_box.Server.Rsa.{examine_legality, private_encrypt}
use kyrin_box.Server.Rsa.Signatures.{IsPair, examine_legality-private_encrypt}

pair : IsPair plain (text "public") (text "private")
pair = record {
  rsa = _;
  rsa' = _;
  reads_public = refl;
  reads_private = refl;
  decrypts = λ t c e. sym e;
}

examine_legality-private_encrypt_example :
    examine_legality plain (text "public") (text "02") (text "01")
    ≡ eq_bytes (text "01") (text "02")
unfolding private_encrypt
examine_legality-private_encrypt_example =
    examine_legality-private_encrypt plain (text "public") (text "private") (text "01") (text "02")
      (text "01") pair refl
