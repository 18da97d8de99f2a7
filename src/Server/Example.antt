-- ===== src/Server/Example.antt =====
-- Values for the tests of the handlers: a redis in memory, an RSA whose signatures are the digests,
-- and a request.
use kyrin_box.Prelude.{true, some, List, [], ◌∷◌, Bytes, if◌then◌else◌, eq_bytes, text}
use kyrin_box.Io.HttpClient.{Curl}
use kyrin_box.Server.Base.{Request}
use kyrin_box.Server.Redis.{Redis, RedisReply, other_reply, string_reply}
use kyrin_box.Server.Rsa.{OpenSsl}

abbrev lookup : Bytes → List (Bytes × Bytes) → RedisReply
lookup k [] = other_reply
lookup k ((j, v) ∷ l) = if eq_bytes k j then string_reply v else lookup k l

abbrev pub memory : Redis
memory = record {
  Db = List (Bytes × Bytes);
  get = λ db k. (lookup k db, db);
  set = λ db k v. (other_reply, (k, v) ∷ db);
}

abbrev pub request : Bytes → Bytes → Request
request signature body = record {
  header = λ key.
      if eq_bytes key (text "KYRIN-SIGNATURE")
      then some signature
      else if eq_bytes key (text "KYRIN-ISSUER")
      then some (text "me")
      else some [];
  body = body;
  buffer = true;
}

-- Every call succeeds, and every answer is this text.
abbrev pub answering : Bytes → Curl
answering answer = record {
  init = true;
  set_url = true;
  set_post = true;
  set_fields = true;
  set_function = true;
  set_data = true;
  perform = λ url fields. (true, answer ∷ []);
}

-- A signature is the base64 form of the digest, and any text is a key.
abbrev pub plain : OpenSsl
plain = record {
  Key = Bytes;
  read_public = λ key. some key;
  read_private = λ key. some key;
  public_encrypt = λ key t. some t;
  public_decrypt = λ key t. some t;
  private_encrypt = λ key t. some t;
  private_decrypt = λ key t. some t;
}
