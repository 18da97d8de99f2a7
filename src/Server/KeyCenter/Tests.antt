-- ===== src/Server/KeyCenter/Tests.antt =====
-- A key that an administrator sets.
use kyrin_box.Prelude.{true, none, [], ◌∷◌, Bytes, text, List}
use kyrin_box.Io.Codec.{Codec}
use kyrin_box.Server.KeyCenter.{SetKeyRequest}

abbrev codec : Codec SetKeyRequest
codec = record {
  serialize = λ m. none;
  parse = λ b. (true, record { key_id = text "me"; key_public = text "key" });
}

abbrev admin : List (Bytes × Bytes)
admin = (text "KeyCenterAdminPublicKey", text "root") ∷ []
