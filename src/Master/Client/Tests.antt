-- ===== src/Master/Client/Tests.antt =====
-- A request of the client, of the first phase of an upload.
use kyrin_box.Prelude.{◌≡◌, refl, true, none, some, ◌∷◌, [], text, c_str, eq_bytes}
use kyrin_box.Common.Base64.{base64_encode, char_of}
use kyrin_box.Common.OplogId.{get_zero}
use kyrin_box.Io.HttpClient.{Curl}
use kyrin_box.Master.ConfirmOplog.Example
use kyrin_box.Master.Client.{RequestData, make_request, confirm_oplog_build_request}

abbrev blank : RequestData
blank = record { uri = []; postdata = []; timeout = 0 }

-- libcurl that answers with the fields it is given.
abbrev echo : Curl
echo = record {
  init = true;
  set_url = true;
  set_post = true;
  set_fields = true;
  set_function = true;
  set_data = true;
  perform = λ url fields. elim fields [ none ↦ (true, url ∷ []) | some f ↦ (true, f ∷ []) ];
}

make_request_test :
    make_request echo
      (text "h")
      80
      (confirm_oplog_build_request Example.codecs.message Example.first_message blank).1
      []
    ≡ (true, text "MQ==")
unfolding make_request confirm_oplog_build_request base64_encode c_str eq_bytes char_of get_zero
make_request_test = refl
