-- ===== src/Master/Oplog/Example.antt =====
-- Codecs for the tests of the handlers: a message is written as one of its texts.
use kyrin_box.Prelude.{true, some, [], Bytes, text, pos}
use kyrin_box.Master.Oplog.{UploadFileResponse, Codecs, default_log}

abbrev response : Bytes → UploadFileResponse
response b = record { file_hosts = []; file_size = pos 3; merkle_sha1 = b }

abbrev pub codecs : Codecs
codecs = record {
  log = record {
    serialize = λ m. some m.log_data;
    parse = λ b. (true, record { op_type = pos 1; log_data = b });
  };
  message = record {
    serialize = λ m. some m.op_id;
    parse = λ b. (true, record { state = pos 1; op_id = b; op_log = default_log });
  };
  page = record {
    serialize = λ m. some m.last_id;
    parse = λ b. (true, record { last_id = b; log_data = [] });
  };
  request = record {
    serialize = λ m. some m.account;
    parse =
        λ b. (true, record { account = b; file_name = []; merkle_sha1 = []; file_size = pos 3 });
  };
  response = record { serialize = λ m. some m.merkle_sha1; parse = λ b. (true, response b) };
  operation = record {
    serialize = λ m. some m.key;
    parse = λ b. (true, record { key = text "key"; content = response (text "sha") });
  };
}
