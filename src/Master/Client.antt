-- ===== src/Master/Client.antt =====
-- sdk/cpp_client/: the client that posts a message of the operation log to a master.
mod Tests
use kyrin_box.Prelude.{ℕ, Bool, true, false, Option, none, some, [], Bytes, text, c_str}
use kyrin_box.Common.Base64.{base64_encode}
use kyrin_box.Io.Codec.{Codec}
use kyrin_box.Io.HttpClient.{Curl, make_request_post}
use kyrin_box.Master.Oplog.{OperationLogMessage}

pub record RequestData : Type 0 where
  pub uri : Bytes
  pub postdata : Bytes
  pub timeout : ℕ

-- The result and `response`; the request does not read the timeout.
unfoldable pub make_request : Curl → Bytes → ℕ → RequestData → Bytes → Bool × Bytes
unfolding make_request_post
make_request curl host port data' response =
    make_request_post curl host port (c_str data'.uri) response data'.postdata

-- The result and `data`; `SerializeToString` leaves the empty text if it fails.
unfoldable pub confirm_oplog_build_request :
    Codec OperationLogMessage → OperationLogMessage → RequestData → Bool × RequestData
unfolding base64_encode
confirm_oplog_build_request codec op_log data' = elim (codec.serialize op_log) [
  | none ↦ (false, record data' { postdata = [] })
  | some b ↦ (true, record { uri = text "/ConfirmOplog"; postdata = base64_encode b; timeout = 5 })
]
