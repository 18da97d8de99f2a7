-- ===== src/Io/HttpClient/Failure.antt =====
-- What a failed request leaves.
use kyrin_box.Prelude.{ℕ, ◌≡◌, false, Option, [], Bytes, arith}
use kyrin_box.Io.HttpClient.{Curl, perform_into, make_request_post}

perform_into-fails :
    (curl : Curl) (url : Bytes) (fields : Option Bytes) (response : Bytes)
    → (perform_into curl url fields response).0 ≡ false
    → (perform_into curl url fields response).1 ≡ []
unfolding perform_into
perform_into-fails curl url fields response h = ground arith

pub post-fails :
    (curl : Curl) (host : Bytes) (port : ℕ) (uri response postdata : Bytes)
    → (make_request_post curl host port uri response postdata).0 ≡ false
    → (make_request_post curl host port uri response postdata).1 ≡ []
unfolding make_request_post
post-fails curl host port uri response postdata h = ground arith
