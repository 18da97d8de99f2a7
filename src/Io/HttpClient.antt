-- ===== src/Io/HttpClient.antt =====
-- io/kyrin_http_client.cc: a request by libcurl. What libcurl does in one call is an argument.
pub mod Failure
use kyrin_box.Prelude.{
  ℕ, ◌-◌, ◌^◌, ltb, Bool, true, false, Option, none, some, List, [], ◌∷◌, ◌++◌, Bytes, ◌==◌,
  if◌then◌else◌, text, c_str,
}
use kyrin_box.Common.Decimal.{print_u64}

-- One use of libcurl: whether `curl_easy_init` gives a handle, whether each call returns
-- `CURLE_OK`, and the pieces of the answer that `write_function` is called with, which depend on
-- the URL and on the fields that are posted.
pub record Curl : Type 0 where
  pub init : Bool
  pub set_url : Bool
  pub set_post : Bool
  pub set_fields : Bool
  pub set_function : Bool
  pub set_data : Bool
  pub perform : Bytes → Option Bytes → Bool × List Bytes

-- `write_function`, called for each piece.
pub write_all : List Bytes → Bytes → Bytes
write_all [] content = content
write_all (piece ∷ pieces) content = write_all pieces (content ++ piece)

-- `%d` of a `uint32_t`
pub print_d : ℕ → Bytes
print_d n = if ltb n (2 ^ 31) then print_u64 n else b'-' ∷ print_u64 (2 ^ 32 - n)

-- `sprintf(url, "http://%s:%d%s", host, port, uri)`, for a text that fits the 1024 bytes of `url`; what
-- a longer one does is undefined, and not modelled.
pub make_url : Bytes → ℕ → Bytes → Bytes
unfolding print_d
make_url host port uri = text "http://" ++ (host ++ (text ":" ++ (print_d port ++ uri)))

-- `curl_easy_perform`, and what is left in `response`.
pub perform_into : Curl → Bytes → Option Bytes → Bytes → Bool × Bytes
unfolding write_all
perform_into curl url fields response =
    let (ok, pieces) = curl.perform url fields in
    if ok then (true, write_all pieces response) else (false, [])

-- The result and `response`. Without a handle nothing is sent, and the result is true.
pub make_request_get : Curl → Bytes → ℕ → Bytes → Bytes → Bool × Bytes
unfolding make_url perform_into
make_request_get curl host port uri response =
    if curl.init
    then (if curl.set_url
        then (if curl.set_function
            then (if curl.set_data
                then perform_into curl (make_url host port uri) none response
                else (false, []))
            else (false, []))
        else (false, []))
    else (true, response)

-- `CURLOPT_POSTFIELDS` takes the fields up to the first zero byte.
unfoldable pub make_request_post : Curl → Bytes → ℕ → Bytes → Bytes → Bytes → Bool × Bytes
unfolding make_url perform_into
make_request_post curl host port uri response postdata =
    if curl.init
    then (if curl.set_url
        then (if curl.set_post
            then (if curl.set_fields
                then (if curl.set_function
                    then (if curl.set_data
                        then perform_into curl (make_url host port uri) (some (c_str postdata))
                            response
                        else (false, []))
                    else (false, []))
                else (false, []))
            else (false, []))
        else (false, []))
    else (true, response)
