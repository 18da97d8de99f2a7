-- ===== src/Master/GetOplog/Served.antt =====
-- The reply that holds a page.
use kyrin_box.Prelude.{
  ◌≡◌, ◌∙◌, refl, ap, true, some, List, [], ◌∷◌, Bytes, map, take, All, length, ◌≤◌, ◌<◌,
  take_of_length-le,
}
use kyrin_box.Common.Base64.{base64_encode}
use kyrin_box.Common.Base64.RoundTrip.{decode-encode}
use kyrin_box.Common.Base64.Printed.{c_str-encode}
use kyrin_box.Io.Database
use kyrin_box.Io.Database.{LevelDb}
use kyrin_box.Server.Base.{Request, ok_reply, server_get_postdata, server_send_reply_ok}
use kyrin_box.Master.Oplog.{Codecs, GetOplogResponse}
use kyrin_box.Master.GetOplog.{page, handle_request}
use kyrin_box.Master.GetOplog.Page.{last_key, page_lem}

-- The message of a page of up to a hundred entries.
abbrev pub message_of : Bytes × Bytes → List (Bytes × Bytes) → GetOplogResponse
message_of e rest = record {
  last_id = last_key e.0 (take 99 rest);
  log_data = map (λ p. p.1) (e ∷ rest);
}

-- If the log has the id that is asked for, and no more than a hundred entries from it on, then the
-- reply holds them all.
pub handle_request-message_of :
    (L : LevelDb) (codecs : Codecs) (db db' : L.Db) (req : Request) (id b : Bytes)
    (e : Bytes × Bytes) (rest : List (Bytes × Bytes))
    → req.buffer ≡ true
    → All (λ c. c < 256) id
    → server_get_postdata req ≡ some (base64_encode id)
    → Database.exist L db id ≡ (true, db')
    → L.seek db' id ≡ e ∷ rest
    → length (e ∷ rest) ≤ 100
    → codecs.page.serialize (message_of e rest) ≡ some b
    → All (λ c. c < 256) b
    → handle_request L codecs db req ≡ (some (ok_reply (base64_encode b)), db')
unfolding handle_request server_send_reply_ok
handle_request-message_of L codecs db db' req id b e rest buffer bytes posted found at small wrote
      bytes' =
    let whole : page 0 [] e rest ≡ (map (λ p. p.1) (e ∷ rest), last_key e.0 (take 99 rest)) =
      page_lem e rest
      ∙ ap (λ l. (map (λ p. p.1) l, last_key e.0 (take 99 rest)))
          (take_of_length-le 100 (e ∷ rest) small) in
    rw
      (
        posted,
        decode-encode id bytes,
        found,
        at,
        whole,
        wrote,
        buffer,
        c_str-encode b bytes',
        handle_request,
      )
      refl
