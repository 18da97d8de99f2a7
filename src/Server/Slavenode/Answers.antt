-- ===== src/Server/Slavenode/Answers.antt =====
-- What a slave node hears from a master: the answer of its GetOplog handler, on a log that may end
-- before the slave's copy does.
use kyrin_box.Prelude.{
  ℕ, zero, suc, ◌<◌, ◌≡◌, ◌∙◌, ◌⊎◌, refl, sym, ap, subst, true, false, none, some, List, [], ◌∷◌,
  ◌++◌, Bytes, map, take, All, inl, inr, text, c_str, Bool-cases, Option-cases, arith,
}
use mathlib.Core.List.{append_assoc}
use mathlib.Core.Option.{some-injective}
use kyrin_box.Common.Base64.{base64_encode, base64_decode}
use kyrin_box.Common.Base64.RoundTrip.{decode-encode}
use kyrin_box.Common.Base64.Printed.{c_str-encode}
use kyrin_box.Common.OplogId.{get_zero}
use kyrin_box.Common.OplogId.Order.{IsId}
use kyrin_box.Io.Codec.{RoundTrips, or_empty}
use kyrin_box.Io.Database
use kyrin_box.Io.Database.{LevelDb}
use kyrin_box.Io.HttpClient.{Curl, make_request_post}
use kyrin_box.Server.Base.{
  Request, Reply, ok_reply, bad_reply, server_get_postdata, server_send_reply_ok,
  server_send_reply_bad,
}
use kyrin_box.Master.GetOplog.{page, handle_request}
use kyrin_box.Master.GetOplog.Page.{last_key, page_lem}
use kyrin_box.Master.Oplog.{Codecs, GetOplogResponse}
use kyrin_box.Master.ConfirmOplog.CatchUp.{Numbered, next_value}

abbrev pub Log : Type 0
Log = List (Bytes × Bytes)

-- The id is behind the part `done` of a log, which `rest` goes on.
abbrev pub IsBehind : Log → Log → Log → Bytes → Type 0
IsBehind log done rest id = (done ++ rest ≡ log) × Numbered get_zero done id

-- The database of a master holds a part of the log: behind every part, it has no entry of the next
-- id, or it has that one and what follows it, as far as it goes.
abbrev pub HasPart : (L : LevelDb) → L.Db → Log → Type 0
HasPart L db log =
    (id : Bytes) (done rest : Log)
    → IsBehind log done rest id
    → (db' : L.Db) × ((Database.exist L db id ≡ (false, db'))
        ⊎ ((e : Bytes × Bytes) × (more : Log) × (later : Log) × (Database.exist L db id
              ≡ (true, db'))
            × (L.seek db' id ≡ e ∷ more)
            × ((e ∷ more) ++ later ≡ rest)))

-- The text of a reply, as `libcurl` hands it on: an error of HTTP is an answer too.
abbrev pub text_of : Reply → Bytes
text_of (ok_reply t) = t
text_of (bad_reply t) = t

-- Each request for what follows a part of the log fails, or is answered by the handler of a master
-- that holds a part of the log.
abbrev pub AsksMasters : LevelDb → Codecs → Log → Curl → Type 0
AsksMasters L codecs log curl =
    (host : Bytes) (port : ℕ) (id : Bytes) (done rest : Log)
    → IsBehind log done rest id
    → let got = make_request_post curl host port (text "/GetOplog") [] (base64_encode id) in
      (got.0 ≡ false)
      ⊎ ((db : L.Db) × (req : Request) × (reply : Reply) × HasPart L db log
          × (server_get_postdata req ≡ some (base64_encode id))
          × ((handle_request L codecs db req).0 ≡ some reply)
          × (got ≡ (true, text_of reply)))

-- A request fails, or its answer is read as a page of what follows, of any length.
abbrev pub Hears : Codecs → Log → Curl → Type 0
Hears codecs log curl =
    (host : Bytes) (port : ℕ) (id : Bytes) (done rest : Log)
    → IsBehind log done rest id
    → let got = make_request_post curl host port (text "/GetOplog") [] (base64_encode id) in
      (got.0 ≡ false)
      ⊎ ((page : Log) × (behind : Log) × (got.0 ≡ true)
          × ((codecs.page.parse (base64_decode got.1)).1.log_data ≡ map (λ e. e.1) page)
          × (page ++ behind ≡ rest))

-- What the generated class of the pages is relied on for: a page that is written is bytes, and is
-- read back; neither the empty text, which is left of one that cannot be written, nor the byte that
-- base64 finds in the error of the handler is read as entries.
pub record ReadsPages (codecs : Codecs) : Type 0 where
  pub back : RoundTrips codecs.page
  pub bytes :
      (m : GetOplogResponse) (b : Bytes) → codecs.page.serialize m ≡ some b → All (λ c. c < 256) b
  pub of_empty : (codecs.page.parse []).1.log_data ≡ []
  pub of_error : (codecs.page.parse (base64_decode (text "No such op id"))).1.log_data ≡ []

Numbered-IsId : (id last : Bytes) (es : Log) → IsId id → Numbered id es last → IsId last
Numbered-IsId id last [] i n = subst IsId n i
Numbered-IsId id last (e ∷ es) i (same, (next, more, n)) =
    Numbered-IsId next last es (next_value id next i more).0 n

take-rest : (n : ℕ) (l : Log) → (behind : Log) × (take n l ++ behind ≡ l)
take-rest zero l = (l, refl)
take-rest (suc n) [] = ([], refl)
take-rest (suc n) (e ∷ l) = let (behind, p) = take-rest n l in (behind, ap (λ r. e ∷ r) p)

module _ (L : LevelDb) (codecs : Codecs) (reads : ReadsPages codecs) where
  -- A text that is sent in base64 is what the slave node parses.
  answer_lem :
      (b answer : Bytes)
      → All (λ c. c < 256) b
      → c_str (base64_encode b) ≡ answer
      → (codecs.page.parse (base64_decode answer)).1.log_data ≡ (codecs.page.parse b).1.log_data
  answer_lem b answer small sent =
      ap (λ t. (codecs.page.parse t).1.log_data)
        (ap base64_decode (sym sent ∙ c_str-encode b small) ∙ decode-encode b small)

  -- The handler's answer for an id that it does not have, read as a page.
  refused_lem :
      (db db' : L.Db) (req : Request) (id : Bytes) (reply : Reply)
      → All (λ c. c < 256) id
      → server_get_postdata req ≡ some (base64_encode id)
      → Database.exist L db id ≡ (false, db')
      → (handle_request L codecs db req).0 ≡ some reply
      → (codecs.page.parse (base64_decode (text_of reply))).1.log_data ≡ []
  unfolding handle_request server_send_reply_bad c_str
  refused_lem db db' req id reply bytes posted missing h = elim (Bool-cases req.buffer) [
    | inr full ↦
        let bad : none ≡ some reply =
          rw (posted, decode-encode id bytes, missing, full, handle_request) at h in
        absurd (ground arith)
    | inl buffer ↦
        let e : bad_reply (c_str (text "No such op id")) ≡ reply =
          some-injective _ _
            (rw (posted, decode-encode id bytes, missing, buffer, handle_request) at h) in
        subst (λ r. (codecs.page.parse (base64_decode (text_of r))).1.log_data ≡ []) e
          reads.of_error
  ]

  served_lem :
      (db db' : L.Db) (req : Request) (id : Bytes) (reply : Reply) (e : Bytes × Bytes) (more : Log)
      → All (λ c. c < 256) id
      → server_get_postdata req ≡ some (base64_encode id)
      → Database.exist L db id ≡ (true, db')
      → L.seek db' id ≡ e ∷ more
      → (handle_request L codecs db req).0 ≡ some reply
      → (n : ℕ) × ((codecs.page.parse (base64_decode (text_of reply))).1.log_data
          ≡ map (λ p. p.1) (take n (e ∷ more)))
  unfolding handle_request server_send_reply_ok
  served_lem db db' req id reply e more bytes posted found at h =
      let m : GetOplogResponse = record {
        last_id = last_key e.0 (take 99 more);
        log_data = map (λ p. p.1) (take 100 (e ∷ more));
      } in
      elim (Bool-cases req.buffer) [
        | inr full ↦
            let bad : none ≡ some reply =
              rw (posted, decode-encode id bytes, found, at, page_lem e more, full, handle_request)
                at h in
            absurd (ground arith)
        | inl buffer ↦
            let made : some (ok_reply (c_str (base64_encode (or_empty (codecs.page.serialize m)))))
                ≡ some reply =
              rw
                (posted, decode-encode id bytes, found, at, page_lem e more, buffer, handle_request)
                at h in
            elim (Option-cases (codecs.page.serialize m)) [
              | inr (b, wrote) ↦ (
                100,
                answer_lem b (text_of reply) (reads.bytes m b wrote)
                      (λ i. text_of ((some-injective _ _ (rw wrote at made)) i))
                    ∙ ap (λ p. p.1.log_data) (reads.back m b wrote),
              )
              | inl out ↦ (
                0,
                answer_lem [] (text_of reply) tt
                      (λ i. text_of ((some-injective _ _ (rw out at made)) i))
                    ∙ reads.of_empty,
              )
            ]
      ]

  -- So the slave node reads pages of what follows the id.
  pub AsksMasters-Hears :
      (log : Log) (curl : Curl) → AsksMasters L codecs log curl → Hears codecs log curl
  unfolding get_zero
  AsksMasters-Hears log curl asks host port id done rest behind =
      let bytes : All (λ c. c < 256) id =
        (Numbered-IsId get_zero id done (refl, omega arith) behind.1).1 in
      elim (asks host port id done rest behind) [
        | inl fails ↦ inl fails
        | inr (db, req, reply, part, posted, answered, got) ↦
            let sent = ap (λ p. p.0) got in
            let read =
              λ (l : List Bytes)
                  (e : (codecs.page.parse (base64_decode (text_of reply))).1.log_data ≡ l).
                ap (λ p. (codecs.page.parse (base64_decode p.1)).1.log_data) got ∙ e in
            let (db', state) = part id done rest behind in
            elim state [
              | inl missing ↦ inr (
                [],
                rest,
                sent,
                read [] (refused_lem db db' req id reply bytes posted missing answered),
                refl,
              )
              | inr (e, more, later, found, at, whole) ↦
                  let (n, page) =
                    served_lem db db' req id reply e more bytes posted found at answered in
                  let (cut, parts) = take-rest n (e ∷ more) in
                  inr (
                    take n (e ∷ more),
                    cut ++ later,
                    sent,
                    read (map (λ p. p.1) (take n (e ∷ more))) page,
                    sym (append_assoc (take n (e ∷ more)) cut later)
                        ∙ ap (λ l. l ++ later) parts
                        ∙ whole,
                  )
            ]
      ]
