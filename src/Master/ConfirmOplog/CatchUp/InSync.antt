-- ===== src/Master/ConfirmOplog/CatchUp/InSync.antt =====
-- A follower that is behind asks the leader for a page and applies it.
use kyrin_box.Prelude.{
  ℕ, ◌+◌, ◌≤◌, ◌<◌, ◌≡◌, ◌≢◌, refl, ap, true, false, some, List, [], ◌∷◌, Bytes, eq_bytes,
  eq_bytes_iff, map, All, length, inl, inr, text, Bool-cases, arith,
}
use kyrin_box.Common.Base64.{base64_encode}
use kyrin_box.Common.Base64.RoundTrip.{decode-encode}
use kyrin_box.Common.Cluster.{Cluster, master_get_oplog}
use kyrin_box.Common.OplogId.Order.{IsId, value}
use kyrin_box.Io.Codec.{RoundTrips}
use kyrin_box.Io.Database
use kyrin_box.Io.Database.{LevelDb}
use kyrin_box.Io.HttpClient.{Curl, make_request_post}
use kyrin_box.Server.Base.{Request, ok_reply, server_get_postdata, server_send_reply_bad}
use kyrin_box.Master.GetOplog
use kyrin_box.Master.GetOplog.Served.{message_of, handle_request-message_of}
use kyrin_box.Master.Oplog.{Codecs, Dbs, OperationLogMessage, next_id}
use kyrin_box.Master.ConfirmOplog.{
  apply_page, applied, update_loop, updated, Confirm, replied, prepare,
}
use kyrin_box.Master.ConfirmOplog.CatchUp.{
  IsWorking, Numbered, IsUpload, Has, next_value, apply_page-Has,
}

Numbered-value :
    (id last : Bytes) (es : List (Bytes × Bytes))
    → IsId id
    → Numbered id es last
    → value last ≡ value id + length es
Numbered-value id last [] i n = omega (arith, ap value n)
Numbered-value id last (e ∷ es) i (same, (next, more, n)) =
    let (i', grown) = next_value id next i more in
    omega (arith, grown, Numbered-value next last es i' n)

eq_bytes_ne : (s t : Bytes) → s ≢ t → eq_bytes s t ≡ false
eq_bytes_ne s t other = elim (Bool-cases (eq_bytes s t)) [
  | inl same ↦ absurd (other ((eq_bytes_iff s t).0 same))
  | inr differ ↦ differ
]

-- One round of the loop, whose page leads to the id that is aimed at.
update_loop-once :
    (L : LevelDb) (codecs : Codecs) (host : Bytes) (port : ℕ) (curl : Curl) (curls : List Curl)
    (id last b : Bytes) (items : List Bytes) (s t : Dbs L)
    → make_request_post curl host port (text "/GetOplog") [] (base64_encode id)
      ≡ (true, base64_encode b)
    → All (λ c. c < 256) b
    → (codecs.page.parse b).1.log_data ≡ items
    → apply_page L codecs items s id ≡ applied t last
    → update_loop L codecs (host, port) (curl ∷ curls) s id id last ≡ updated true t
unfolding update_loop
update_loop-once L codecs host port curl curls id last b items s t sent bytes parsed runs =
    let done : eq_bytes last last ≡ true = (eq_bytes_iff last last).1 refl in
    rw (sent, decode-encode b bytes, parsed, runs, done, update_loop) refl

-- Take a follower that gets the first phase of an operation while its log lacks entries of the
-- leader's: up to a hundred uploads, with the ids from the follower's next one up to the id of the
-- operation. If the leader's reply to its request for a page reaches it, and its databases work,
-- then one request is enough: its log then has each of the entries under the leader's id, and what
-- it had under smaller ids, its user data are filled by them, and it holds the operation for the
-- second phase. It answers ok, though with the status of a bad request.
pub prepare-Has :
    (L : LevelDb) (codecs : Codecs)
    → IsWorking L
    → RoundTrips codecs.page
    → (cluster : Cluster) (leader_id port : ℕ) (host : Bytes) (curl : Curl) (curls : List Curl)
      (req asked : Request) (message : OperationLogMessage) (s : Confirm L codecs)
      (theirs theirs' : L.Db) (id b : Bytes) (e : Bytes × Bytes) (rest : List (Bytes × Bytes))
    → next_id L s.dbs.oplog ≡ some id
    → IsId id
    → master_get_oplog cluster leader_id ≡ some (host, port)
    → asked.buffer ≡ true
    → server_get_postdata asked ≡ some (base64_encode id)
    → Database.exist L theirs id ≡ (true, theirs')
    → L.seek theirs' id ≡ e ∷ rest
    → length (e ∷ rest) ≤ 100
    → Numbered id (e ∷ rest) message.op_id
    → All (λ e. IsUpload codecs e.1) (e ∷ rest)
    → codecs.page.serialize (message_of e rest) ≡ some b
    → All (λ c. c < 256) b
    → ((reply : Bytes)
        → (GetOplog.handle_request L codecs theirs asked).0 ≡ some (ok_reply reply)
        → make_request_post curl host port (text "/GetOplog") [] (base64_encode id) ≡ (true, reply))
    → (t : Dbs L) × (prepare L codecs cluster leader_id (curl ∷ curls) req message s
        ≡ replied
            (server_send_reply_bad req (text "ok"))
            record { dbs = t; state = true; state_id = message.op_id; state_data = message.op_log })
      × Has L codecs id (e ∷ rest) s.dbs t
unfolding prepare
prepare-Has L codecs works page_codec cluster leader_id port host curl curls req asked message s
      theirs theirs' id b e rest next i to buffer posted found at small numbered uploads wrote bytes
      arrives =
    let served =
      handle_request-message_of L codecs theirs theirs' asked id b e rest buffer i.1 posted found at
        small wrote bytes in
    let sent = arrives (base64_encode b) (ap (λ p. p.0) served) in
    let parsed = ap (λ p. p.1.log_data) (page_codec (message_of e rest) b wrote) in
    let (t, runs, has) =
      apply_page-Has L codecs works id message.op_id (e ∷ rest) s.dbs i numbered uploads in
    let caught_up =
      update_loop-once L codecs host port curl curls id message.op_id b (map (λ e. e.1) (e ∷ rest))
        s.dbs t sent bytes parsed runs in
    let longer = Numbered-value id message.op_id (e ∷ rest) i numbered in
    let behind : eq_bytes id message.op_id ≡ false =
      eq_bytes_ne id message.op_id (λ q. absurd (omega (arith, longer, ap value q))) in
    (t, rw (next, behind, to, caught_up, prepare) refl, has)
