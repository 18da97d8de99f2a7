-- ===== src/Master/UploadFile/Majority.antt =====
-- What a successful upload has behind it.
use kyrin_box.Prelude.{
  pos, ℕ, zero, suc, ◌+◌, ◌/◌, ◌<◌, ◌≡◌, Bool, false, none, some, Bytes, leb, ◌==◌, eq_bytes,
  if◌then◌else◌, [], text, inl, inr, Bool-cases, Option-cases, arith,
}
use kyrin_box.Common.Cluster.{Cluster, master_confirm_oplog}
use kyrin_box.Io.Codec.{Codec, or_empty}
use kyrin_box.Common.Base64.{base64_encode}
use kyrin_box.Io.Database.{LevelDb}
use kyrin_box.Io.HttpClient.{Curl, make_request_post}
use kyrin_box.Server.Base.{Request, ok_reply}
use kyrin_box.Server.Replies.{reply_bad-ne}
use kyrin_box.Chunk.Status.{ClusterStatus}
use kyrin_box.Master.Oplog.{Codecs, Dbs, UploadFileOperation, next_id}
use kyrin_box.Master.UploadFile.{two_phase, replied, World, phases}

-- The masters that say "ok" among the `n` from `i` on, this one left out.
abbrev pub says_ok : Cluster → (ℕ → Curl) → Bytes → ℕ → Bool
says_ok cluster curls message i = elim (master_confirm_oplog cluster i) [
  | none ↦ false
  | some (host, port) ↦
      eq_bytes (make_request_post (curls i) host port (text "/ConfirmOplog") [] message).1
        (text "ok")
]

abbrev pub count_ok : Cluster → (ℕ → Curl) → ℕ → Bytes → ℕ → ℕ → ℕ
count_ok cluster curls kbid message zero i = 0
count_ok cluster curls kbid message (suc n) i =
    (if i == kbid then 0 else if says_ok cluster curls message i then 1 else 0)
    + count_ok cluster curls kbid message n (i + 1)

-- A first phase that ends has counted, on top of `cnt`, the other masters that say "ok".
pub two_phase_lem :
    (cluster : Cluster) (curls : ℕ → Curl) (kbid : ℕ) (message : Bytes) (n i cnt cnt' : ℕ)
    → two_phase cluster curls kbid message n i cnt ≡ some cnt'
    → cnt' ≡ cnt + count_ok cluster curls kbid message n i
unfolding two_phase
two_phase_lem cluster curls kbid message zero i cnt cnt' h = ground arith
two_phase_lem cluster curls kbid message (suc n) i cnt cnt' h = elim (Bool-cases (i == kbid)) [
  | inl self ↦
      let rest =
        two_phase_lem cluster curls kbid message n (i + 1) cnt cnt' (rw (self, two_phase) at h) in
      rw self (omega (arith, rest))
  | inr other ↦ elim (Option-cases (master_confirm_oplog cluster i)) [
    | inl nowhere ↦ let bad : none ≡ some cnt' = rw (other, nowhere) at h in absurd (ground arith)
    | inr ((host, port), known) ↦
        let answer =
          eq_bytes (make_request_post (curls i) host port (text "/ConfirmOplog") [] message).1
            (text "ok") in
        let rest =
          two_phase_lem cluster curls kbid message n (i + 1) (if answer then cnt + 1 else cnt) cnt'
            (rw (other, known, two_phase) at h) in
        rw (other, says_ok, known)
          (elim (Bool-cases answer) [
            | inl yes' ↦ rw yes' (let r = rw yes' at rest in omega (arith, r))
            | inr no' ↦ rw no' (let r = rw no' at rest in omega (arith, r))
          ])
  ]
]

-- The text of the first phase: the operation under its id, with state 1.
abbrev pub first_post : Codecs → Bytes → UploadFileOperation → Bytes
first_post codecs id operation = base64_encode (
    or_empty (
      codecs.message.serialize record {
        state = pos 1;
        op_id = id;
        op_log = record {
          op_type = pos 1;
          log_data = or_empty (codecs.operation.serialize operation);
        };
      }))

-- If an upload is answered with success, then its operation, posted with state 1 under the id behind
-- the last one of the log, is answered with "ok" by so many other masters that with this one they
-- are more than half.
pub phases-ok :
    (L : LevelDb) (codecs : Codecs) (status_codec : Codec ClusterStatus) (cluster : Cluster)
    (w : World) (kbid : ℕ) (req : Request) (operation : UploadFileOperation)
    (operation_data : Bytes) (s s' : Dbs L) (text' : Bytes)
    → phases L codecs status_codec cluster w kbid req operation operation_data s
      ≡ replied (some (ok_reply text')) s'
    → (id : Bytes) × (next_id L s.oplog ≡ some id)
      × (cluster.master_server_count / 2
          < 1
            + count_ok cluster w.first_phase kbid
                (first_post codecs id operation)
                cluster.master_server_count
                1)
unfolding phases
phases-ok L codecs status_codec cluster w kbid req operation operation_data s s' text' h =
    elim (Option-cases (next_id L s.oplog)) [
      | inl none' ↦ let bad = rw (none', phases) at h in absurd (ground arith)
      | inr (id, next) ↦
          let post = first_post codecs id operation in
          let h1 = rw (next, phases) at h in
          elim (Option-cases
            (two_phase cluster w.first_phase kbid post cluster.master_server_count 1 1)) [
              | inl out ↦ let bad = rw out at h1 in absurd (ground arith)
              | inr (tp_cnt, counted) ↦
                  let e =
                    two_phase_lem cluster w.first_phase kbid post cluster.master_server_count 1 1
                      tp_cnt counted in
                  elim (Bool-cases (leb tp_cnt (cluster.master_server_count / 2))) [
                    | inl few ↦
                        let bad = rw (counted, few) at h1 in
                        absurd (
                          ground (arith, bad, reply_bad-ne req (text "Two phase rejected..") text'))
                    | inr most ↦
                        let above : cluster.master_server_count / 2 < tp_cnt =
                          ground (arith, most) in
                        (id, next, omega (arith, e, above))
                  ]
            ]
    ]
