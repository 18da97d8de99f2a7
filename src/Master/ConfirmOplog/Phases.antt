-- ===== src/Master/ConfirmOplog/Phases.antt =====
-- What the second phase stores.
use kyrin_box.Prelude.{
  ◌≡◌, ◌∙◌, subst, sym, true, some, Bytes, pos, eq_ℤ, text, eq_bytes, inl, inr, Bool-cases,
  Option-cases, arith, ap,
}
use kyrin_box.Io.Database
use kyrin_box.Io.Database.{LevelDb}
use kyrin_box.Io.Database.Reliable.{Reliable, put-get}
use kyrin_box.Master.Oplog.Store.{store-stored, Stored-cases}
use kyrin_box.Server.Base.{Request, ok_reply}
use kyrin_box.Server.Replies.{reply_bad-ne}
use kyrin_box.Master.Oplog.{Codecs, OperationLogMessage, store}
use kyrin_box.Master.ConfirmOplog.{replied, Confirm, stores, commit}

-- The log has the held operation under the id, and the user data have its content under its key.
abbrev pub Keeps :
    (L : LevelDb) (codecs : Codecs)
    → OperationLogMessage
    → Confirm L codecs
    → Confirm L codecs
    → Type 0
Keeps L codecs message s s' =
    (log : Bytes) × (codecs.log.serialize s.state_data ≡ some log)
    × (Database.get L s'.dbs.oplog message.op_id ≡ (true, log, s'.dbs.oplog))
    × (let operation = (codecs.operation.parse s.state_data.log_data).1 in
        (content : Bytes) × (codecs.response.serialize operation.content ≡ some content)
        × (Database.get L s'.dbs.userdata operation.key ≡ (true, content, s'.dbs.userdata)))

-- The part behind the guards.
stores-ok :
    (L : LevelDb) (reliable : Reliable L) (codecs : Codecs) (req : Request)
    (message : OperationLogMessage) (s s' : Confirm L codecs) (reply : Bytes)
    → stores L codecs req message s ≡ replied (some (ok_reply reply)) s'
    → Keeps L codecs message s s'
unfolding stores
stores-ok L reliable codecs req message s s' reply h =
    let operation = (codecs.operation.parse s.state_data.log_data).1 in
    elim (Option-cases (codecs.log.serialize s.state_data)) [
      | inl out ↦
          let bad = rw (out, stores) at h in
          absurd (ground (arith, bad, reply_bad-ne req (text "Serialize op_log failed") reply))
      | inr (log, logged) ↦ elim (Option-cases (codecs.response.serialize operation.content)) [
        | inl out ↦
            let bad = rw (logged, out, stores) at h in
            absurd (ground (arith, bad, reply_bad-ne req (text "Serialize op_data failed") reply))
        | inr (data', kept) ↦
            let r = store L s.dbs message.op_id log operation.key data' in
            let h1 = rw (logged, kept, stores) at h in
            elim (Stored-cases r.0) [
              | inl done ↦
                  let h2 = rw done at h1 in
                  let same : record s { dbs = r.1 } ≡ s' = ground (arith, h2) in
                  let (ok1, at1, ok2, at2') =
                    store-stored L s.dbs r.1 message.op_id log operation.key data'
                      (λ i. (done i, r.1)) in
                  let at3 : (Database.put L s.dbs.userdata operation.key data').1
                      ≡ s'.dbs.userdata =
                    at2' ∙ ap (λ (c : Confirm L codecs). c.dbs.userdata) same in
                  let at2 : (Database.put L s.dbs.oplog message.op_id log).1 ≡ s'.dbs.oplog =
                    at1 ∙ ap (λ (c : Confirm L codecs). c.dbs.oplog) same in
                  (
                    log,
                    logged,
                    subst (λ d. Database.get L d message.op_id ≡ (true, log, d)) at2
                        (put-get L reliable s.dbs.oplog message.op_id log ok1),
                    (
                      data',
                      kept,
                      subst (λ d. Database.get L d operation.key ≡ (true, data', d)) at3
                          (put-get L reliable s.dbs.userdata operation.key data' ok2),
                    ),
                  )
              | inr (inl out) ↦
                  let bad = rw out at h1 in
                  absurd (ground (arith, bad, reply_bad-ne req (text "put in oplog failed") reply))
              | inr (inr out) ↦
                  let bad = rw out at h1 in
                  absurd
                    (ground (arith, bad, reply_bad-ne req (text "put in userdata failed") reply))
            ]
      ]
    ]

pub commit-prepared :
    (L : LevelDb) (codecs : Codecs) (req : Request) (message : OperationLogMessage)
    (s : Confirm L codecs)
    → s.state ≡ true
    → eq_bytes message.op_id s.state_id ≡ true
    → eq_ℤ s.state_data.op_type (pos 1) ≡ true
    → commit L codecs req message s ≡ stores L codecs req message s
unfolding commit
commit-prepared L codecs req message s ready same upload = rw (ready, same, upload)

-- If the second phase is answered with success, then the flag is set and its id is the one that is
-- held, and on databases that keep what they acknowledge the log has the operation that is held, an
-- upload, under this id, and the user data have its content under its key. Whether the operation
-- that is held was posted with this id is not said.
pub commit-ok :
    (L : LevelDb) (reliable : Reliable L) (codecs : Codecs) (req : Request)
    (message : OperationLogMessage) (s s' : Confirm L codecs) (reply : Bytes)
    → commit L codecs req message s ≡ replied (some (ok_reply reply)) s'
    → (s.state ≡ true)
      × (eq_bytes message.op_id s.state_id ≡ true)
      × (eq_ℤ s.state_data.op_type (pos 1) ≡ true)
      × Keeps L codecs message s s'
unfolding commit
commit-ok L reliable codecs req message s s' reply h = elim (Bool-cases s.state) [
  | inr idle ↦
      let bad = rw (idle, commit) at h in
      absurd (ground (arith, bad, reply_bad-ne req (text "System error") reply))
  | inl ready ↦ elim (Bool-cases (eq_bytes message.op_id s.state_id)) [
    | inr other ↦
        let bad = rw (ready, other, commit) at h in
        absurd (ground (arith, bad, reply_bad-ne req (text "No such current id") reply))
    | inl same ↦ elim (Bool-cases (eq_ℤ s.state_data.op_type (pos 1))) [
      | inr kind ↦
          let bad = rw (ready, same, kind, commit) at h in
          absurd (ground (arith, bad, reply_bad-ne req (text "No such operation type...") reply))
      | inl upload ↦ (
        ready,
        same,
        upload,
        stores-ok L reliable codecs req message s s' reply
            (sym (commit-prepared L codecs req message s ready same upload) ∙ h),
      )
    ]
  ]
]
