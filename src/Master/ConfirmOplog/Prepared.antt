-- ===== src/Master/ConfirmOplog/Prepared.antt =====
-- Where the operation that a follower holds comes from.
use kyrin_box.Prelude.{
  ℕ, ◌≡◌, ◌⊎◌, ◌∙◌, refl, sym, ap, subst, Bool, true, false, Option, some, List, Bytes, pos, eq_ℤ,
  eq_bytes, eq_bytes_iff, inl, inr, Bool-cases, Option-cases, arith,
}
use kyrin_box.Common.Base64.{base64_decode}
use kyrin_box.Common.Cluster.{Cluster, master_get_oplog}
use kyrin_box.Io.Database
use kyrin_box.Io.Database.{LevelDb}
use kyrin_box.Io.Database.Reliable.{Reliable}
use kyrin_box.Io.HttpClient.{Curl}
use kyrin_box.Server.Base.{Request, Reply, ok_reply, server_get_postdata}
use kyrin_box.Master.Sentinel.{Status, leader, follower, consensus}
use kyrin_box.Master.Oplog.{Codecs, Dbs, OperationLogMessage, next_id, store}
use kyrin_box.Master.Oplog.Store.{Stored-cases}
use kyrin_box.Master.ConfirmOplog.Phases.{commit-prepared, commit-ok}
use kyrin_box.Master.ConfirmOplog.{
  Confirm, Handled, replied, prepare, stores, commit, handle_request, update_loop, updated, Updated,
  undefined, running, no_behaviour, unfinished,
}

module _ (L : LevelDb) (codecs : Codecs) where
  -- The request posts this message as a first phase.
  pub record FirstPhase (req : Request) (m : OperationLogMessage) : Type 0 where
    pub body : Bytes
    pub posted : server_get_postdata req ≡ some body
    pub reads : codecs.message.parse (base64_decode body) ≡ (true, m)
    pub first : eq_ℤ m.state (pos 1) ≡ true

  -- What is held is the same.
  abbrev pub Same : Confirm L codecs → Confirm L codecs → Type 0
  Same s t = (t.state ≡ s.state) × (t.state_id ≡ s.state_id) × (t.state_data ≡ s.state_data)

  -- The id of the message is held, and its operation too, with the flag, or what was before.
  abbrev pub Takes : OperationLogMessage → Confirm L codecs → Confirm L codecs → Type 0
  Takes m s t =
      (t.state_id ≡ m.op_id)
      × ((t.state_data ≡ m.op_log) ⊎ ((t.state ≡ s.state) × (t.state_data ≡ s.state_data)))

  -- Whatever a request comes to, a state that it leaves is so.
  abbrev Leaves : (Confirm L codecs → Type 0) → Handled L codecs → Type 0
  Leaves P (replied r t) = P t
  Leaves P no_behaviour = Unit {0}
  Leaves P unfinished = Unit {0}

  Updated-cases :
      (u : Updated L codecs)
      → ((ok : Bool) × (dbs : Dbs L) × (u ≡ updated ok dbs))
        ⊎ ((u ≡ undefined) ⊎ ((dbs : Dbs L) × (u ≡ running dbs)))
  Updated-cases (updated ok dbs) = inl (ok, dbs, refl)
  Updated-cases undefined = inr (inl refl)
  Updated-cases (running dbs) = inr (inr (dbs, refl))

  prepare-Takes :
      (cluster : Cluster) (leader_id : ℕ) (curls : List Curl) (req : Request)
      (m : OperationLogMessage) (s : Confirm L codecs)
      → Leaves (Takes m s) (prepare L codecs cluster leader_id curls req m s)
  unfolding prepare
  prepare-Takes cluster leader_id curls req m s = elim (Option-cases (next_id L s.dbs.oplog)) [
    | inl out ↦ rw (out, prepare) tt
    | inr (id, next) ↦ elim (Bool-cases (eq_bytes id m.op_id)) [
      | inl same ↦ rw (next, same, prepare) (refl, inl refl)
      | inr differ ↦ elim (Option-cases (master_get_oplog cluster leader_id)) [
        | inl nowhere ↦ rw (next, differ, nowhere, prepare) tt
        | inr (to, at) ↦ elim (Updated-cases (update_loop L codecs to curls s.dbs id id m.op_id)) [
          | inr (inl e) ↦ rw (next, differ, at, e, prepare) tt
          | inr (inr (dbs, e)) ↦ rw (next, differ, at, e, prepare) tt
          | inl (ok, dbs, e) ↦ elim (Bool-cases ok) [
            | inl good ↦ rw (next, differ, at, e, good, prepare) (refl, inl refl)
            | inr bad ↦ rw (next, differ, at, e, bad, prepare) (refl, inr (refl, refl))
          ]
        ]
      ]
    ]
  ]

  stores-Same :
      (req : Request) (m : OperationLogMessage) (s : Confirm L codecs)
      → Leaves (Same s) (stores L codecs req m s)
  unfolding stores
  stores-Same req m s =
      let operation = (codecs.operation.parse s.state_data.log_data).1 in
      let kept : Same s s = (refl, refl, refl) in
      elim (Option-cases (codecs.log.serialize s.state_data)) [
        | inl out ↦ rw (out, stores) kept
        | inr (log, logged) ↦ elim (Option-cases (codecs.response.serialize operation.content)) [
          | inl out ↦ rw (logged, out, stores) kept
          | inr (content, made) ↦
              elim (Stored-cases (store L s.dbs m.op_id log operation.key content).0) [
                | inl e ↦ rw (logged, made, e, stores) kept
                | inr (inl e) ↦ rw (logged, made, e, stores) kept
                | inr (inr e) ↦ rw (logged, made, e, stores) kept
              ]
        ]
      ]

  commit-Same :
      (req : Request) (m : OperationLogMessage) (s : Confirm L codecs)
      → Leaves (Same s) (commit L codecs req m s)
  unfolding commit
  commit-Same req m s = elim (Bool-cases s.state) [
    | inr idle ↦ rw (idle, commit) (refl, refl, refl)
    | inl ready ↦ elim (Bool-cases (eq_bytes m.op_id s.state_id)) [
      | inr other ↦ rw (ready, other, commit) (refl, refl, refl)
      | inl same ↦ elim (Bool-cases (eq_ℤ s.state_data.op_type (pos 1))) [
        | inr kind ↦ rw (ready, same, kind, commit) (refl, refl, refl)
        | inl upload ↦
            subst (Leaves (Same s)) (sym (commit-prepared L codecs req m s ready same upload))
              (stores-Same req m s)
      ]
    ]
  ]

  weaken :
      (P Q : Confirm L codecs → Type 0)
      → ((t : Confirm L codecs) → P t → Q t)
      → (h : Handled L codecs) → Leaves P h
      → Leaves Q h
  weaken P Q f (replied r t) p = f t p
  weaken P Q f no_behaviour p = tt
  weaken P Q f unfinished p = tt

  -- A request is a first phase, whose message is taken, or changes nothing of what is held.
  abbrev Changes : Request → Confirm L codecs → Confirm L codecs → Type 0
  Changes req s t = ((m : OperationLogMessage) × FirstPhase req m × Takes m s t) ⊎ Same s t

  follower_lem :
      (cluster : Cluster) (leader_id : ℕ) (curls : List Curl) (req : Request) (s : Confirm L codecs)
      → Leaves (Changes req s) (handle_request L codecs cluster follower leader_id curls req s)
  unfolding handle_request
  follower_lem cluster leader_id curls req s =
      let kept : Changes req s s = inr (refl, refl, refl) in
      elim (Option-cases (server_get_postdata req)) [
        | inl out ↦ rw (out, handle_request) kept
        | inr (body, posted) ↦
            let m = (codecs.message.parse (base64_decode body)).1 in
            elim (Bool-cases (codecs.message.parse (base64_decode body)).0) [
              | inr unread ↦ rw (posted, unread, handle_request) kept
              | inl parsed ↦ elim (Bool-cases (eq_ℤ m.state (pos 1))) [
                | inl first ↦
                    let is : FirstPhase req m = record {
                      body = body;
                      posted = posted;
                      reads = λ i. (parsed i, m);
                      first = first;
                    } in
                    rw (posted, parsed, first, handle_request)
                      (weaken (Takes m s) (Changes req s) (λ t h. inl (m, is, h))
                        (prepare L codecs cluster leader_id curls req m s)
                        (prepare-Takes cluster leader_id curls req m s))
                | inr other ↦ elim (Bool-cases (eq_ℤ m.state (pos 2))) [
                  | inr neither ↦ rw (posted, parsed, other, neither, handle_request) kept
                  | inl second ↦
                      rw (posted, parsed, other, second, handle_request)
                        (weaken (Same s) (Changes req s) (λ t h. inr h) (commit L codecs req m s)
                          (commit-Same req m s))
                ]
              ]
            ]
      ]

  handle_request-Changes :
      (cluster : Cluster) (status : Status) (leader_id : ℕ) (curls : List Curl) (req : Request)
      (s : Confirm L codecs)
      → Leaves (Changes req s) (handle_request L codecs cluster status leader_id curls req s)
  unfolding handle_request
  handle_request-Changes cluster leader leader_id curls req s = inr (refl, refl, refl)
  handle_request-Changes cluster follower leader_id curls req s =
      follower_lem cluster leader_id curls req s
  handle_request-Changes cluster consensus leader_id curls req s =
      follower_lem cluster leader_id curls req s

  -- The states of a handler that starts without a flag, where every first phase that is posted to it
  -- is so.
  pub data Reachable (P : OperationLogMessage → Type 0) : Confirm L codecs → Type 0 where
    boot : (s : Confirm L codecs) → s.state ≡ false → Reachable P s
    handled :
        (s t : Confirm L codecs) (cluster : Cluster) (status : Status) (leader_id : ℕ)
        (curls : List Curl) (req : Request) (r : Option Reply)
        → Reachable P s
        → ((m : OperationLogMessage) → FirstPhase req m → P m)
        → handle_request L codecs cluster status leader_id curls req s ≡ replied r t
        → Reachable P t

  -- What is held under the flag was posted, the operation and the id, maybe by two messages.
  abbrev pub Held : (OperationLogMessage → Type 0) → Confirm L codecs → Type 0
  Held P s =
      ((m : OperationLogMessage) × P m × (s.state_data ≡ m.op_log))
      × ((m : OperationLogMessage) × P m × (s.state_id ≡ m.op_id))

  Reachable-Held :
      (P : OperationLogMessage → Type 0) (s : Confirm L codecs)
      → Reachable P s
      → s.state ≡ true
      → Held P s
  Reachable-Held P s (boot _ idle) ready = absurd (ground (arith, idle, ready))
  Reachable-Held P t (handled s _ cluster status leader_id curls req r before posted runs) ready =
      let changes : Changes req s t =
        subst (Leaves (Changes req s)) runs
          (handle_request-Changes cluster status leader_id curls req s) in
      elim changes [
        | inl (m, first, (id, inl data')) ↦ let p = posted m first in ((m, p, data'), (m, p, id))
        | inl (m, first, (id, inr (flag, data'))) ↦
            let ((k, q, same), _) = Reachable-Held P s before (sym flag ∙ ready) in
            ((k, q, data' ∙ same), (m, posted m first, id))
        | inr (flag, id, data') ↦
            let ((k, q, same), (k', q', same')) = Reachable-Held P s before (sym flag ∙ ready) in
            ((k, q, data' ∙ same), (k', q', id ∙ same'))
      ]

  -- In a handler that starts without a flag, a second phase that is answered with success stores the
  -- operation of a first phase that was posted to it, under an id that a first phase was posted for,
  -- on databases that keep what they acknowledge. The two need not be the same first phase.
  pub commit-posted :
      (reliable : Reliable L) (P : OperationLogMessage → Type 0) (req : Request)
      (message : OperationLogMessage) (s s' : Confirm L codecs) (reply : Bytes)
      → Reachable P s
      → commit L codecs req message s ≡ replied (some (ok_reply reply)) s'
      → (m : OperationLogMessage) × (k : OperationLogMessage) × (log : Bytes) × P m
        × P k
        × (message.op_id ≡ k.op_id)
        × (codecs.log.serialize m.op_log ≡ some log)
        × (Database.get L s'.dbs.oplog message.op_id ≡ (true, log, s'.dbs.oplog))
  commit-posted reliable P req message s s' reply reached h =
      let (flag, same, upload, (log, wrote, stored', _)) =
        commit-ok L reliable codecs req message s s' reply h in
      let ((m, p, data'), (k, q, id)) = Reachable-Held P s reached flag in
      (
        m,
        k,
        log,
        p,
        q,
        (eq_bytes_iff message.op_id s.state_id).0 same ∙ id,
        ap (λ d. codecs.log.serialize d) (sym data') ∙ wrote,
        stored',
      )
