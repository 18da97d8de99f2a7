-- ===== src/Master/ConfirmOplog/CatchUp.antt =====
-- What a follower has after a page of the leader's log was applied to it.
pub mod InSync
pub mod Example
mod Tests
use kyrin_box.Prelude.{
  ℕ, ◌+◌, ◌≤◌, ◌<◌, ◌≡◌, ◌≢◌, ◌∙◌, refl, sym, ap, subst, Bool, true, false, Option, some, List, [],
  ◌∷◌, Bytes, pos, eq_ℤ, map, All, inl, inr, arith,
}
use mathlib.Core.Option.{some-injective}
use kyrin_box.Common.OplogId.{add_one}
use kyrin_box.Common.OplogId.Order.{IsId, value, add_one-value}
use kyrin_box.Io.Codec.{or_empty}
use kyrin_box.Io.Database
use kyrin_box.Io.Database.{LevelDb, ok, is_ok}
use kyrin_box.Master.Oplog.{Codecs, Dbs, store, stored}
use kyrin_box.Master.ConfirmOplog.{apply_page, Applied, applied}

-- A database that takes every entry, gives it back, and keeps the entries of the other keys.
pub record IsWorking (L : LevelDb) : Type 0 where
  pub takes : (db : L.Db) (k v : Bytes) → (L.put db k v).0 ≡ ok
  pub gives : (db : L.Db) (k v : Bytes) → L.get (L.put db k v).1 k ≡ (ok, v)
  pub keeps : (db : L.Db) (k j v : Bytes) → k ≢ j → L.get (L.put db k v).1 j ≡ L.get db j

-- The entries have the ids from `id` on, without a gap; `last` is the id behind them.
abbrev pub Numbered : Bytes → List (Bytes × Bytes) → Bytes → Type 0
Numbered id [] last = id ≡ last
Numbered id (e ∷ es) last =
    (e.0 ≡ id) × ((next : Bytes) × (add_one id ≡ some (next, true)) × Numbered next es last)

-- The text is an operation that uploads a file.
abbrev pub IsUpload : Codecs → Bytes → Type 0
IsUpload codecs v =
    let log = (codecs.log.parse v).1 in
    (eq_ℤ log.op_type (pos 1) ≡ true)
    × ((content : Bytes) × (codecs.response.serialize
            (codecs.operation.parse log.log_data).1.content
          ≡ some content))

module _ (L : LevelDb) (codecs : Codecs) where
  -- The user data behind the uploads of the entries: the content of each under its key.
  unfoldable pub filled : List (Bytes × Bytes) → L.Db → L.Db
  filled [] db = db
  filled (e ∷ es) db =
      let operation = (codecs.operation.parse (codecs.log.parse e.1).1.log_data).1 in
      let content = or_empty (codecs.response.serialize operation.content) in
      filled es (L.put db operation.key content).1

-- What was applied: the log has the entries, and what it had under smaller ids; the user data are
-- filled by the entries.
pub record Has (L : LevelDb) (codecs : Codecs) (id : Bytes) (es : List (Bytes × Bytes))
    (s t : Dbs L) : Type 0 where
  pub entries : All (λ e. L.get t.oplog e.0 ≡ (ok, e.1)) es
  pub before :
      (j w : Bytes) → value j < value id → L.get s.oplog j ≡ (ok, w) → L.get t.oplog j ≡ (ok, w)
  pub contents : t.userdata ≡ filled L codecs es s.userdata

store-works :
    (L : LevelDb)
    → IsWorking L
    → (s : Dbs L) (id log key content : Bytes)
    → store L s id log key content ≡ (
      stored,
      record { oplog = (L.put s.oplog id log).1; userdata = (L.put s.userdata key content).1 },
    )
unfolding store Database.put
store-works L works s id log key content =
    rw (works.takes s.oplog id log, works.takes s.userdata key content) refl

apply_page-cons :
    (L : LevelDb) (codecs : Codecs)
    → IsWorking L
    → (id v next content : Bytes) (items : List Bytes) (s : Dbs L)
    → let log = (codecs.log.parse v).1 in
      let operation = (codecs.operation.parse log.log_data).1 in
      eq_ℤ log.op_type (pos 1) ≡ true
      → codecs.response.serialize operation.content ≡ some content
      → add_one id ≡ some (next, true)
      → apply_page L codecs (v ∷ items) s id
        ≡ apply_page L codecs items
            record {
              oplog = (L.put s.oplog id v).1;
              userdata = (L.put s.userdata operation.key content).1;
            }
            next
unfolding apply_page
apply_page-cons L codecs works id v next content items s upload wrote more =
    let operation = (codecs.operation.parse (codecs.log.parse v).1.log_data).1 in
    let kept = store-works L works s id v operation.key content in
    rw (upload, wrote, ap (λ p. p.0) kept, more, apply_page)
      (ap (λ p. apply_page L codecs items p.1 next) kept)

pub next_value :
    (id next : Bytes)
    → IsId id
    → add_one id ≡ some (next, true)
    → IsId next × (value next ≡ value id + 1)
next_value id next i e =
    let (t, b, runs, j, v) = add_one-value id i in
    let same : ◌≡◌ {A = Bytes × Bool} (t, b) (next, true) = some-injective _ _ (sym runs ∙ e) in
    let t_next : t ≡ next = ap (λ p. p.0) same in
    let no_wrap : b ≡ true = ap (λ p. p.1) same in
    (
      subst IsId t_next j,
      elim v [
        | inl (flag, grown) ↦ sym (ap value t_next) ∙ grown
        | inr (flag, wrapped, low) ↦ absurd (ground (arith, flag, no_wrap))
      ],
    )

apply_page-nil :
    (L : LevelDb) (codecs : Codecs) (id last : Bytes) (s : Dbs L)
    → id ≡ last
    → apply_page L codecs [] s id ≡ applied s last
unfolding apply_page
apply_page-nil L codecs id last s same = ap (applied s) same

-- A page whose entries are uploads with the ids from the follower's next one on is applied on
-- databases that work: the follower's log then has each of them under the leader's id, has kept
-- what it had under smaller ids, and the next id is the one behind the page.
pub apply_page-Has :
    (L : LevelDb) (codecs : Codecs)
    → IsWorking L
    → (id last : Bytes) (es : List (Bytes × Bytes)) (s : Dbs L) → IsId id
    → Numbered id es last
    → All (λ e. IsUpload codecs e.1) es
    → (t : Dbs L) × (apply_page L codecs (map (λ e. e.1) es) s id ≡ applied t last)
      × Has L codecs id es s t
unfolding filled
apply_page-Has L codecs works id last [] s i n uploads = (
  s,
  apply_page-nil L codecs id last s n,
  record { entries = tt; before = λ j w small h. h; contents = refl },
)
apply_page-Has L codecs works id last ((k, v) ∷ es) s i (same, (next, more, n))
      ((upload, (content, wrote)), uploads) =
    let operation = (codecs.operation.parse (codecs.log.parse v).1.log_data).1 in
    let s' : Dbs L = record {
      oplog = (L.put s.oplog id v).1;
      userdata = (L.put s.userdata operation.key content).1;
    } in
    let (i', grown) = next_value id next i more in
    let (t, runs, has) = apply_page-Has L codecs works next last es s' i' n uploads in
    (
      t,
      apply_page-cons L codecs works id v next content (map (λ e. e.1) es) s upload wrote more
          ∙ runs,
      record {
        entries = (
          rw same (has.before id v (omega (arith, grown)) (works.gives s.oplog id v)),
          has.entries,
        );
        before = λ j w small h.
            let other : id ≢ j = λ e. absurd (omega (arith, ap value e)) in
            has.before j w (omega (arith, grown)) (works.keeps s.oplog id j v other ∙ h);
        contents = rw (wrote, filled) has.contents;
      },
    )
