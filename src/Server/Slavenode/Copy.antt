-- ===== src/Server/Slavenode/Copy.antt =====
-- The redis of a slave node is a copy of the masters' user data.
use kyrin_box.Prelude.{
  ◌≡◌, ◌≢◌, ◌∙◌, refl, ap, subst, true, Option, none, some, List, [], ◌∷◌, Bytes, pos, eq_ℤ,
  eq_bytes, eq_bytes_iff, map, All, inl, inr, Bool-cases, arith,
}
use kyrin_box.Common.OplogId.{add_one}
use kyrin_box.Io.Database.{LevelDb, Status, ok}
use kyrin_box.Master.Oplog.{Codecs}
use kyrin_box.Master.ConfirmOplog.CatchUp.{IsWorking, Numbered, IsUpload, filled}
use kyrin_box.Server.Redis.{Redis, RedisReply, other_reply, string_reply}
use kyrin_box.Server.Slavenode.{apply_page}

-- A redis that takes every value, gives it back, and keeps the values of the other keys.
pub record IsRedis (R : Redis) : Type 0 where
  pub takes : (db : R.Db) (k v : Bytes) → (R.set db k v).0 ≡ other_reply
  pub gives : (db : R.Db) (k v : Bytes) → (R.get (R.set db k v).1 k).0 ≡ string_reply v
  pub keeps : (db : R.Db) (k j v : Bytes) → k ≢ j → (R.get (R.set db k v).1 j).0 ≡ (R.get db j).0

abbrev pub of_redis : RedisReply → Option Bytes
of_redis (string_reply v) = some v
of_redis _ = none

abbrev pub of_database : Status × Bytes → Option Bytes
of_database (ok, v) = some v
of_database (_, v) = none

-- The two hold the same values under the same keys.
abbrev pub IsCopy : (R : Redis) (L : LevelDb) → R.Db → L.Db → Type 0
IsCopy R L db u = (k : Bytes) → of_redis (R.get db k).0 ≡ of_database (L.get u k)

module _ (R : Redis) (L : LevelDb) (codecs : Codecs) (redis : IsRedis R) (works : IsWorking L) where
  set-IsCopy :
      (db : R.Db) (u : L.Db) (k v : Bytes)
      → IsCopy R L db u
      → IsCopy R L (R.set db k v).1 (L.put u k v).1
  set-IsCopy db u k v copy j = elim (Bool-cases (eq_bytes k j)) [
    | inl same ↦
        let e = (eq_bytes_iff k j).0 same in
        subst (λ j. of_redis (R.get (R.set db k v).1 j).0 ≡ of_database (L.get (L.put u k v).1 j)) e
          (rw (redis.gives db k v, works.gives u k v) refl)
    | inr differ ↦
        let other : k ≢ j = λ e. absurd (ground (arith, differ, (eq_bytes_iff k j).1 e)) in
        rw (redis.keeps db k j v other, works.keeps u k j v other) (copy j)
  ]

  apply_page-cons :
      (id v next content : Bytes) (items : List Bytes) (db : R.Db)
      → let log = (codecs.log.parse v).1 in
        let operation = (codecs.operation.parse log.log_data).1 in
        eq_ℤ log.op_type (pos 1) ≡ true
        → codecs.response.serialize operation.content ≡ some content
        → add_one id ≡ some (next, true)
        → apply_page R codecs (v ∷ items) db id
          ≡ apply_page R codecs items (R.set db operation.key content).1 next
  unfolding apply_page
  apply_page-cons id v next content items db upload wrote more =
      let operation = (codecs.operation.parse (codecs.log.parse v).1.log_data).1 in
      rw (upload, wrote, redis.takes db operation.key content, more, apply_page) refl

  -- A page is applied to the copy as its uploads fill the user data.
  pub apply_page-IsCopy :
      (id last : Bytes) (es : List (Bytes × Bytes)) (db : R.Db) (u : L.Db)
      → Numbered id es last
      → All (λ e. IsUpload codecs e.1) es
      → IsCopy R L db u
      → (db' : R.Db) × (apply_page R codecs (map (λ e. e.1) es) db id ≡ some (db', last))
        × IsCopy R L db' (filled L codecs es u)
  unfolding filled apply_page
  apply_page-IsCopy id last [] db u n uploads copy = (db, ap (λ i. some (db, i)) n, copy)
  apply_page-IsCopy id last ((k, v) ∷ es) db u (same, (next, more, n))
        ((upload, (content, wrote)), uploads) copy =
      let operation = (codecs.operation.parse (codecs.log.parse v).1.log_data).1 in
      let db1 = (R.set db operation.key content).1 in
      let u1 = (L.put u operation.key content).1 in
      let (db', runs, copy') =
        apply_page-IsCopy next last es db1 u1 n uploads
          (set-IsCopy db u operation.key content copy) in
      (
        db',
        apply_page-cons id v next content (map (λ e. e.1) es) db upload wrote more ∙ runs,
        rw (wrote, filled) copy',
      )
