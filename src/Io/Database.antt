-- ===== src/Io/Database.antt =====
-- io/kyrin_database_wrapper.cc over leveldb, which is a parameter.
pub mod Connection
pub mod Reliable
pub mod Tests
use kyrin_box.Prelude.{
  ℕ, Bool, true, false, Option, none, some, List, [], ◌∷◌, Bytes, if◌then◌else◌,
}

-- `leveldb::Status`
pub data Status : Type 0 where
  ok not_found failed : Status

abbrev pub is_ok : Status → Bool
is_ok ok = true
is_ok _ = false

-- leveldb's operations on a state `Db`. `reopen` is `delete` of the connection and `DB::Open`.
-- `entries` is what an iterator runs over, in the order of the keys, `seek` what is left of it
-- behind `Seek`, and `has_iterator` says whether
-- `NewIterator` gives one.
pub record LevelDb : Type 1 where
  pub Db : Type 0
  pub put : Db → Bytes → Bytes → Status × Db
  pub get : Db → Bytes → Status × Bytes
  pub delete : Db → Bytes → Status × Db
  pub reopen : Db → Status × Db
  pub entries : Db → List (Bytes × Bytes)
  pub seek : Db → Bytes → List (Bytes × Bytes)
  pub has_iterator : Db → Bool

module _ (L : LevelDb) where
  -- `database_reconnect`
  pub reconnect : L.Db → Bool × L.Db
  reconnect db = let (s, db') = L.reopen db in (is_ok s, db')

  -- `put`: after a failure, one more try on a new connection.
  unfoldable pub put : L.Db → Bytes → Bytes → Bool × L.Db
  unfolding reconnect
  put db key value =
      let (s, db1) = L.put db key value in
      let (r, db2) = reconnect db1 in
      let (t, db3) = L.put db2 key value in
      if is_ok s then (true, db1) else if r then (is_ok t, db3) else (false, db2)

  -- `get`: the value is empty where the result is false, unless the second try left something.
  unfoldable pub get : L.Db → Bytes → Bool × Bytes × L.Db
  unfolding reconnect
  get db key =
      let (s, v) = L.get db key in
      let (r, db1) = reconnect db in
      let (t, w) = L.get db1 key in
      elim s [
        | ok ↦ (true, v, db)
        | not_found ↦ (false, [], db)
        | failed ↦ if r then (is_ok t, w, db1) else (false, v, db1)
      ]

  unfoldable pub exist : L.Db → Bytes → Bool × L.Db
  unfolding get
  exist db key = let (found, _, db') = get db key in (found, db')

  unfoldable pub remove : L.Db → Bytes → Bool × L.Db
  remove db key = let (s, db') = L.delete db key in (is_ok s, db')

  -- The key of the last entry; `none` is the result false.
  pub last_key : List (Bytes × Bytes) → Option Bytes
  last_key [] = none
  last_key ((k, v) ∷ []) = some k
  last_key (e ∷ f ∷ l) = last_key (f ∷ l)

  unfoldable pub fetch_last_key : L.Db → Option Bytes
  unfolding last_key
  fetch_last_key db = if L.has_iterator db then last_key (L.entries db) else none
