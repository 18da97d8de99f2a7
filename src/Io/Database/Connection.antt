-- ===== src/Io/Database/Connection.antt =====
-- io/kyrin_database_wrapper.cc and .h: the pointer `database_connection`, which a failed open leaves
-- NULL.
use kyrin_box.Prelude.{
  ◌≡◌, refl, ap, sym, arith, Bool, true, false, Option, none, some, Bytes, if◌then◌else◌, [],
  Bool-cases, inl, inr,
}
use kyrin_box.Io.Database
use kyrin_box.Io.Database.{LevelDb, Status, ok, not_found, failed, is_ok}
use kyrin_box.Io.Database.Reliable.{Reliable}

-- `database_connection`, with what is on the disk. leveldb's `DB::Open` stores a database behind
-- the pointer, or NULL if it fails, and `delete` of NULL does nothing.
pub data Connection (Db : Type 0) : Type 0 where
  connected : Db → Connection Db
  null : Db → Connection Db

abbrev pub stored : {Db : Type 0} → Bool → Db → Connection Db
stored true db = connected db
stored false db = null db

module _ (L : LevelDb) where
  -- Both constructors, whose result nobody looks at; `open_at` is `DB::Open` of a path with
  -- `create_if_missing`.
  pub database_connect : (Bytes → Status × L.Db) → Bytes → Bool × Connection L.Db
  database_connect open_at path = let (s, db) = open_at path in (is_ok s, stored (is_ok s) db)

  unfoldable pub database_reconnect : L.Db → Bool × Connection L.Db
  unfolding Database.reconnect
  database_reconnect db = let (r, db') = Database.reconnect L db in (r, stored r db')

  -- `put` and `get` with the calls through the pointer; `none` is undefined behaviour, a call
  -- through NULL.
  unfoldable pub put : Connection L.Db → Bytes → Bytes → Option (Bool × Connection L.Db)
  unfolding database_reconnect Database.reconnect
  put (null db) key value = none
  put (connected db) key value =
      let (s, db1) = L.put db key value in
      let (r, c) = database_reconnect db1 in
      if is_ok s then some (true, connected db1) else elim c [
        | null db2 ↦ some (false, null db2)
        | connected db2 ↦ let (t, db3) = L.put db2 key value in some (is_ok t, connected db3)
      ]

  unfoldable pub get : Connection L.Db → Bytes → Option (Bool × Bytes × Connection L.Db)
  unfolding database_reconnect Database.reconnect
  get (null db) key = none
  get (connected db) key =
      let (s, v) = L.get db key in
      let (r, c) = database_reconnect db in
      elim s [
        | ok ↦ some (true, v, connected db)
        | not_found ↦ some (false, [], connected db)
        | failed ↦ elim c [
          | null db1 ↦ some (false, v, null db1)
          | connected db1 ↦ let (t, w) = L.get db1 key in some (is_ok t, w, connected db1)
        ]
      ]

  -- On a connection that is open the wrapper does what `Database.put` says, and the connection is
  -- still open unless both the first try and the reconnect fail.
  pub put_lem :
      (db : L.Db) (k v : Bytes)
      → put (connected db) k v
        ≡ some (
          (Database.put L db k v).0,
          stored
              (if is_ok (L.put db k v).0 then true else (Database.reconnect L (L.put db k v).1).0)
              (Database.put L db k v).1,
        )
  unfolding put database_reconnect Database.put Database.reconnect
  put_lem db k v = elim (Bool-cases (is_ok (L.put db k v).0)) [
    | inl first ↦ rw first refl
    | inr fails ↦ elim (Bool-cases (is_ok (L.reopen (L.put db k v).1).0)) [
      | inl again ↦ rw (fails, again) refl
      | inr closed ↦ rw (fails, closed) refl
    ]
  ]

  get-ok :
      (db : L.Db) (k v : Bytes)
      → L.get db k ≡ (ok, v)
      → get (connected db) k ≡ some (true, v, connected db)
  unfolding get
  get-ok db k v h = rw (get, ap (λ p. p.0) h, ap (λ p. p.1) h) refl

  -- A value that is written on an open connection, at the first try or on the new connection, leaves
  -- a connection on which `get` gives it for its key, if the database keeps what it acknowledges.
  pub put-get_connected :
      (reliable : Reliable L) (db : L.Db) (k v : Bytes) (c : Connection L.Db)
      → put (connected db) k v ≡ some (true, c)
      → get c k ≡ some (true, v, c)
  unfolding put database_reconnect Database.reconnect
  put-get_connected reliable db k v c e =
      let db1 = (L.put db k v).1 in
      let db2 = (L.reopen db1).1 in
      elim (Bool-cases (is_ok (L.put db k v).0)) [
        | inl first ↦
            let same : Path (Option (Bool × Connection L.Db)) (some (true, connected db1))
                (some (true, c)) =
              rw first at e in
            let left : connected db1 ≡ c = cc in
            rw (sym left) (get-ok db1 k v (reliable db k v first))
        | inr fails ↦ elim (Bool-cases (is_ok (L.reopen db1).0)) [
          | inl again ↦
              let same : Path (Option (Bool × Connection L.Db))
                  (some (is_ok (L.put db2 k v).0, connected (L.put db2 k v).1)) (some (true, c)) =
                rw (fails, again) at e in
              let left : connected (L.put db2 k v).1 ≡ c = cc in
              let written : is_ok (L.put db2 k v).0 ≡ true = cc in
              rw (sym left) (get-ok (L.put db2 k v).1 k v (reliable db2 k v written))
          | inr closed ↦
              let none_written : Path (Option (Bool × Connection L.Db)) (some (false, null db2))
                  (some (true, c)) =
                rw (fails, closed) at e in
              let no : false ≡ true = cc in absurd (ground arith)
        ]
      ]
