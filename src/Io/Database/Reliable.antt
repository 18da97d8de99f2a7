-- ===== src/Io/Database/Reliable.antt =====
-- What the wrapper keeps of a database that keeps what it acknowledges.
use kyrin_box.Prelude.{◌≡◌, ap, true, false, Bytes, Bool-cases, inl, inr, arith}
use kyrin_box.Io.Database
use kyrin_box.Io.Database.{LevelDb, Status, ok, not_found, failed, is_ok}

-- A value that `Put` acknowledged is what `Get` gives for its key.
abbrev pub Reliable : LevelDb → Type 0
Reliable L =
    (db : L.Db) (k v : Bytes) → is_ok (L.put db k v).0 ≡ true → L.get (L.put db k v).1 k ≡ (ok, v)

get-ok :
    (L : LevelDb) (db : L.Db) (k v : Bytes)
    → L.get db k ≡ (ok, v)
    → Database.get L db k ≡ (true, v, db)
unfolding Database.get
get-ok L db k v h = rw (Database.get, ap (λ p. p.0) h, ap (λ p. p.1) h)

-- On a database that keeps what it acknowledges, a value that `put` reports as written, on the
-- first connection or on the new one, is what `get` gives for its key, and this `get` changes
-- nothing.
pub put-get :
    (L : LevelDb) (reliable : Reliable L) (db : L.Db) (k v : Bytes)
    → (Database.put L db k v).0 ≡ true
    → Database.get L (Database.put L db k v).1 k ≡ (true, v, (Database.put L db k v).1)
unfolding Database.put Database.reconnect
put-get L reliable db k v h = elim (Bool-cases (is_ok (L.put db k v).0)) [
  | inl first ↦ rw first (get-ok L (L.put db k v).1 k v (reliable db k v first))
  | inr fails ↦
      let db2 = (L.reopen (L.put db k v).1).1 in
      elim (Bool-cases (is_ok (L.reopen (L.put db k v).1).0)) [
        | inl open' ↦
            let again : is_ok (L.put db2 k v).0 ≡ true = rw (fails, open') at h in
            rw (fails, open') (get-ok L (L.put db2 k v).1 k v (reliable db2 k v again))
        | inr closed ↦ let no_try : false ≡ true = rw (fails, closed) at h in absurd (ground arith)
      ]
]
