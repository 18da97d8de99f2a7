-- ===== src/Io/Database/Tests.antt =====
-- A database in memory, and the wrapper's theorem on it.
use kyrin_box.Prelude.{
  ◌≡◌, refl, true, false, some, none, List, [], ◌∷◌, Bytes, if◌then◌else◌, eq_bytes, eq_bytes_iff,
  text,
}
use kyrin_box.Io.Database
use kyrin_box.Io.Database.{LevelDb, Status, ok, not_found, failed}
use kyrin_box.Io.Database.Reliable.{Reliable}
use kyrin_box.Io.Database.Connection
use kyrin_box.Io.Database.Connection.{connected, null, put-get_connected}

abbrev pub lookup : Bytes → List (Bytes × Bytes) → Status × Bytes
lookup k [] = (not_found, [])
lookup k ((j, v) ∷ l) = if eq_bytes k j then (ok, v) else lookup k l

-- It keeps the latest entry first, and does not order the keys.
abbrev pub memory : LevelDb
memory = record {
  Db = List (Bytes × Bytes);
  put = λ db k v. (ok, (k, v) ∷ db);
  get = λ db k. lookup k db;
  delete = λ db k. (ok, db);
  reopen = λ db. (ok, db);
  entries = λ db. db;
  seek = λ db k. db;
  has_iterator = λ db. true;
}

pub memory-Reliable : Reliable memory
memory-Reliable db k v e = let same = (eq_bytes_iff k k).1 refl in rw same

put-get_connected_example :
    Connection.get memory (connected ((text "id", text "log") ∷ [])) (text "id")
    ≡ some (true, text "log", connected ((text "id", text "log") ∷ []))
unfolding Connection.put
put-get_connected_example =
    put-get_connected memory memory-Reliable [] (text "id") (text "log")
      (connected ((text "id", text "log") ∷ [])) refl

-- A disk that takes nothing, and cannot be opened again.
abbrev full : LevelDb
full = record {
  Db = List (Bytes × Bytes);
  put = λ db k v. (failed, db);
  get = λ db k. lookup k db;
  delete = λ db k. (failed, db);
  reopen = λ db. (failed, db);
  entries = λ db. db;
  seek = λ db k. db;
  has_iterator = λ db. true;
}

-- The write is reported as failed, and the next call goes through NULL.
null_test :
    (Connection.put full (connected []) (text "id") (text "log") ≡ some (false, null []))
    × (Connection.get full (null []) (text "id") ≡ none)
unfolding Connection.put Connection.get Connection.database_reconnect Database.reconnect
null_test = (refl, refl)
