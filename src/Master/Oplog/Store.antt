-- ===== src/Master/Oplog/Store.antt =====
-- What a stored operation has behind it.
use kyrin_box.Prelude.{◌≡◌, ◌⊎◌, refl, true, Bytes, inl, inr, Bool-cases, arith, ap}
use kyrin_box.Io.Database
use kyrin_box.Io.Database.{LevelDb}
use kyrin_box.Master.Oplog.{Stored, stored, log_failed, data_failed, Dbs, store}

-- An operation is stored only if both databases report it.
pub store-stored :
    (L : LevelDb) (s s' : Dbs L) (id log key data' : Bytes)
    → store L s id log key data' ≡ (stored, s')
    → ((Database.put L s.oplog id log).0 ≡ true)
      × ((Database.put L s.oplog id log).1 ≡ s'.oplog)
      × ((Database.put L s.userdata key data').0 ≡ true)
      × ((Database.put L s.userdata key data').1 ≡ s'.userdata)
unfolding store
store-stored L s s' id log key data' h = elim (Bool-cases (Database.put L s.oplog id log).0) [
  | inl logged ↦ elim (Bool-cases (Database.put L s.userdata key data').0) [
    | inl kept ↦
        let done = rw (logged, kept) at h in
        (logged, ap (λ p. p.1.oplog) done, kept, ap (λ p. p.1.userdata) done)
    | inr lost ↦
        let bad : data_failed ≡ stored = ap (λ p. p.0) (rw (logged, lost) at h) in
        absurd (ground arith)
  ]
  | inr out ↦ let bad : log_failed ≡ stored = ap (λ p. p.0) (rw out at h) in absurd (ground arith)
]

pub Stored-cases : (x : Stored) → (x ≡ stored) ⊎ ((x ≡ log_failed) ⊎ (x ≡ data_failed))
Stored-cases stored = inl refl
Stored-cases log_failed = inr (inl refl)
Stored-cases data_failed = inr (inr refl)
