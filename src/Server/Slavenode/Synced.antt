-- ===== src/Server/Slavenode/Synced.antt =====
-- The rounds of a slave node, each with a page from where the copy ends.
use kyrin_box.Prelude.{ℕ, ◌+◌, ◌<◌, ◌≡◌, some, List, ◌++◌, Bytes, All}
use kyrin_box.Common.Cluster.{Cluster, master_get_oplog}
use kyrin_box.Common.OplogId.{get_zero}
use kyrin_box.Io.Database.{LevelDb}
use kyrin_box.Master.Oplog.{Codecs}
use kyrin_box.Master.ConfirmOplog.CatchUp.{Numbered, IsUpload, filled}
use kyrin_box.Server.Redis.{Redis}
use kyrin_box.Server.Slavenode.Answers.{Log}
use kyrin_box.Server.Slavenode.Copy.{IsCopy}

-- The masters of the cluster have addresses.
abbrev pub HasAddresses : Cluster → Type 0
HasAddresses cluster =
    (0 < cluster.master_server_count)
    × ((i : ℕ)
        → i < cluster.master_server_count
        → (host : Bytes) × (port : ℕ) × (master_get_oplog cluster (i + 1) ≡ some (host, port)))

module _ (R : Redis) (L : LevelDb) (codecs : Codecs) where
  abbrev filled_by : Log → L.Db → L.Db
  filled_by = filled L codecs

  -- A part of the log up to the current id is in the copy.
  pub record Synced (log : Log) (last : Bytes) (u : L.Db) (db : R.Db) (id : Bytes) : Type 0 where
    pub done : Log
    pub rest : Log
    pub whole : done ++ rest ≡ log
    pub before : Numbered get_zero done id
    pub behind : Numbered id rest last
    pub uploads : All (λ e. IsUpload codecs e.1) rest
    pub copy : IsCopy R L db (filled L codecs done u)
