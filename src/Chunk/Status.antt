-- ===== src/Chunk/Status.antt =====
-- server/chunk/kyrin_chunk_gossiper_status.{h,cc}: what a chunk server knows of the others. The
-- methods of the .cc file hold the lock, so their calls follow one another; the draws and
-- `get_timestamp`, in the header, take no lock, and are modelled as if nothing changed meanwhile.
-- `time(NULL)`, the values of `rand()` and the entries of `KyrinCluster` are arguments.
pub mod Random
pub mod Members
pub mod Exchange
pub mod Draws
pub mod Termination
mod Tests
use kyrin_box.Prelude.{
  ℕ, zero, suc, ◌+◌, ◌-◌, ◌%◌, Bool, true, false, Option, none, some, List, [], ◌∷◌, ◌++◌, map,
  Bytes, ltb, leb, ◌==◌, if◌then◌else◌, length, get_elem?, or_zero, ℤ, pos, negsuc, eq_ℤ,
}
use kyrin_box.Io.Codec.{Codec, or_empty}

-- `ChunkStatusConfig`
pub record Config : Type 0 where
  pub host : Bytes
  pub gossip_port : ℕ
  pub download_chunk_port : ℕ
  pub upload_chunk_port : ℕ
  pub set_file_keyinfo_port : ℕ
  pub get_file_keyinfo_port : ℕ

-- `ChunkStatusConfig()`
abbrev pub default_config : Config
default_config = record {
  host = [];
  gossip_port = 0;
  download_chunk_port = 0;
  upload_chunk_port = 0;
  set_file_keyinfo_port = 0;
  get_file_keyinfo_port = 0;
}

-- `KyrinChunkGossiperStatus`; `configs` is a `std::map`, in the order of its keys.
pub record ChunkStatus : Type 0 where
  pub timestamp : ℕ
  pub configs : List (ℕ × Config)
  pub seeds : List ℕ
  pub commons : List ℕ
  pub dead_seeds : List ℕ
  pub dead_commons : List ℕ

-- `KyrinChunkGossiperStatus()`, which leaves the timestamp as it is.
abbrev pub empty_status : ChunkStatus
empty_status = record {
  timestamp = 0;
  configs = [];
  seeds = [];
  commons = [];
  dead_seeds = [];
  dead_commons = [];
}

-- The messages `ChunkClusterGossipData`, whose fields but the kbid are those of a `Config`, and
-- `ChunkClusterStatus`, where a `ChunkStatus` is its kbid.
pub record GossipData : Type 0 where
  pub kbid : ℕ
  pub config : Config

pub record ClusterStatus : Type 0 where
  pub seeds : List ℕ
  pub commons : List ℕ
  pub dead_seeds : List ℕ
  pub dead_commons : List ℕ
  pub datas : List GossipData
  pub timestamp : ℕ

-- `m_configs.find(kbid)`, and `m_configs[kbid] = config`
unfoldable pub find : ℕ → List (ℕ × Config) → Option Config
find k [] = none
find k ((j, c) ∷ m) = if j == k then some c else find k m

unfoldable pub assign : ℕ → Config → List (ℕ × Config) → List (ℕ × Config)
assign k c [] = (k, c) ∷ []
assign k c ((j, d) ∷ m) =
    if k == j then (k, c) ∷ m else if ltb k j then (k, c) ∷ (j, d) ∷ m else (j, d) ∷ assign k c m

pub assign_all : (ℕ → Config) → List ℕ → List (ℕ × Config) → List (ℕ × Config)
assign_all cluster [] m = m
assign_all cluster (k ∷ ks) m = assign_all cluster ks (assign k (cluster k) m)

-- `cluster` gives the entries that `KyrinCluster` has for a kbid, and `now` is `time(NULL)`.
pub initialize : (ℕ → Config) → List ℕ → List ℕ → ℕ → ℕ → ChunkStatus → ChunkStatus
initialize cluster seeds commons timestamp now s = record s {
  configs = assign_all cluster commons (assign_all cluster seeds []);
  seeds = seeds;
  commons = commons;
  timestamp = if timestamp == 0 then now else timestamp;
}

pub check_commons : GossipData → ℕ → ChunkStatus → ChunkStatus × Bool
check_commons d now s = elim (find d.kbid s.configs) [
  | some c ↦ (s, false)
  | none ↦ (
    record s {
      commons = s.commons ++ (d.kbid ∷ []);
      configs = assign d.kbid d.config s.configs;
      timestamp = now;
    },
    true,
  )
]

unfoldable pub get_config : ℕ → ChunkStatus → Option Config
get_config kbid s = find kbid s.configs

-- `a.erase(iter)` at the first item that is `kbid`; `none` where there is none.
pub erase_first : ℕ → List ℕ → Option (List ℕ)
erase_first kbid [] = none
erase_first kbid (x ∷ a) =
    if kbid == x
    then some a
    else (elim (erase_first kbid a) [ none ↦ none | some r ↦ some (x ∷ r) ])

-- The vectors `a` and `b` behind `set_item`.
pub set_item : List ℕ → List ℕ → ℕ → List ℕ × List ℕ
unfolding erase_first
set_item a b kbid = elim (erase_first kbid a) [ none ↦ (a, b) | some r ↦ (r, b ++ (kbid ∷ [])) ]

pub set_dead : ℕ → ℤ → ℕ → ChunkStatus → ChunkStatus
unfolding set_item
set_dead kbid flag now s =
    if eq_ℤ flag (pos 1)
    then record s {
      timestamp = now;
      seeds = (set_item s.seeds s.dead_seeds kbid).0;
      dead_seeds = (set_item s.seeds s.dead_seeds kbid).1;
    }
    else if eq_ℤ flag (pos 2)
    then record s {
      timestamp = now;
      commons = (set_item s.commons s.dead_commons kbid).0;
      dead_commons = (set_item s.commons s.dead_commons kbid).1;
    }
    else s

pub set_alive : ℕ → ℤ → ℕ → ChunkStatus → ChunkStatus
unfolding set_item
set_alive kbid flag now s =
    if eq_ℤ flag (negsuc 0)
    then record s {
      timestamp = now;
      dead_seeds = (set_item s.dead_seeds s.seeds kbid).0;
      seeds = (set_item s.dead_seeds s.seeds kbid).1;
    }
    else if eq_ℤ flag (negsuc 1)
    then record s {
      timestamp = now;
      dead_commons = (set_item s.dead_commons s.commons kbid).0;
      commons = (set_item s.dead_commons s.commons kbid).1;
    }
    else s

abbrev pub to_data : ℕ × Config → GossipData
to_data (k, c) = record { kbid = k; config = c }

pub to_protobuf : ChunkStatus → ClusterStatus
to_protobuf s = record {
  seeds = s.seeds;
  commons = s.commons;
  dead_seeds = s.dead_seeds;
  dead_commons = s.dead_commons;
  datas = map to_data s.configs;
  timestamp = s.timestamp;
}

-- The string, and whether it was written.
unfoldable pub to_string : Codec ClusterStatus → ChunkStatus → Option Bytes
unfolding to_protobuf
to_string codec s = codec.serialize (to_protobuf s)

unfoldable pub assign_datas : List GossipData → List (ℕ × Config) → List (ℕ × Config)
assign_datas [] m = m
assign_datas (d ∷ ds) m = assign_datas ds (assign d.kbid d.config m)

unfoldable pub from_string : Codec ClusterStatus → Bytes → ChunkStatus → ChunkStatus × Bool
from_string codec text s =
    let (parsed, m) = codec.parse text in
    if parsed
    then (
      record {
        timestamp = m.timestamp;
        configs = assign_datas m.datas [];
        seeds = m.seeds;
        commons = m.commons;
        dead_seeds = m.dead_seeds;
        dead_commons = m.dead_commons;
      },
      true,
    )
    else (s, false)
