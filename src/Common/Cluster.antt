-- ===== src/Common/Cluster.antt =====
-- common/kyrin_cluster.cc, kyrin_cluster.h and common/configs/: the configuration files of a
-- cluster, and where its servers are. A file is given as the words that `>>` reads from it.
pub mod Documents
mod Tests
use kyrin_box.Prelude.{
  ℕ, ◌+◌, ◌-◌, ◌%◌, ◌^◌, Bool, true, false, Option, none, some, List, [], ◌∷◌, Bytes, ltb, ◌==◌,
  if◌then◌else◌, eq_bytes, text, take, drop, length, get_elem?,
}
use kyrin_box.Common.Decimal.{scan_digits}

-- A `map<string, string>`, in the order of its keys.
abbrev pub ConfigMap : Type 0
ConfigMap = List (Bytes × Bytes)

pub bytes_lt : Bytes → Bytes → Bool
bytes_lt s [] = false
bytes_lt [] (d ∷ t) = true
bytes_lt (c ∷ s) (d ∷ t) = let rest = bytes_lt s t in if c == d then rest else ltb c d

pub assign : Bytes → Bytes → ConfigMap → ConfigMap
assign key value [] = (key, value) ∷ []
assign key value ((k, v) ∷ m) =
    let rest = assign key value m in
    if eq_bytes key k
    then (key, value) ∷ m
    else if bytes_lt key k
    then (key, value) ∷ ((k, v) ∷ m)
    else (k, v) ∷ rest

unfoldable pub find : Bytes → ConfigMap → Option Bytes
find key [] = none
find key ((k, v) ∷ m) = let rest = find key m in if eq_bytes key k then some v else rest

-- `s.substr(1, n)`, with `n` as the machine computes `s.length() - cut`.
pub inner : ℕ → Bytes → Bytes
inner cut s = take ((2 ^ 64 + length s - cut) % 2 ^ 64) (drop 1 s)

pub ends_in_comma : Bytes → Bool
ends_in_comma [] = false
ends_in_comma (c ∷ []) = c == b','
ends_in_comma (c ∷ (d ∷ s)) = ends_in_comma (d ∷ s)

-- The loop over `file >> key >> value >> value`: three words at a time, of which the second, the
-- colon, is dropped.
pub read_entries : List Bytes → ConfigMap → ConfigMap
unfolding inner ends_in_comma
read_entries (key ∷ (colon ∷ (value ∷ words))) m =
    read_entries words (assign (inner 2 key) (inner (if ends_in_comma value then 3 else 2) value) m)
read_entries _ m = m

-- `KyrinBaseConfig::read_config_file`: the first two words are dropped.
pub read_config_file : List Bytes → ConfigMap
unfolding read_entries
read_config_file words = read_entries (drop 2 words) []

-- `KyrinBaseConfig::get_config`: a key that is not there gives the first value of the map; `none`
-- is undefined behaviour.
unfoldable pub get_config : Bytes → ConfigMap → Option Bytes
unfolding find
get_config key m = elim (find key m) [
  | some value ↦ some value
  | none ↦ elim m [ [] ↦ none | (k, v) ∷ _ ↦ some v ]
]

-- `atoi` of a text without spaces, kept to 32 bits: a sign and the digits, or 0 where there are none.
unfoldable pub atoi : Bytes → ℕ
atoi [] = 0
atoi (c ∷ s) =
    if c == b'-'
    then (2 ^ 32 - (scan_digits 0 s).0 % 2 ^ 32) % 2 ^ 32
    else if c == b'+'
    then (scan_digits 0 s).0 % 2 ^ 32
    else (scan_digits 0 (c ∷ s)).0 % 2 ^ 32

-- `atoi(get_config(key).c_str())`, the getters of a port or a count.
unfoldable pub get_number : Bytes → ConfigMap → Option ℕ
unfolding get_config atoi
get_number key m = elim (get_config key m) [ none ↦ none | some value ↦ some (atoi value) ]

-- `KyrinServerType`
pub data ServerType : Type 0 where
  master slavenode key_center chunk : ServerType

pub record Cluster : Type 0 where
  pub server_type : ServerType
  pub kbid : ℕ
  pub master_server_count : ℕ
  pub chunk_seed_count : ℕ
  pub master_configs : List ConfigMap
  pub chunk_configs : List ConfigMap
  pub key_center_config : ConfigMap

pub to_server_type : Bytes → ServerType
to_server_type name =
    if eq_bytes name (text "Master")
    then master
    else if eq_bytes name (text "Slavenode")
    then slavenode
    else if eq_bytes name (text "KeyCenter")
    then key_center
    else chunk

-- The configurations 1 to `count` of one kind.
pub read_numbered : (ℕ → List Bytes) → ℕ → ℕ → List ConfigMap
unfolding read_config_file
read_numbered files i ℕ.zero = []
read_numbered files i (ℕ.suc count) = read_config_file (files i) ∷ read_numbered files (i + 1) count

abbrev pub value_of : Option Bytes → Bytes
value_of none = []
value_of (some value) = value

-- `KyrinCluster::read_config_file`; `none` is the result false.
pub read_cluster : List Bytes → (ℕ → List Bytes) → (ℕ → List Bytes) → List Bytes → Option Cluster
unfolding read_config_file find atoi to_server_type read_numbered
read_cluster words masters chunks center =
    let m = read_config_file words in
    let number = λ (key : Bytes). atoi (value_of (find key m)) in
    elim (find (text "ServerType") m) [
      | none ↦ none
      | some name ↦ elim (find (text "Kbid") m) [
        | none ↦ none
        | some kbid ↦ some (record {
          server_type = to_server_type name;
          kbid = atoi kbid;
          master_server_count = number (text "MasterServerCount");
          chunk_seed_count = number (text "ChunkSeedCount");
          master_configs = read_numbered masters 1 (number (text "MasterServerCount"));
          chunk_configs = read_numbered chunks 1 (number (text "ChunkSeedCount"));
          key_center_config = read_config_file center;
        })
      ]
    ]

-- `m_master_configs[kbid - 1]`, where 0 stands for this server; `none` is undefined behaviour.
unfoldable pub master_config : Cluster → ℕ → Option ConfigMap
master_config c kbid =
    let k = if kbid == 0 then c.kbid else kbid in
    if k == 0 then none else get_elem? c.master_configs (k - 1)

-- `m_chunk_configs[kbid - 3001]`
pub chunk_config : Cluster → ℕ → Option ConfigMap
chunk_config c kbid =
    let k = if kbid == 0 then c.kbid else kbid in
    if ltb k 3001 then none else get_elem? c.chunk_configs (k - 3001)

-- The host and a port of a server.
pub address : Option ConfigMap → Bytes → Bytes → Option (Bytes × ℕ)
unfolding get_config get_number
address none host_key port_key = none
address (some m) host_key port_key = elim (get_config host_key m) [
  | none ↦ none
  | some host ↦ elim (get_number port_key m) [ none ↦ none | some port ↦ some (host, port) ]
]

pub master_sentinel : Cluster → ℕ → Option (Bytes × ℕ)
unfolding master_config address
master_sentinel c kbid =
    address (master_config c kbid) (text "MachineAddress") (text "MasterSentinelPort")

unfoldable pub master_confirm_oplog : Cluster → ℕ → Option (Bytes × ℕ)
unfolding master_config address
master_confirm_oplog c kbid =
    address (master_config c kbid) (text "MachineAddress") (text "MasterConfirmOplogPort")

unfoldable pub master_get_oplog : Cluster → ℕ → Option (Bytes × ℕ)
unfolding master_config address
master_get_oplog c kbid =
    address (master_config c kbid) (text "MachineAddress") (text "MasterGetOplogPort")

pub chunk_gossip : Cluster → ℕ → Option (Bytes × ℕ)
unfolding chunk_config address
chunk_gossip c kbid =
    address (chunk_config c kbid) (text "ChunkMachineAddress") (text "ChunkGossipServerPort")

-- `get_random_chunk_seed_for_gossip`
pub random_chunk_seed : ℕ → Cluster → Option (Bytes × ℕ)
unfolding chunk_gossip
random_chunk_seed rand c =
    if c.chunk_seed_count == 0 then none else chunk_gossip c (3001 + rand % c.chunk_seed_count)

-- `get_chunk_status`: the seeds and the others among the servers from 3001 up; `none` is undefined
-- behaviour of `role`.
pub chunk_status : List ConfigMap → ℕ → Option (List ℕ × List ℕ)
unfolding get_config
chunk_status [] i = some ([], [])
chunk_status (m ∷ configs) i = elim (get_config (text "ChunkRole") m) [
  | none ↦ none
  | some role ↦ elim (chunk_status configs (i + 1)) [
    | none ↦ none
    | some (seeds, commons) ↦
        some (if eq_bytes role (text "Seed") then (i ∷ seeds, commons) else (seeds, i ∷ commons))
  ]
]
