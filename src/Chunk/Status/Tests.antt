-- ===== src/Chunk/Status/Tests.antt =====
-- The theorems of the status on a cluster of four chunk servers.
use kyrin_box.Prelude.{
  subst, ℕ, ◌<◌, ◌≡◌, ◌↔◌, refl, Bool, true, false, Option, none, some, List, [], ◌∷◌, Bytes, ◌==◌,
  if◌then◌else◌, length, arith, Option-cases, inl, inr,
}
use kyrin_box.Io.Codec.{Codec, RoundTrips}
use kyrin_box.Chunk.Status.{
  Config, default_config, ChunkStatus, GossipData, ClusterStatus, check_commons, get_config,
  to_string, from_string, to_protobuf, find, empty_status,
}
use kyrin_box.Chunk.Status.Random.{
  get_random_alive_3, ready, not_ready, drawn, kbid_at, read_config,
}
use kyrin_box.Chunk.Status.Members.{occurs, IsValid, check_commons_lem}
use kyrin_box.Chunk.Status.Exchange.{Ascending, from_string-to_string}
use kyrin_box.Chunk.Status.Termination.{get_random_alive_3-ready}
use kyrin_box.Chunk.Status.Draws.{Distinct, Living, get_random_alive_3_lem}

abbrev cluster : ChunkStatus
cluster = record {
  timestamp = 9;
  configs =
      (3001, default_config)
      ∷ ((3002, default_config) ∷ ((3003, default_config) ∷ ((3004, default_config) ∷ [])));
  seeds = 3001 ∷ (3002 ∷ []);
  commons = 3003 ∷ [];
  dead_seeds = [];
  dead_commons = 3004 ∷ [];
}

cluster-IsValid : IsValid cluster
unfolding occurs find
cluster-IsValid = record {
  once = λ k. ground arith;
  known = λ k h. elim (Option-cases (find k cluster.configs)) [
    | inr stored ↦ stored
    | inl out ↦ absurd (ground arith)
  ];
}

cluster-Ascending : Ascending 0 cluster.configs
cluster-Ascending = omega arith

abbrev newcomer : GossipData
newcomer = record { kbid = 3005; config = default_config }

check_commons_lem_example :
    let t = (check_commons newcomer 10 cluster).0 in
    (get_config 3005 t ≡ (
      if 3005 == 3005
      then (elim (get_config 3005 cluster) [ none ↦ some default_config | some c ↦ some c ])
      else get_config 3005 cluster))
    × (check_commons newcomer 11 t ≡ (t, false))
check_commons_lem_example = check_commons_lem newcomer 10 11 3005 cluster

-- A codec for statuses that have seeds only.
abbrev pack : ℕ → List ℕ → List ℕ → List ℕ → List ℕ → List GossipData → Option Bytes
pack now seeds [] [] [] [] = some (now ∷ seeds)
pack now seeds [] [] [] (x ∷ datas) = none
pack now seeds [] [] (x ∷ dead_commons) datas = none
pack now seeds [] (x ∷ dead_seeds) dead_commons datas = none
pack now seeds (x ∷ commons) dead_seeds dead_commons datas = none

abbrev unpack : Bytes → Bool × ClusterStatus
unpack [] = (false, to_protobuf empty_status)
unpack (now ∷ seeds) = (
  true,
  record {
    seeds = seeds;
    commons = [];
    dead_seeds = [];
    dead_commons = [];
    datas = [];
    timestamp = now;
  },
)

abbrev seeds_only : Codec ClusterStatus
seeds_only = record {
  serialize = λ m. pack m.timestamp m.seeds m.commons m.dead_seeds m.dead_commons m.datas;
  parse = unpack;
}

unpack-pack :
    (now : ℕ) (seeds commons dead_seeds dead_commons : List ℕ) (datas : List GossipData) (b : Bytes)
    → pack now seeds commons dead_seeds dead_commons datas ≡ some b
    → unpack b ≡ (
      true,
      record {
        seeds = seeds;
        commons = commons;
        dead_seeds = dead_seeds;
        dead_commons = dead_commons;
        datas = datas;
        timestamp = now;
      },
    )
unpack-pack now seeds [] [] [] [] b h =
    let e : now ∷ seeds ≡ b = ground (arith, h) in
    subst (λ c. unpack c ≡ unpack (now ∷ seeds)) e refl
unpack-pack now seeds [] [] [] (x ∷ datas) b h = absurd (ground arith)
unpack-pack now seeds [] [] (x ∷ dead_commons) datas b h = absurd (ground arith)
unpack-pack now seeds [] (x ∷ dead_seeds) dead_commons datas b h = absurd (ground arith)
unpack-pack now seeds (x ∷ commons) dead_seeds dead_commons datas b h = absurd (ground arith)

seeds_only-RoundTrips : RoundTrips seeds_only
seeds_only-RoundTrips m b h =
    unpack-pack m.timestamp m.seeds m.commons m.dead_seeds m.dead_commons m.datas b h

abbrev two_seeds : ChunkStatus
two_seeds = record empty_status { timestamp = 9; seeds = 3001 ∷ (3002 ∷ []) }

from_string-to_string_example :
    from_string seeds_only (9 ∷ (3001 ∷ (3002 ∷ []))) cluster ≡ (two_seeds, true)
unfolding to_string
from_string-to_string_example =
    from_string-to_string seeds_only two_seeds cluster (9 ∷ (3001 ∷ (3002 ∷ [])))
      seeds_only-RoundTrips tt refl

-- A codec that knows one message.
abbrev one_message : ClusterStatus → Codec ClusterStatus
one_message m = record { serialize = λ n. none; parse = λ b. (true, m) }

get_random_alive_3_lem_example :
    ((get_random_alive_3 (0 ∷ (3 ∷ (1 ∷ (2 ∷ [])))) cluster ≡ not_ready) ↔ (3 < 3))
    × ((res : List (ℕ × Config)) (t : ChunkStatus)
        → get_random_alive_3 (0 ∷ (3 ∷ (1 ∷ (2 ∷ [])))) cluster ≡ ready res t
        → (length res ≡ 3) × Distinct res × Living cluster res)
get_random_alive_3_lem_example = get_random_alive_3_lem (0 ∷ (3 ∷ (1 ∷ (2 ∷ [])))) cluster

-- The second draw hits the first server again.
draws :
    get_random_alive_3 (0 ∷ (3 ∷ (1 ∷ (2 ∷ [])))) cluster
    ≡ ready
        ((3001, default_config) ∷ ((3002, default_config) ∷ ((3003, default_config) ∷ [])))
        cluster
unfolding get_random_alive_3 drawn kbid_at read_config find
draws = refl

get_random_alive_3-ready_example :
    (res : List (ℕ × Config)) × (t : ChunkStatus) × (get_random_alive_3
        (0 ∷ (3 ∷ (1 ∷ (2 ∷ []))))
        cluster
      ≡ ready res t)
unfolding occurs
get_random_alive_3-ready_example =
    get_random_alive_3-ready (0 ∷ (3 ∷ (1 ∷ (2 ∷ [])))) cluster 3 1 2 cluster-IsValid (omega arith)
      (omega arith) (omega arith) (omega arith) (omega arith) (omega arith) (omega arith)
