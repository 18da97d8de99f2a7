-- ===== src/Chunk/Status/Random.antt =====
-- The servers that are drawn from a status: server/chunk/kyrin_chunk_gossiper_status.h.
use kyrin_box.Prelude.{
  ℕ, ◌+◌, ◌-◌, ◌%◌, Bool, true, false, Option, none, some, List, [], ◌∷◌, ◌++◌, ltb, leb, ◌==◌,
  if◌then◌else◌, length, get_elem?, or_zero,
}
use kyrin_box.Chunk.Status.{Config, default_config, ChunkStatus, find, assign}

-- `get_random` of a vector that is not empty, and 0 for an empty one.
pub get_random : ℕ → List ℕ → ℕ
get_random rand a = if length a == 0 then 0 else or_zero (get_elem? a (rand % length a))

pub get_random_seed : ℕ → ChunkStatus → ℕ
unfolding get_random
get_random_seed rand s = get_random rand s.seeds

pub get_random_common : ℕ → ChunkStatus → ℕ
unfolding get_random
get_random_common rand s = get_random rand s.commons

pub get_random_dead_seed : ℕ → ChunkStatus → ℕ
unfolding get_random
get_random_dead_seed rand s = get_random rand s.dead_seeds

pub get_random_dead_common : ℕ → ChunkStatus → ℕ
unfolding get_random
get_random_dead_common rand s = get_random rand s.dead_commons

-- Whether `tk` is among the kbids that were drawn: the loop over `j`.
unfoldable pub drawn : ℕ → List (ℕ × Config) → Bool
drawn tk [] = false
drawn tk ((k, c) ∷ res) = let rest = drawn tk res in if tk == k then true else rest

-- `m_configs[tk]`, which adds an entry where there is none.
unfoldable pub read_config : ℕ → List (ℕ × Config) → Config × List (ℕ × Config)
read_config k m = elim (find k m) [
  | none ↦ (default_config, assign k default_config m)
  | some c ↦ (c, m)
]

-- The kbid that a value of `rand()` stands for.
unfoldable pub kbid_at : ℕ → ChunkStatus → ℕ
kbid_at rand s =
    let n = length s.seeds + length s.commons in
    let tk = rand % n in
    if leb (length s.seeds) tk
    then or_zero (get_elem? s.commons (tk - length s.seeds))
    else or_zero (get_elem? s.seeds tk)

-- The loop that draws until there are three kbids; `none` means that it is still running when the
-- values of `rand()` are used up.
unfoldable pub draw :
    List ℕ → List (ℕ × Config) → ChunkStatus → Option (List (ℕ × Config) × ChunkStatus)
draw [] res s = if length res == 3 then some (res, s) else none
draw (rand ∷ rands) res s =
    let tk = kbid_at rand s in
    let (c, m) = read_config tk s.configs in
    let stay = draw rands res s in
    let more = draw rands (res ++ ((tk, c) ∷ [])) (record s { configs = m }) in
    if length res == 3 then some (res, s) else if drawn tk res then stay else more

-- What `get_random_alive_3` comes to: it returns false, it is still drawing, or it returns true
-- with the entries.
pub data Drawn : Type 0 where
  not_ready : Drawn
  running : Drawn
  ready : List (ℕ × Config) → ChunkStatus → Drawn

unfoldable pub get_random_alive_3 : List ℕ → ChunkStatus → Drawn
unfolding draw
get_random_alive_3 rands s =
    if ltb (length s.seeds + length s.commons) 3
    then not_ready
    else (elim (draw rands [] s) [ none ↦ running | some (res, t) ↦ ready res t ])
