-- ===== src/Common/LruCache/Tests.antt =====
-- The cache's theorems on a full cache of two entries.
use kyrin_box.Prelude.{ℕ, ◌≡◌, refl, some, [], ◌∷◌, ◌==◌, ==_iff, arith}
use kyrin_box.Common.LruCache.{Cache, get, set, find, node_at}
use kyrin_box.Common.LruCache.Spec.{lookup, read, write, remove}
use kyrin_box.Common.LruCache.Valid.{IsValid, view}
use kyrin_box.Common.LruCache.Refines.{get_lem, set_lem}

abbrev full : Cache ℕ ℕ
full = record {
  capacity = 2;
  index = (5, 1) ∷ ((4, 0) ∷ []);
  nodes = record { id = 1; key = 5; value = 50 } ∷ (record { id = 0; key = 4; value = 40 } ∷ []);
  next_id = 2;
}

full-IsValid : IsValid (◌==◌) full
unfolding find node_at
full-IsValid = record {
  follows = λ k. refl;
  unique = (refl, (refl, tt));
  keys = (refl, (refl, tt));
  distinct = (refl, (refl, tt));
  below = omega arith;
  size = refl;
  bounded = omega arith;
}

get_lem_example :
    (d : Cache ℕ ℕ) × (get (◌==◌) full 4 ≡ some (d, lookup (◌==◌) 4 (view full)))
    × IsValid (◌==◌) d
    × (view d ≡ read (◌==◌) 4 (view full))
    × (d.capacity ≡ 2)
get_lem_example = get_lem (◌==◌) ==_iff full 4 full-IsValid

set_lem_example :
    (d : Cache ℕ ℕ) × (set (◌==◌) full 6 60 ≡ some d)
    × IsValid (◌==◌) d
    × (view d ≡ write (◌==◌) 2 6 60 (view full))
    × (d.capacity ≡ 2)
set_lem_example = set_lem (◌==◌) ==_iff full 6 60 full-IsValid (omega arith)

-- The spec on these entries: the oldest one is dropped.
drops : write (◌==◌) 2 6 60 (view full) ≡ (6, 60) ∷ ((5, 50) ∷ [])
unfolding write remove
drops = refl
