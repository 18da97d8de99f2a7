-- ===== src/Common/LruCache/Spec.antt =====
-- What the cache promises: the entries by recency, each key once, the latest used first.
use kyrin_box.Prelude.{ℕ, Bool, Option, none, some, List, [], ◌∷◌, if◌then◌else◌, take}

module _ {K V : Type 0} (eq : K → K → Bool) where
  unfoldable pub lookup : K → List (K × V) → Option V
  lookup k [] = none
  lookup k ((j, v) ∷ l) = if eq j k then some v else lookup k l

  unfoldable pub remove : K → List (K × V) → List (K × V)
  remove k [] = []
  remove k ((j, v) ∷ l) = if eq j k then l else (j, v) ∷ remove k l

  -- A read of a stored key makes it the latest.
  unfoldable pub read : K → List (K × V) → List (K × V)
  read k l = elim (lookup k l) [ none ↦ l | some v ↦ (k, v) ∷ remove k l ]

  -- A write makes its key the latest; what no longer fits is the oldest entry.
  unfoldable pub write : ℕ → K → V → List (K × V) → List (K × V)
  write capacity k v l = take capacity ((k, v) ∷ remove k l)
