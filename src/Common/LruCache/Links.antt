-- ===== src/Common/LruCache/Links.antt =====
-- The list of nodes, seen through the iterators of the map.
use kyrin_box.Prelude.{
  ℕ, zero, suc, ◌-◌, ◌≤◌, ◌<◌, ◌≡◌, refl, ap, none, some, List, [], ◌∷◌, map, length, take, arith,
}
use kyrin_box.Common.LruCache.{Node, node_at, unlink, last?, pop_back}

module _ {K V : Type 0} where
  -- The nodes as entries, and as pairs of a key and an iterator.
  abbrev pub entries : List (Node K V) → List (K × V)
  entries = map (λ n. (n.key, n.value))

  abbrev pub iterators : List (Node K V) → List (K × ℕ)
  iterators = map (λ n. (n.key, n.id))

  -- No two nodes share an identity.
  abbrev pub Distinct : List (Node K V) → Type 0
  Distinct [] = Unit {0}
  Distinct (n ∷ l) = (node_at n.id l ≡ none) × Distinct l

  -- Identities are below the next one.
  abbrev pub Below : ℕ → List (Node K V) → Type 0
  Below b [] = Unit {0}
  Below b (n ∷ l) = (n.id < b) × Below b l

  pub Below-node_at : (b it : ℕ) (l : List (Node K V)) → Below b l → b ≤ it → node_at it l ≡ none
  unfolding node_at
  Below-node_at b it [] h k = refl
  Below-node_at b it (n ∷ l) h k = ground (arith, Below-node_at b it l h.1)

  pub Below-mono : (b c : ℕ) (l : List (Node K V)) → b ≤ c → Below b l → Below c l
  Below-mono b c [] k h = tt
  Below-mono b c (n ∷ l) k h = (omega arith, Below-mono b c l k h.1)

  pub unlink-Below : (b it : ℕ) (l : List (Node K V)) → Below b l → Below b (unlink it l)
  unfolding unlink
  unlink-Below b it [] h = tt
  unlink-Below b it (n ∷ l) h = ground (arith, unlink-Below b it l h.1)

  pub node_at-unlink-none :
      (it j : ℕ) (l : List (Node K V)) → node_at j l ≡ none → node_at j (unlink it l) ≡ none
  unfolding node_at unlink
  node_at-unlink-none it j [] h = refl
  node_at-unlink-none it j (n ∷ l) h = ground (arith, node_at-unlink-none it j l)

  pub unlink-Distinct : (it : ℕ) (l : List (Node K V)) → Distinct l → Distinct (unlink it l)
  unfolding unlink
  unlink-Distinct it [] h = tt
  unlink-Distinct it (n ∷ l) h =
      ground (arith, unlink-Distinct it l h.1, node_at-unlink-none it n.id l h.0)

  pub node_at-unlink_self :
      (it : ℕ) (l : List (Node K V)) → Distinct l → node_at it (unlink it l) ≡ none
  unfolding node_at unlink
  node_at-unlink_self it [] h = refl
  node_at-unlink_self it (n ∷ l) h = ground (arith, node_at-unlink_self it l h.1)

  pub node_at-id : (it : ℕ) (l : List (Node K V)) (n : Node K V) → node_at it l ≡ some n → n.id ≡ it
  unfolding node_at
  node_at-id it [] n h = cc
  node_at-id it (m ∷ l) n h = ground (arith, node_at-id it l n)

  pub node_at-Below :
      (b it : ℕ) (l : List (Node K V)) (n : Node K V) → Below b l → node_at it l ≡ some n → n.id < b
  unfolding node_at
  node_at-Below b it [] n h e = cc
  node_at-Below b it (m ∷ l) n h e = ground (arith, node_at-Below b it l n h.1)

  pub length-entries : (l : List (Node K V)) → length (entries l) ≡ length l
  length-entries [] = refl
  length-entries (n ∷ l) = ap suc (length-entries l)

  pub length-iterators : (l : List (Node K V)) → length (iterators l) ≡ length l
  length-iterators [] = refl
  length-iterators (n ∷ l) = ap suc (length-iterators l)

  -- The last node of a list that is not empty, and the list without it.
  pub last?_total : (l : List (Node K V)) → 0 < length l → (n : Node K V) × (last? l ≡ some n)
  unfolding last?
  last?_total [] h = elim h [ ]
  last?_total (n ∷ []) h = (n, refl)
  last?_total (n ∷ m ∷ l) h = last?_total (m ∷ l) (omega arith)

  pub length-pop_back : (l : List (Node K V)) → length (pop_back l) ≡ length l - 1
  unfolding pop_back
  length-pop_back [] = refl
  length-pop_back (n ∷ []) = refl
  length-pop_back (n ∷ m ∷ l) = omega (arith, length-pop_back (m ∷ l))

  pub entries-pop_back :
      (k : ℕ) (l : List (Node K V)) → length l ≡ suc k → entries (pop_back l) ≡ take k (entries l)
  unfolding pop_back
  entries-pop_back k [] h = absurd (omega arith)
  entries-pop_back zero (n ∷ []) h = refl
  entries-pop_back (suc k) (n ∷ []) h = absurd (omega arith)
  entries-pop_back zero (n ∷ m ∷ l) h = absurd (omega arith)
  entries-pop_back (suc k) (n ∷ m ∷ l) h = rw (entries-pop_back k (m ∷ l) (omega arith))

  pub pop_back-Below : (b : ℕ) (l : List (Node K V)) → Below b l → Below b (pop_back l)
  unfolding pop_back
  pop_back-Below b [] h = tt
  pop_back-Below b (n ∷ []) h = tt
  pop_back-Below b (n ∷ m ∷ l) h = (h.0, pop_back-Below b (m ∷ l) h.1)

  node_at-pop_back :
      (j : ℕ) (l : List (Node K V)) → node_at j l ≡ none → node_at j (pop_back l) ≡ none
  unfolding node_at pop_back
  node_at-pop_back j [] h = refl
  node_at-pop_back j (n ∷ []) h = refl
  node_at-pop_back j (n ∷ m ∷ l) h = ground (arith, node_at-pop_back j (m ∷ l))

  pub pop_back-Distinct : (l : List (Node K V)) → Distinct l → Distinct (pop_back l)
  unfolding pop_back
  pop_back-Distinct [] h = tt
  pop_back-Distinct (n ∷ []) h = tt
  pop_back-Distinct (n ∷ m ∷ l) h =
      (node_at-pop_back n.id (m ∷ l) h.0, pop_back-Distinct (m ∷ l) h.1)
