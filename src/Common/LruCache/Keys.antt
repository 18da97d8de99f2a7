-- ===== src/Common/LruCache/Keys.antt =====
-- The map of the cache, and how it follows the list of nodes.
use kyrin_box.Prelude.{
  ℕ, ◌+◌, ◌≡◌, ◌↔◌, refl, Bool, true, none, some, List, [], ◌∷◌, if◌then◌else◌, length, Bool-cases,
  inl, inr, arith,
}
use kyrin_box.Common.LruCache.{Node, node_at, unlink, last?, pop_back, find, erase, assign}
use kyrin_box.Common.LruCache.Spec.{lookup, remove}
use kyrin_box.Common.LruCache.Links.{entries, iterators, Distinct, last?_total}

module _ {K : Type 0} (eq : K → K → Bool) where
  -- No two pairs of the map share a key.
  abbrev pub Unique : List (K × ℕ) → Type 0
  Unique [] = Unit {0}
  Unique (p ∷ m) = (find eq p.0 m ≡ none) × Unique m

module _ {K : Type 0} (eq : K → K → Bool) (eq_iff : (a b : K) → (eq a b ≡ true) ↔ (a ≡ b)) where
  pub find-erase :
      (j k : K) (m : List (K × ℕ))
      → Unique eq m
      → find eq j (erase eq k m) ≡ (if eq k j then none else find eq j m)
  unfolding find erase
  find-erase j k [] u = ground arith
  find-erase j k ((i, it) ∷ m) u =
      ground (arith, find-erase j k m u.1, eq_iff i j, eq_iff i k, eq_iff k j)

  pub erase-Unique : (k : K) (m : List (K × ℕ)) → Unique eq m → Unique eq (erase eq k m)
  unfolding erase
  erase-Unique k [] u = tt
  erase-Unique k ((i, it) ∷ m) u = ground (arith, find-erase i k m u.1, erase-Unique k m u.1)

  pub length-erase :
      (k : K) (m : List (K × ℕ)) (it : ℕ)
      → find eq k m ≡ some it
      → length (erase eq k m) + 1 ≡ length m
  unfolding find erase
  length-erase k [] it h = cc
  length-erase k ((i, x) ∷ m) it h = ground (arith, length-erase k m it)

  pub find-assign :
      (j k : K) (it : ℕ) (m : List (K × ℕ))
      → find eq j (assign eq k it m) ≡ (if eq k j then some it else find eq j m)
  unfolding find assign
  find-assign j k it [] = refl
  find-assign j k it ((i, x) ∷ m) =
      ground (arith, find-assign j k it m, eq_iff i j, eq_iff i k, eq_iff k j)

  pub assign-Unique :
      (k : K) (it : ℕ) (m : List (K × ℕ)) → Unique eq m → Unique eq (assign eq k it m)
  unfolding assign find
  assign-Unique k it [] u = (refl, tt)
  assign-Unique k it ((i, x) ∷ m) u =
      ground (arith, find-assign i k it m, assign-Unique k it m u.1, eq_iff i k, eq_iff k i)

  pub length-assign :
      (k : K) (it : ℕ) (m : List (K × ℕ))
      → find eq k m ≡ none
      → length (assign eq k it m) ≡ length m + 1
  unfolding find assign
  length-assign k it [] h = refl
  length-assign k it ((i, x) ∷ m) h = ground (arith, length-assign k it m)

module _ {K V : Type 0} (eq : K → K → Bool) (eq_iff : (a b : K) → (eq a b ≡ true) ↔ (a ≡ b)) where
  -- The node of a stored key, and the list without it.
  pub record Linked (k : K) (it : ℕ) (l : List (Node K V)) (n : Node K V) : Type 0 where
    pub at : node_at it l ≡ some n
    pub key : n.key ≡ k
    pub stored : lookup eq k (entries l) ≡ some n.value
    pub rest : entries (unlink it l) ≡ remove eq k (entries l)
    pub rest_iterators : iterators (unlink it l) ≡ erase eq k (iterators l)

  pub find-Linked :
      (k : K) (it : ℕ) (l : List (Node K V))
      → Distinct l
      → find eq k (iterators l) ≡ some it
      → (n : Node K V) × Linked k it l n
  unfolding find erase node_at unlink lookup remove
  find-Linked k it [] d h = cc
  find-Linked k it (m ∷ l) d h = elim (Bool-cases (eq m.key k)) [
    | inl hit ↦ (m, ground (arith, eq_iff m.key k))
    | inr miss ↦
        let (n, linked) = find-Linked k it l d.1 (ground arith) in (n, ground (arith, linked, d.0))
  ]

  pub find-none :
      (k : K) (l : List (Node K V))
      → find eq k (iterators l) ≡ none
      → (lookup eq k (entries l) ≡ none) × (remove eq k (entries l) ≡ entries l)
  unfolding find lookup remove
  find-none k [] h = (refl, refl)
  find-none k (m ∷ l) h = ground (arith, find-none k l)

  pub find-last? :
      (l : List (Node K V)) (n : Node K V)
      → last? l ≡ some n
      → (it : ℕ) × (find eq n.key (iterators l) ≡ some it)
  unfolding find last?
  find-last? [] n h = cc
  find-last? (m ∷ []) n h = (m.id, ground (arith, eq_iff m.key n.key))
  find-last? (m ∷ o ∷ l) n h = elim (Bool-cases (eq m.key n.key)) [
    | inl hit ↦ (m.id, rw hit)
    | inr miss ↦ rw miss (find-last? (o ∷ l) n h)
  ]

  pub find-pop_back :
      (j : K) (l : List (Node K V)) (n : Node K V)
      → Unique eq (iterators l)
      → last? l ≡ some n
      → find eq j (iterators (pop_back l)) ≡ (if eq n.key j then none else find eq j (iterators l))
  unfolding find last? pop_back
  find-pop_back j [] n u h = cc
  find-pop_back j (m ∷ []) n u h = ground arith
  find-pop_back j (m ∷ o ∷ l) n u h =
      let (it, found) = find-last? (o ∷ l) n h in
      ground (arith, find-pop_back j (o ∷ l) n u.1 h, found, u.0, eq_iff m.key j, eq_iff n.key j)

  pub pop_back-Unique :
      (l : List (Node K V)) → Unique eq (iterators l) → Unique eq (iterators (pop_back l))
  unfolding pop_back
  pop_back-Unique [] u = tt
  pop_back-Unique (m ∷ []) u = tt
  pop_back-Unique (m ∷ o ∷ l) u =
      let (n, e) = last?_total (o ∷ l) (omega arith) in
      (rw (find-pop_back m.key (o ∷ l) n u.1 e, u.0) (ground arith), pop_back-Unique (o ∷ l) u.1)
