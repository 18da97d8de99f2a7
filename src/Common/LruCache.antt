-- ===== src/Common/LruCache.antt =====
-- common/kyrin_lru_cache.h: a list of entries, the latest used first, and a map from the keys to
-- the list's iterators. The lock is held for the whole of each call.
pub mod Spec
pub mod Links
pub mod Keys
pub mod Valid
pub mod Room
pub mod Refines
mod Tests
use kyrin_box.Prelude.{
  ℕ, zero, suc, ◌+◌, Bool, Option, none, some, List, [], ◌∷◌, ◌==◌, if◌then◌else◌, length,
}

-- A node of `m_data`. A list iterator is the identity of its node, which no move changes.
pub record Node (K V : Type 0) : Type 0 where
  pub id : ℕ
  pub key : K
  pub value : V

-- `m_capacity`, `m_map` and `m_data`; `next_id` is the identity of the next node.
pub record Cache (K V : Type 0) : Type 0 where
  pub capacity : ℕ
  pub index : List (K × ℕ)
  pub nodes : List (Node K V)
  pub next_id : ℕ

-- The constructor.
unfoldable pub init : {K V : Type 0} → ℕ → Cache K V
init capacity = record { capacity = capacity; index = []; nodes = []; next_id = 0 }

module _ {K V : Type 0} where
  -- The node that an iterator points to; `none` is an iterator to a node that is gone.
  pub node_at : ℕ → List (Node K V) → Option (Node K V)
  node_at it [] = none
  node_at it (n ∷ l) = if n.id == it then some n else node_at it l

  -- `m_data.erase(it)`
  pub unlink : ℕ → List (Node K V) → List (Node K V)
  unlink it [] = []
  unlink it (n ∷ l) = if n.id == it then l else n ∷ unlink it l

  pub last? : List (Node K V) → Option (Node K V)
  last? [] = none
  last? (n ∷ []) = some n
  last? (n ∷ m ∷ l) = last? (m ∷ l)

  pub pop_back : List (Node K V) → List (Node K V)
  pop_back [] = []
  pop_back (n ∷ []) = []
  pop_back (n ∷ m ∷ l) = n ∷ pop_back (m ∷ l)

module _ {K : Type 0} (eq : K → K → Bool) where
  -- `m_map.find(key)`, `m_map.erase(key)` and `m_map[key] = it`
  unfoldable pub find : K → List (K × ℕ) → Option ℕ
  find k [] = none
  find k ((j, it) ∷ m) = if eq j k then some it else find k m

  pub erase : K → List (K × ℕ) → List (K × ℕ)
  erase k [] = []
  erase k ((j, it) ∷ m) = if eq j k then m else (j, it) ∷ erase k m

  pub assign : K → ℕ → List (K × ℕ) → List (K × ℕ)
  assign k it [] = (k, it) ∷ []
  assign k it ((j, old) ∷ m) = if eq j k then (j, it) ∷ m else (j, old) ∷ assign k it m

module _ {K V : Type 0} (eq : K → K → Bool) where
  -- The outer `none` is undefined behaviour: an iterator to a node that is gone.
  unfoldable pub get : Cache K V → K → Option (Cache K V × Option V)
  get c key = elim (find eq key c.index) [
    | none ↦ some (c, none)
    | some it ↦ elim (node_at it c.nodes) [
      | none ↦ none
      | some n ↦ some (record c { nodes = n ∷ unlink it c.nodes }, some n.value)
    ]
  ]

  -- `m_data.push_front(…); m_map[key] = m_data.begin();`
  pub push_front : K → V → Cache K V → Cache K V
  push_front key value c = record c {
    index = assign eq key c.next_id c.index;
    nodes = record { id = c.next_id; key = key; value = value } ∷ c.nodes;
    next_id = c.next_id + 1;
  }

  -- What `set` does before the entry is pushed: the old entry goes, or the last one of a full
  -- cache. `none` is undefined behaviour: an iterator to a node that is gone, or `last--` at the
  -- beginning of an empty list.
  pub make_room : Cache K V → K → Option (Cache K V)
  make_room c key = elim (find eq key c.index) [
    | some it ↦ elim (node_at it c.nodes) [
      | none ↦ none
      | some n ↦ some (record c { nodes = unlink it c.nodes; index = erase eq key c.index })
    ]
    | none ↦
        let evicted : Option (Cache K V) = elim (last? c.nodes) [
          | none ↦ none
          | some n ↦ some (record c { index = erase eq n.key c.index; nodes = pop_back c.nodes })
        ] in
        if length c.index == c.capacity then evicted else some c
  ]

  pub set : Cache K V → K → V → Option (Cache K V)
  unfolding make_room push_front
  set c key value = elim (make_room c key) [ none ↦ none | some d ↦ some (push_front key value d) ]
