-- ===== src/Common/LruCache/Valid.antt =====
-- What holds of a cache between two calls.
use native.Mathlib.Numerals.{sub-one}
use kyrin_box.Prelude.{
  ℕ, zero, suc, ◌+◌, ◌-◌, ◌≤◌, ◌<◌, ◌≡◌, ap, ◌↔◌, refl, Bool, true, some, List, ◌∷◌, length, take,
  arith,
}
use kyrin_box.Common.LruCache.{Node, Cache, init, unlink, find}
use kyrin_box.Common.LruCache.Links.{entries, iterators, Distinct, Below, length-iterators}
use kyrin_box.Common.LruCache.Keys.{Unique, length-erase, Linked}

-- The map and the list agree, no key and no node is held twice, and the capacity is kept.
pub record IsValid {K V : Type 0} (eq : K → K → Bool) (c : Cache K V) : Type 0 where
  pub follows : (k : K) → find eq k c.index ≡ find eq k (iterators c.nodes)
  pub unique : Unique eq c.index
  pub keys : Unique eq (iterators c.nodes)
  pub distinct : Distinct c.nodes
  pub below : Below c.next_id c.nodes
  pub size : length c.index ≡ length c.nodes
  pub bounded : length c.nodes ≤ c.capacity

abbrev pub view : {K V : Type 0} → Cache K V → List (K × V)
view c = entries c.nodes

pub init-IsValid :
    {K V : Type 0} (eq : K → K → Bool) (capacity : ℕ) → IsValid {V = V} eq (init capacity)
unfolding init find
init-IsValid eq capacity = record {
  follows = λ k. refl;
  unique = tt;
  keys = tt;
  distinct = tt;
  below = tt;
  size = refl;
  bounded = omega arith;
}

pub take_pos :
    {A : Type 0} (n : ℕ) (x : A) (xs : List A) → 0 < n → take n (x ∷ xs) ≡ x ∷ take (n - 1) xs
take_pos zero x xs h = elim h [ ]
take_pos (suc n) x xs h = rw (sub-one (suc n))

module _ {K V : Type 0} (eq : K → K → Bool) (eq_iff : (a b : K) → (eq a b ≡ true) ↔ (a ≡ b)) where
  pub length-unlink :
      (k : K) (it : ℕ) (l : List (Node K V)) (n : Node K V)
      → find eq k (iterators l) ≡ some it
      → Linked eq eq_iff k it l n
      → length (unlink it l) + 1 ≡ length l
  length-unlink k it l n h r = omega (
    arith,
    length-iterators l,
    length-iterators (unlink it l),
    length-erase eq eq_iff k (iterators l) it h,
    ap (λ (m : List (K × ℕ)). length m) r.rest_iterators,
  )
