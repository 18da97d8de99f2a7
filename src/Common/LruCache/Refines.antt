-- ===== src/Common/LruCache/Refines.antt =====
-- The cache does what `Spec` says, and never follows an iterator to a node that is gone.
use kyrin_box.Prelude.{
  ℕ, ◌<◌, ◌≡◌, ◌∙◌, sym, ap, ◌↔◌, refl, Bool, true, some, ◌∷◌, Option-cases, inl, inr, arith,
}
use kyrin_box.Common.LruCache.{Node, Cache, unlink, find, get, push_front, set}
use kyrin_box.Common.LruCache.Spec.{lookup, read, write}
use kyrin_box.Common.LruCache.Links.{
  iterators, unlink-Below, unlink-Distinct, node_at-unlink_self, node_at-id, node_at-Below,
}
use kyrin_box.Common.LruCache.Keys.{find-erase, erase-Unique, Linked, find-Linked, find-none}
use kyrin_box.Common.LruCache.Valid.{IsValid, view, take_pos, length-unlink}
use kyrin_box.Common.LruCache.Room.{make_room_lem, push_front-IsValid}

module _ {K V : Type 0} (eq : K → K → Bool) (eq_iff : (a b : K) → (eq a b ≡ true) ↔ (a ≡ b)) where
  -- A node that is unlinked and put back in front leaves the map as it is.
  moved-IsValid :
      (c : Cache K V) (k : K) (it : ℕ) (n : Node K V)
      → IsValid eq c
      → find eq k (iterators c.nodes) ≡ some it
      → Linked eq eq_iff k it c.nodes n
      → IsValid eq (record c { nodes = n ∷ unlink it c.nodes })
  unfolding find
  moved-IsValid c k it n v h l =
      let id : n.id ≡ it = node_at-id it c.nodes n l.at in
      let m = iterators c.nodes in
      record {
        follows = λ j.
            rw (v.follows j, l.rest_iterators)
              (rw (find-erase eq eq_iff j k m v.keys) (ground (arith, id, l.key, h, eq_iff k j)));
        unique = v.unique;
        keys = rw (l.rest_iterators) (
          rw l.key (find-erase eq eq_iff k k m v.keys ∙ ground (arith, eq_iff k k)),
          erase-Unique eq eq_iff k m v.keys,
        );
        distinct = (
          rw id (node_at-unlink_self it c.nodes v.distinct),
          unlink-Distinct it c.nodes v.distinct,
        );
        below = (
          node_at-Below c.next_id it c.nodes n v.below l.at,
          unlink-Below c.next_id it c.nodes v.below,
        );
        size = omega (arith, v.size, length-unlink eq eq_iff k it c.nodes n h l);
        bounded = omega (arith, v.bounded, length-unlink eq eq_iff k it c.nodes n h l);
      }

  -- With a comparison of keys that decides their equality, a lookup in a valid cache never touches
  -- a dead node. It returns what is stored under the key and makes that entry the latest; the
  -- capacity and the invariant stay.
  pub get_lem :
      (c : Cache K V) (key : K)
      → IsValid eq c
      → (d : Cache K V) × (get eq c key ≡ some (d, lookup eq key (view c)))
        × IsValid eq d
        × (view d ≡ read eq key (view c))
        × (d.capacity ≡ c.capacity)
  unfolding get read
  get_lem c key v = elim (Option-cases (find eq key c.index)) [
    | inl miss ↦
        let (absent, _) = find-none eq eq_iff key c.nodes (sym (v.follows key) ∙ miss) in
        (c, rw (miss, get, absent), v, rw (absent, read), refl)
    | inr (it, hit) ↦
        let found = sym (v.follows key) ∙ hit in
        let (n, l) = find-Linked eq eq_iff key it c.nodes v.distinct found in
        (
          record c { nodes = n ∷ unlink it c.nodes },
          rw (hit, get, l.at, l.stored),
          moved-IsValid c key it n v found l,
          rw (l.stored, read) (ground (arith, l.key, l.rest)),
          refl,
        )
  ]

  -- With a comparison of keys that decides their equality, a write into a valid cache of positive
  -- capacity never touches a dead node. It makes the entry the latest, drops the oldest entry if
  -- there is no room for it, and keeps the invariant.
  pub set_lem :
      (c : Cache K V) (key : K) (value : V)
      → IsValid eq c
      → 0 < c.capacity
      → (d : Cache K V) × (set eq c key value ≡ some d)
        × IsValid eq d
        × (view d ≡ write eq c.capacity key value (view c))
        × (d.capacity ≡ c.capacity)
  unfolding set push_front write
  set_lem c key value v pos =
      let (d, made, r) = make_room_lem eq eq_iff c key v pos in
      (
        push_front eq key value d,
        rw (made, set),
        push_front-IsValid eq eq_iff d key value r.valid r.absent r.room,
        ap (◌∷◌ (key, value)) r.kept ∙ sym (take_pos c.capacity (key, value) _ pos),
        r.same,
      )
