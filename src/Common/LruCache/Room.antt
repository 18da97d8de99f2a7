-- ===== src/Common/LruCache/Room.antt =====
-- What a write does before the entry is pushed, and the push.
use kyrin_box.Prelude.{
  ℕ, ◌+◌, ◌-◌, ◌<◌, ◌≡◌, ◌∙◌, sym, ◌↔◌, refl, Bool, true, none, some, ◌==◌, length, take,
  Bool-cases, Option-cases, inl, inr, arith, take_of_length-le,
}
use kyrin_box.Common.LruCache.{
  Node, Cache, unlink, last?, pop_back, find, erase, push_front, make_room,
}
use kyrin_box.Common.LruCache.Spec.{remove}
use kyrin_box.Common.LruCache.Links.{
  iterators, Below-node_at, length-entries, Below-mono, unlink-Below, unlink-Distinct, last?_total,
  length-pop_back, entries-pop_back, pop_back-Below, pop_back-Distinct,
}
use kyrin_box.Common.LruCache.Keys.{
  find-erase, erase-Unique, length-erase, find-assign, assign-Unique, length-assign, Linked,
  find-Linked, find-none, find-last?, find-pop_back, pop_back-Unique,
}
use kyrin_box.Common.LruCache.Valid.{IsValid, view, length-unlink}

module _ {K V : Type 0} (eq : K → K → Bool) (eq_iff : (a b : K) → (eq a b ≡ true) ↔ (a ≡ b)) where
  -- Room for one more entry, under a key that is not stored.
  pub record HasRoom (c d : Cache K V) (key : K) : Type 0 where
    pub valid : IsValid eq d
    pub absent : find eq key d.index ≡ none
    pub room : length d.nodes < d.capacity
    pub same : d.capacity ≡ c.capacity
    pub kept : view d ≡ take (c.capacity - 1) (remove eq key (view c))

  -- The old entry of the key goes.
  room_hit :
      (c : Cache K V) (k : K) (it : ℕ) (n : Node K V)
      → IsValid eq c
      → find eq k (iterators c.nodes) ≡ some it
      → Linked eq eq_iff k it c.nodes n
      → HasRoom c (record c { nodes = unlink it c.nodes; index = erase eq k c.index }) k
  room_hit c k it n v h l =
      let m = iterators c.nodes in
      let shorter = length-unlink eq eq_iff k it c.nodes n h l in
      record {
        valid = record {
          follows = λ j. rw (
            l.rest_iterators,
            find-erase eq eq_iff j k m v.keys,
            find-erase eq eq_iff j k c.index v.unique,
            v.follows j,
          );
          unique = erase-Unique eq eq_iff k c.index v.unique;
          keys = rw l.rest_iterators (erase-Unique eq eq_iff k m v.keys);
          distinct = unlink-Distinct it c.nodes v.distinct;
          below = unlink-Below c.next_id it c.nodes v.below;
          size =
              omega (arith, shorter, v.size, length-erase eq eq_iff k c.index it (v.follows k ∙ h));
          bounded = omega (arith, shorter, v.bounded);
        };
        absent = rw (find-erase eq eq_iff k k c.index v.unique) (ground (arith, eq_iff k k));
        room = omega (arith, shorter, v.bounded);
        same = refl;
        kept =
            l.rest
            ∙ sym (
                take_of_length-le (c.capacity - 1) (remove eq k (view c)) (
                  rw (← l.rest, length-entries (unlink it c.nodes))
                    (omega (arith, shorter, v.bounded))));
      }

  -- The cache is full: the last entry goes.
  room_full :
      (c : Cache K V) (k : K) (n : Node K V)
      → IsValid eq c
      → find eq k (iterators c.nodes) ≡ none
      → 0 < c.capacity
      → length c.nodes ≡ c.capacity
      → last? c.nodes ≡ some n
      → HasRoom c (record c { index = erase eq n.key c.index; nodes = pop_back c.nodes }) k
  room_full c k n v h pos full last =
      let m = iterators c.nodes in
      let (it, found) = find-last? eq eq_iff c.nodes n last in
      let shorter = length-pop_back c.nodes in
      record {
        valid = record {
          follows = λ j. rw (
            find-erase eq eq_iff j n.key c.index v.unique,
            find-pop_back eq eq_iff j c.nodes n v.keys last,
            v.follows j,
          );
          unique = erase-Unique eq eq_iff n.key c.index v.unique;
          keys = pop_back-Unique eq eq_iff c.nodes v.keys;
          distinct = pop_back-Distinct c.nodes v.distinct;
          below = pop_back-Below c.next_id c.nodes v.below;
          size = omega (
            arith,
            shorter,
            v.size,
            length-erase eq eq_iff n.key c.index it (v.follows n.key ∙ found),
          );
          bounded = omega (arith, shorter, v.bounded);
        };
        absent = rw (find-erase eq eq_iff k n.key c.index v.unique, v.follows k, h) (ground arith);
        room = omega (arith, shorter);
        same = refl;
        kept =
            rw ((find-none eq eq_iff k c.nodes h).1)
              (entries-pop_back (c.capacity - 1) c.nodes (omega arith));
      }

  pub make_room_lem :
      (c : Cache K V) (key : K)
      → IsValid eq c
      → 0 < c.capacity
      → (d : Cache K V) × (make_room eq c key ≡ some d) × HasRoom c d key
  unfolding make_room
  make_room_lem c key v pos = elim (Option-cases (find eq key c.index)) [
    | inr (it, hit) ↦
        let found = sym (v.follows key) ∙ hit in
        let (n, l) = find-Linked eq eq_iff key it c.nodes v.distinct found in
        (
          record c { nodes = unlink it c.nodes; index = erase eq key c.index },
          rw (hit, make_room, l.at),
          room_hit c key it n v found l,
        )
    | inl miss ↦
        let absent = sym (v.follows key) ∙ miss in
        elim (Bool-cases (length c.index == c.capacity)) [
          | inl full ↦
              let size : length c.nodes ≡ c.capacity = ground (arith, full, v.size) in
              let (n, last) = last?_total c.nodes (omega arith) in
              (
                record c { index = erase eq n.key c.index; nodes = pop_back c.nodes },
                rw (miss, make_room, full, last),
                room_full c key n v absent pos size last,
              )
          | inr free ↦ (
            c,
            rw (miss, make_room, free),
            record {
              valid = v;
              absent = miss;
              room = ground (arith, free, v.size, v.bounded);
              same = refl;
              kept = rw ((find-none eq eq_iff key c.nodes absent).1) (
                  sym (
                    take_of_length-le _ _
                      (rw (length-entries c.nodes) (ground (arith, free, v.size, v.bounded)))));
            },
          )
        ]
  ]

  pub push_front-IsValid :
      (c : Cache K V) (key : K) (value : V)
      → IsValid eq c
      → find eq key c.index ≡ none
      → length c.nodes < c.capacity
      → IsValid eq (push_front eq key value c)
  unfolding push_front find
  push_front-IsValid c key value v absent room = record {
    follows = λ j. rw (find-assign eq eq_iff j key c.next_id c.index, v.follows j);
    unique = assign-Unique eq eq_iff key c.next_id c.index v.unique;
    keys = (sym (v.follows key) ∙ absent, v.keys);
    distinct = (Below-node_at c.next_id c.next_id c.nodes v.below (omega arith), v.distinct);
    below = (omega arith, Below-mono c.next_id (c.next_id + 1) c.nodes (omega arith) v.below);
    size = omega (arith, v.size, length-assign eq eq_iff key c.next_id c.index absent);
    bounded = room;
  }
