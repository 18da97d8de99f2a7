-- ===== src/Chunk/Status/Members.antt =====
-- Who is a member: no operation loses a chunk server or lists one twice.
use kyrin_box.Prelude.{
  ℕ, zero, suc, ◌+◌, ◌≤◌, ◌≡◌, ◌∙◌, refl, inl, inr, true, false, none, some, List, [], ◌∷◌, ◌++◌,
  ◌==◌, if◌then◌else◌, Bool-cases, Option-cases, arith, ℤ,
}
use kyrin_box.Chunk.Status.{
  Config, ChunkStatus, GossipData, find, assign, check_commons, get_config, erase_first, set_item,
  set_dead, set_alive,
}

-- How often a kbid stands in a list, and in the four lists.
unfoldable pub occurs : ℕ → List ℕ → ℕ
occurs k [] = 0
occurs k (x ∷ a) = (if k == x then 1 else 0) + occurs k a

abbrev pub listed : ℕ → ChunkStatus → ℕ
listed k s =
    occurs k s.seeds + occurs k s.commons + (occurs k s.dead_seeds + occurs k s.dead_commons)

abbrev pub Known : ℕ → List (ℕ × Config) → Type 0
Known k m = (c : Config) × (find k m ≡ some c)

-- A server is listed once at most, and only with an entry in the map.
pub record IsValid (s : ChunkStatus) : Type 0 where
  pub once : (k : ℕ) → listed k s ≤ 1
  pub known : (k : ℕ) → 1 ≤ listed k s → Known k s.configs

pub occurs-append : (k : ℕ) (a b : List ℕ) → occurs k (a ++ b) ≡ occurs k a + occurs k b
unfolding occurs
occurs-append k [] b = omega arith
occurs-append k (x ∷ a) b = omega (arith, occurs-append k a b)

occurs-erase_first :
    (k j : ℕ) (a r : List ℕ)
    → erase_first k a ≡ some r
    → occurs j a ≡ occurs j r + (if j == k then 1 else 0)
unfolding occurs erase_first
occurs-erase_first k j [] r h = cc
occurs-erase_first k j (x ∷ a) r h = elim (Option-cases (erase_first k a)) [
  | inl absent ↦ ground arith
  | inr (q, e) ↦ ground (arith, occurs-erase_first k j a q e)
]

-- A server that is moved is moved from one list to the other, and stays in none of them twice.
pub set_item-occurs :
    (a b : List ℕ) (k j : ℕ)
    → let (a', b') = set_item a b k in occurs j a' + occurs j b' ≡ occurs j a + occurs j b
unfolding set_item occurs
set_item-occurs a b k j = elim (Option-cases (erase_first k a)) [
  | inl absent ↦ rw (absent, set_item) refl
  | inr (r, e) ↦
      rw (e, set_item, occurs-append j b (k ∷ [])) (ground (arith, occurs-erase_first k j a r e))
]

-- Whatever the kbid and the flag are, a change of state neither adds nor drops a server.
pub set_dead-listed :
    (kbid : ℕ) (flag : ℤ) (now j : ℕ) (s : ChunkStatus)
    → (listed j (set_dead kbid flag now s) ≡ listed j s)
      × (listed j (set_alive kbid flag now s) ≡ listed j s)
unfolding set_dead set_alive
set_dead-listed kbid flag now j s = (
  ground (
    arith,
    set_item-occurs s.seeds s.dead_seeds kbid j,
    set_item-occurs s.commons s.dead_commons kbid j,
  ),
  ground (
    arith,
    set_item-occurs s.dead_seeds s.seeds kbid j,
    set_item-occurs s.dead_commons s.commons kbid j,
  ),
)

find-assign :
    (k j : ℕ) (c : Config) (m : List (ℕ × Config))
    → find j (assign k c m) ≡ (if k == j then some c else find j m)
unfolding find assign
find-assign k j c [] = refl
find-assign k j c ((i, d) ∷ m) = ground (arith, find-assign k j c m)

Known-kept : (k j : ℕ) (c : Config) (m : List (ℕ × Config)) → Known j m → Known j (assign k c m)
Known-kept k j c m (d, e) =
    rw (find-assign k j c m)
      (elim (Bool-cases (k == j)) [ inl same ↦ rw same (c, refl) | inr other ↦ rw other (d, e) ])

-- Marking a server dead or alive, whoever it is and whatever the flag says, keeps the lists
-- valid: each server is listed once at most, and only with an entry in the map.
pub set_dead-IsValid :
    (kbid : ℕ) (flag : ℤ) (now : ℕ) (s : ChunkStatus)
    → IsValid s
    → IsValid (set_dead kbid flag now s) × IsValid (set_alive kbid flag now s)
set_dead-IsValid kbid flag now s v = (
  record {
    once = λ k. omega (arith, v.once k, (set_dead-listed kbid flag now k s).0);
    known =
        λ k h. rw (same_dead) (v.known k (omega (arith, (set_dead-listed kbid flag now k s).0)));
  },
  record {
    once = λ k. omega (arith, v.once k, (set_dead-listed kbid flag now k s).1);
    known =
        λ k h. rw (same_alive) (v.known k (omega (arith, (set_dead-listed kbid flag now k s).1)));
  },
)
  where
    same_dead : (set_dead kbid flag now s).configs ≡ s.configs
    same_dead = unfold set_dead in ground arith

    same_alive : (set_alive kbid flag now s).configs ≡ s.configs
    same_alive = unfold set_alive in ground arith

-- A hello keeps the lists valid: each server is listed once at most, and only with an entry in
-- the map.
pub check_commons-IsValid :
    (d : GossipData) (now : ℕ) (s : ChunkStatus) → IsValid s → IsValid (check_commons d now s).0
unfolding check_commons occurs
check_commons-IsValid d now s v = elim (Option-cases (find d.kbid s.configs)) [
  | inr (c, known) ↦ rw (known, check_commons) v
  | inl new ↦
      let absent : listed d.kbid s ≡ 0 = unlisted (listed d.kbid s) refl new in
      rw (new, check_commons)
        (record {
          once = λ k. ground (arith, v.once k, occurs-append k s.commons (d.kbid ∷ []), absent);
          known = λ k h.
              rw (find-assign d.kbid k d.config s.configs) (elim (Bool-cases (d.kbid == k)) [
                | inl same ↦ rw same (d.config, refl)
                | inr other ↦
                    rw other
                      (v.known k (ground (arith, h, occurs-append k s.commons (d.kbid ∷ []))))
              ]);
        })
]
  where
    unlisted : (n : ℕ) → listed d.kbid s ≡ n → find d.kbid s.configs ≡ none → n ≡ 0
    unlisted zero e new = refl
    unlisted (suc n) e new = let (c, k) = v.known d.kbid (omega arith) in absurd (ground arith)

-- After a hello the map has an entry for the server: what the hello says if it was not known, and
-- what was known if it was. The entries of the others stay, and saying hello again changes nothing.
pub check_commons_lem :
    (d : GossipData) (now later j : ℕ) (s : ChunkStatus)
    → let t = (check_commons d now s).0 in
      (get_config j t ≡ (
        if d.kbid == j
        then (elim (get_config j s) [ none ↦ some d.config | some c ↦ some c ])
        else get_config j s))
      × (check_commons d later t ≡ (t, false))
unfolding check_commons get_config
check_commons_lem d now later j s = elim (Option-cases (find d.kbid s.configs)) [
  | inr (c, known) ↦
      let kept : check_commons d now s ≡ (s, false) = rw (known, check_commons) in
      rw kept (ground (arith, known), rw (known, check_commons))
  | inl new ↦
      let t : ChunkStatus = record s {
        commons = s.commons ++ (d.kbid ∷ []);
        configs = assign d.kbid d.config s.configs;
        timestamp = now;
      } in
      let taken : check_commons d now s ≡ (t, true) = rw (new, check_commons) in
      let now_known : find d.kbid t.configs ≡ some d.config =
        find-assign d.kbid d.kbid d.config s.configs ∙ ground arith in
      rw taken (
        ground (arith, new, find-assign d.kbid j d.config s.configs),
        rw (now_known, check_commons),
      )
]
