-- ===== src/Chunk/Status/Draws.antt =====
-- The three servers that an upload is given.
use kyrin_box.Prelude.{
  ℕ, zero, suc, ◌+◌, ◌-◌, ◌%◌, ◌≤◌, ◌<◌, ◌≡◌, ◌≢◌, ◌↔◌, refl, false, Option, some, List, [], ◌∷◌,
  ◌++◌, ◌==◌, leb, ltb, length, get_elem?, or_zero, All, Bool-cases, Option-cases, arith, inl, inr,
}
use kyrin_box.Chunk.Status.{Config, ChunkStatus}
use kyrin_box.Chunk.Status.Random.{
  drawn, read_config, kbid_at, draw, not_ready, ready, get_random_alive_3,
}
use kyrin_box.Chunk.Status.Members.{occurs}

-- No kbid was drawn twice.
abbrev pub Distinct : List (ℕ × Config) → Type 0
Distinct [] = Unit {0}
Distinct ((k, c) ∷ res) = (drawn k res ≡ false) × Distinct res

-- Every kbid is that of a living server.
abbrev pub Living : ChunkStatus → List (ℕ × Config) → Type 0
Living s res = All (λ e. 1 ≤ occurs e.0 s.seeds + occurs e.0 s.commons) res

pub occurs-get_elem? : (a : List ℕ) (i : ℕ) → i < length a → 1 ≤ occurs (or_zero (get_elem? a i)) a
unfolding occurs
occurs-get_elem? [] i h = elim h [ ]
occurs-get_elem? (x ∷ a) zero h = ground arith
occurs-get_elem? (x ∷ a) (suc i) h = omega (arith, occurs-get_elem? a i (omega arith))

kbid_at-living :
    (rand : ℕ) (s : ChunkStatus)
    → 0 < length s.seeds + length s.commons
    → 1 ≤ occurs (kbid_at rand s) s.seeds + occurs (kbid_at rand s) s.commons
unfolding kbid_at
kbid_at-living rand s h =
    let n = length s.seeds + length s.commons in
    let small : rand % n < n = omega arith in
    elim (Bool-cases (leb (length s.seeds) (rand % n))) [
      | inl common ↦ rw common (
          omega (
            arith,
            occurs-get_elem? s.commons (rand % n - length s.seeds) (ground (arith, common, small)),
          ))
      | inr seed ↦
          rw seed (omega (arith, occurs-get_elem? s.seeds (rand % n) (ground (arith, seed))))
    ]

drawn-append :
    (k j : ℕ) (c : Config) (res : List (ℕ × Config))
    → j ≢ k
    → drawn k res ≡ false
    → drawn k (res ++ ((j, c) ∷ [])) ≡ false
unfolding drawn
drawn-append k j c [] ne h = ground arith
drawn-append k j c ((i, d) ∷ res) ne h = ground (arith, drawn-append k j c res ne)

Distinct-append :
    (j : ℕ) (c : Config) (res : List (ℕ × Config))
    → drawn j res ≡ false
    → Distinct res
    → Distinct (res ++ ((j, c) ∷ []))
unfolding drawn
Distinct-append j c [] h d = (refl, tt)
Distinct-append j c ((i, e) ∷ res) h d =
    (drawn-append i j c res (ground arith) d.0, Distinct-append j c res (ground arith) d.1)

Living-append :
    (s : ChunkStatus) (j : ℕ) (c : Config) (res : List (ℕ × Config))
    → 1 ≤ occurs j s.seeds + occurs j s.commons
    → Living s res
    → Living s (res ++ ((j, c) ∷ []))
Living-append s j c [] h l = (h, tt)
Living-append s j c (e ∷ res) h l = (l.0, Living-append s j c res h l.1)

record Good (s : ChunkStatus) (res : List (ℕ × Config)) : Type 0 where
  pub distinct : Distinct res
  pub living : Living s res

drawn_all :
    (res res' : List (ℕ × Config)) (s s' : ChunkStatus)
    → Good s res
    → length res ≡ 3
    → ◌≡◌ {A = Option (List (ℕ × Config) × ChunkStatus)} (some (res, s)) (some (res', s'))
    → Good s res' × (length res' ≡ 3) × (s'.seeds ≡ s.seeds) × (s'.commons ≡ s.commons)
drawn_all res res' s s' g size e =
    let p : res ≡ res' = ground arith in
    let q : s ≡ s' = ground arith in (rw (← p) g, rw (← p) size, rw q, rw q)

draw-Good :
    (rands : List ℕ) (res : List (ℕ × Config)) (s : ChunkStatus) (res' : List (ℕ × Config))
    (s' : ChunkStatus)
    → 0 < length s.seeds + length s.commons
    → Good s res
    → draw rands res s ≡ some (res', s')
    → Good s res' × (length res' ≡ 3) × (s'.seeds ≡ s.seeds) × (s'.commons ≡ s.commons)
unfolding draw
draw-Good [] res s res' s' pos g h = elim (Bool-cases (length res == 3)) [
  | inl full ↦ drawn_all res res' s s' g (ground arith) (rw full at h)
  | inr short ↦ absurd (ground arith)
]
draw-Good (rand ∷ rands) res s res' s' pos g h =
    let tk = kbid_at rand s in
    let c = (read_config tk s.configs).0 in
    let m = (read_config tk s.configs).1 in
    let stay = draw-Good rands res s res' s' pos g in
    elim (Bool-cases (length res == 3)) [
      | inl full ↦ drawn_all res res' s s' g (ground arith) (rw (full, draw) at h)
      | inr short ↦ elim (Bool-cases (drawn tk res)) [
        | inl seen ↦ stay (rw (short, seen, draw) at h)
        | inr new ↦
            let (good, size, seeds, commons) =
              draw-Good rands (res ++ ((tk, c) ∷ [])) (record s { configs = m }) res' s' pos
                (record {
                  distinct = Distinct-append tk c res new g.distinct;
                  living = Living-append s tk c res (kbid_at-living rand s pos) g.living;
                })
                (rw (short, new, draw) at h) in
            (record { distinct = good.distinct; living = good.living }, size, seeds, commons)
      ]
    ]

-- Exactly where fewer than three living servers are listed, none are handed out and this is
-- reported; and the servers that are handed out, if the drawing ends, are three different living
-- ones, whatever the values of `rand()` are.
pub get_random_alive_3_lem :
    (rands : List ℕ) (s : ChunkStatus)
    → ((get_random_alive_3 rands s ≡ not_ready) ↔ (length s.seeds + length s.commons < 3))
      × ((res : List (ℕ × Config)) (t : ChunkStatus)
          → get_random_alive_3 rands s ≡ ready res t
          → (length res ≡ 3) × Distinct res × Living s res)
unfolding get_random_alive_3
get_random_alive_3_lem rands s =
    let n = length s.seeds + length s.commons in
    elim (Bool-cases (ltb n 3)) [
      | inl few ↦
          rw (few, get_random_alive_3)
            ((λ e. ground arith, λ e. refl), λ res t e. absurd (ground arith))
      | inr enough ↦ elim (Option-cases (draw rands [] s)) [
        | inl still ↦
            rw (enough, still, get_random_alive_3)
              (
                (λ e. absurd (ground arith), λ e. absurd (ground arith)),
                λ res t e. absurd (ground arith),
              )
        | inr (r, drew) ↦
            rw (enough, drew, get_random_alive_3)
              (
                (λ e. absurd (ground arith), λ e. absurd (ground arith)),
                λ res t e.
                    let same : r.0 ≡ res = ground arith in
                    let (good, size, _, _) =
                      draw-Good rands [] s r.0 r.1 (ground arith)
                        (record { distinct = tt; living = tt }) drew in
                    rw (← same) (size, good.distinct, good.living),
              )
      ]
    ]
