-- ===== src/Chunk/Status/Termination.antt =====
-- When `get_random_alive_3` of server/chunk/kyrin_chunk_gossiper_status.h ends.
use kyrin_box.Prelude.{
  ℕ, zero, suc, ◌+◌, ◌-◌, ◌%◌, ◌≤◌, ◌<◌, ◌≡◌, ◌≢◌, ◌∙◌, refl, sym, ap, subst, true, false, none,
  List, [], ◌∷◌, ◌++◌, ◌==◌, leb, ltb, if◌then◌else◌, length, length-append, get_elem?, or_zero,
  All, Bool-cases, Option-cases, arith, inl, inr,
}
use native.Mathlib.Decide.{ℕ_discrete}
use kyrin_box.Chunk.Status.{Config, ChunkStatus}
use kyrin_box.Chunk.Status.Random.{drawn, read_config, kbid_at, draw, ready, get_random_alive_3}
use kyrin_box.Chunk.Status.Members.{occurs, occurs-append, IsValid}
use kyrin_box.Chunk.Status.Draws.{occurs-get_elem?}

-- Where the same number is listed once at most, its place is determined.
get_elem?-once :
    (a : List ℕ) (i j : ℕ)
    → ((k : ℕ) → occurs k a ≤ 1)
    → i < length a
    → j < length a
    → or_zero (get_elem? a i) ≡ or_zero (get_elem? a j)
    → i ≡ j
unfolding occurs
get_elem?-once [] i j once hi hj e = elim hi [ ]
get_elem?-once (x ∷ a) zero zero once hi hj e = refl
get_elem?-once (x ∷ a) zero (suc j) once hi hj e =
    absurd (ground (arith, once x, occurs-get_elem? a j (omega arith), e))
get_elem?-once (x ∷ a) (suc i) zero once hi hj e =
    absurd (ground (arith, once x, occurs-get_elem? a i (omega arith), e))
get_elem?-once (x ∷ a) (suc i) (suc j) once hi hj e =
    ap suc (get_elem?-once a i j (λ k. omega (arith, once k)) (omega arith) (omega arith) e)

get_elem?-append :
    (a b : List ℕ) (i : ℕ)
    → or_zero (get_elem? (a ++ b) i)
      ≡ (if leb (length a) i then or_zero (get_elem? b (i - length a)) else or_zero (get_elem? a i))
get_elem?-append [] b i = ground arith
get_elem?-append (x ∷ a) b zero = ground arith
get_elem?-append (x ∷ a) b (suc i) = ground (arith, get_elem?-append a b i)

-- Values of `rand()` with different remainders stand for different servers.
kbid_at-once :
    (x y : ℕ) (s : ChunkStatus)
    → IsValid s
    → 0 < length s.seeds + length s.commons
    → kbid_at x s ≡ kbid_at y s
    → x % (length s.seeds + length s.commons) ≡ y % (length s.seeds + length s.commons)
unfolding kbid_at
kbid_at-once x y s v pos e =
    let n = length s.seeds + length s.commons in
    let a = s.seeds ++ s.commons in
    let size = length-append s.seeds s.commons in
    get_elem?-once a (x % n) (y % n)
      (λ k. omega (arith, v.once k, occurs-append k s.seeds s.commons)) (rw size (omega arith))
      (rw size (omega arith))
      (get_elem?-append s.seeds s.commons (x % n)
        ∙ e
        ∙ sym (get_elem?-append s.seeds s.commons (y % n)))

drawn_append :
    (k j : ℕ) (c : Config) (res : List (ℕ × Config))
    → drawn k (res ++ ((j, c) ∷ [])) ≡ (if k == j then true else drawn k res)
unfolding drawn
drawn_append k j c [] = refl
drawn_append k j c ((i, d) ∷ res) = ground (arith, drawn_append k j c res)

-- If the drawing has not ended, then the kbids so far are those of fewer than three servers.
draw_running :
    (rands : List ℕ) (res : List (ℕ × Config)) (s : ChunkStatus)
    → length res ≤ 3
    → draw rands res s ≡ none
    → (few : List (ℕ × Config)) × (length few < 3)
      × All (λ r. drawn (kbid_at r s) few ≡ true) rands
      × ((k : ℕ) → drawn k res ≡ true → drawn k few ≡ true)
unfolding draw kbid_at
draw_running [] res s h e = (res, ground arith, tt, λ k d. d)
draw_running (rand ∷ rands) res s h e =
    let tk = kbid_at rand s in
    let c = (read_config tk s.configs).0 in
    let m = (read_config tk s.configs).1 in
    let stay = draw_running rands res s h in
    let more = draw_running rands (res ++ ((tk, c) ∷ [])) (record s { configs = m }) in
    elim (Bool-cases (length res == 3)) [
      | inl full ↦ absurd (ground arith)
      | inr short ↦ elim (Bool-cases (drawn tk res)) [
        | inl seen ↦
            let (few, size, all, kept) = stay (rw (short, seen, draw) at e) in
            (few, size, (kept tk seen, all), kept)
        | inr new ↦
            let size' = length-append res ((tk, c) ∷ []) in
            let (few, size, all, kept) =
              more (ground (arith, short, size')) (rw (short, new, draw) at e) in
            let kept' : (k : ℕ) → drawn k res ≡ true → drawn k few ≡ true =
              λ k d. kept k (rw (drawn_append k tk c res) (ground (arith, d))) in
            (few, size, (kept tk (rw (drawn_append tk tk c res) (ground arith)), all), kept')
      ]
    ]

drawn_few :
    (few : List (ℕ × Config)) (a b c : ℕ)
    → length few < 3
    → drawn a few ≡ true
    → drawn b few ≡ true
    → drawn c few ≡ true
    → a ≢ b
    → b ≢ c
    → a ≢ c
    → ⊥
unfolding drawn
drawn_few [] a b c size ha hb hc ab bc ac = ground arith
drawn_few ((x, d) ∷ []) a b c size ha hb hc ab bc ac = ground arith
drawn_few ((x, d) ∷ ((y, d') ∷ [])) a b c size ha hb hc ab bc ac = ground arith
drawn_few (x ∷ (y ∷ (z ∷ few))) a b c size ha hb hc ab bc ac = omega arith

All-occurs : (P : ℕ → Type 0) (l : List ℕ) (x : ℕ) → All P l → 1 ≤ occurs x l → P x
unfolding occurs
All-occurs P [] x h o = absurd (omega arith)
All-occurs P (y ∷ l) x h o = elim (ℕ_discrete x y) [
  | yes same ↦ subst P (sym same) h.0
  | no differ ↦ All-occurs P l x h.1 (ground (arith, o, differ))
]

-- In a valid status with at least three living servers the drawing ends as soon as `rand()` gave
-- three values with different remainders by the number of the living servers.
pub get_random_alive_3-ready :
    (rands : List ℕ) (s : ChunkStatus) (x y z : ℕ)
    → let n = length s.seeds + length s.commons in
      IsValid s
      → 3 ≤ n
      → 1 ≤ occurs x rands
      → 1 ≤ occurs y rands
      → 1 ≤ occurs z rands
      → x % n ≢ y % n
      → y % n ≢ z % n
      → x % n ≢ z % n
      → (res : List (ℕ × Config)) × (t : ChunkStatus) × (get_random_alive_3 rands s ≡ ready res t)
unfolding get_random_alive_3
get_random_alive_3-ready rands s x y z v enough hx hy hz xy yz xz =
    let many : ltb (length s.seeds + length s.commons) 3 ≡ false = ground arith in
    elim (Option-cases (draw rands [] s)) [
      | inr ((res, t), drew) ↦ (res, t, rw (many, drew, get_random_alive_3) refl)
      | inl still ↦
          let (few, size, all, _) = draw_running rands [] s (omega arith) still in
          absurd (
            drawn_few few (kbid_at x s) (kbid_at y s) (kbid_at z s) size
              (All-occurs _ rands x all hx) (All-occurs _ rands y all hy)
              (All-occurs _ rands z all hz) (λ e. xy (kbid_at-once x y s v (omega arith) e))
              (λ e. yz (kbid_at-once y z s v (omega arith) e))
              (λ e. xz (kbid_at-once x z s v (omega arith) e)))
    ]
