-- ===== src/Master/Sentinel/Answered.antt =====
-- What a round of polling collects where every master answers in the epoch of the round.
use kyrin_box.Prelude.{
  ℕ, zero, suc, ◌+◌, ◌≤◌, ◌<◌, ◌≡◌, ◌≢◌, ◌∙◌, refl, sym, true, some, [], length, set, length-set,
  get_elem?-set_self, get_elem?-set_ne, arith,
}
use native.Mathlib.Decide.{ℕ_discrete}
use kyrin_box.Common.Decimal.{scan_ticket}
use kyrin_box.Master.Sentinel.{Sentinel, Poll, Ballots, ballot, check_response, handle_all, poll}

-- No vote request comes in between the polls, and every master answers with the round's epoch and
-- the vote `v i`.
pub record Answered (m epoch : ℕ) (v : ℕ → ℕ) (env : ℕ → Poll) : Type 0 where
  pub quiet : (i : ℕ) → (env i).before ≡ []
  pub there : (i : ℕ) → 1 ≤ i → i ≤ m → check_response (env i).answer ≡ true
  pub says : (i : ℕ) → 1 ≤ i → i ≤ m → scan_ticket (env i).old (env i).answer ≡ (epoch, v i)

-- The collection that such a round ends with, and how it reads.
unfoldable pub filled : (ℕ → ℕ) → ℕ → ℕ → Ballots → Ballots
filled v zero i b = b
filled v (suc n) i b = filled v n (i + 1) (set b i (some (v i)))

pub poll-filled :
    (kbid m n i : ℕ) (v : ℕ → ℕ) (env : ℕ → Poll) (s : Sentinel) (b : Ballots)
    → Answered m s.epoch v env
    → 1 ≤ i
    → i + n ≤ m + 1
    → poll kbid n i env s b ≡ (s, filled v n i b)
unfolding poll filled handle_all
poll-filled kbid m zero i v env s b a lo hi = refl
poll-filled kbid m (suc n) i v env s b a lo hi =
    let rest =
      poll-filled kbid m n (i + 1) v env s (set b i (some (v i))) a (omega arith) (omega arith) in
    let quiet = a.quiet i in
    let there = a.there i lo (omega arith) in
    let says = a.says i lo (omega arith) in rw (quiet, says, there, poll) (ground (arith, rest))

pub length-filled : (v : ℕ → ℕ) (n i : ℕ) (b : Ballots) → length (filled v n i b) ≡ length b
unfolding filled
length-filled v zero i b = refl
length-filled v (suc n) i b =
    length-filled v n (i + 1) (set b i (some (v i))) ∙ length-set b i (some (v i))

ballot-set_ne : (b : Ballots) (i j v : ℕ) → i ≢ j → ballot (set b i (some v)) j ≡ ballot b j
ballot-set_ne b i j v h = rw (get_elem?-set_ne b {i = i} {j = j} (some v) h, ballot) refl

ballot-set_self : (b : Ballots) (i v : ℕ) → i < length b → ballot (set b i (some v)) i ≡ some v
ballot-set_self b i v h = rw (get_elem?-set_self b i (some v) h, ballot) refl

pub ballot-filled_out :
    (v : ℕ → ℕ) (n i j : ℕ) (b : Ballots) → j < i → ballot (filled v n i b) j ≡ ballot b j
unfolding filled
ballot-filled_out v zero i j b h = refl
ballot-filled_out v (suc n) i j b h =
    ballot-filled_out v n (i + 1) j (set b i (some (v i))) (omega arith)
    ∙ ballot-set_ne b i j (v i) (λ e. omega arith)

pub ballot-filled :
    (v : ℕ → ℕ) (n i j : ℕ) (b : Ballots)
    → i + n ≤ length b
    → i ≤ j
    → j < i + n
    → ballot (filled v n i b) j ≡ some (v j)
unfolding filled
ballot-filled v zero i j b h lo hi = absurd (omega arith)
ballot-filled v (suc n) i j b h lo hi = elim (ℕ_discrete i j) [
  | yes same ↦ rw (sym same) (
      ballot-filled_out v n (i + 1) i (set b i (some (v i))) (omega arith)
      ∙ ballot-set_self b i (v i) (omega arith))
  | no differ ↦
      ballot-filled v n (i + 1) j (set b i (some (v i)))
        (rw (length-set b i (some (v i))) (omega arith)) (omega arith) (omega arith)
]
