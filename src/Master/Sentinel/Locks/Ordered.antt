-- ===== src/Master/Sentinel/Locks/Ordered.antt =====
-- The order in which the operations take their locks, and what waits for what.
use mathlib.Core.Option.{some-injective}
use kyrin_box.Prelude.{
  ℕ, zero, suc, ◌+◌, ◌≤◌, ◌<◌, ◌≡◌, refl, subst, inl, inr, true, some, List, [], ◌∷◌, ◌++◌,
  get_elem?, set, All, All-get_elem?, Bool-cases, arith,
}
use kyrin_box.Master.Sentinel.Locks.{
  Lock, status, vote, leader, epoch, same_lock, Action, acquire, release, Operation, program,
  run_all, Thread, holds, held_by_some, remove, exec, Step, starts, all_start,
}

-- Locks are taken in the order of their ranks.
abbrev pub rank : Lock → ℕ
rank status = 0
rank vote = 1
rank leader = 2
rank epoch = 3

-- What is left of a program takes locks above those that it holds then, and gives all back.
abbrev pub Ordered : List Lock → List Action → Type 0
Ordered held [] = held ≡ []
Ordered held (acquire l ∷ todo) = All (λ h. rank h < rank l) held × Ordered (l ∷ held) todo
Ordered held (release l ∷ todo) = Ordered (remove l held) todo

Ordered-program :
    (o : Operation) (todo : List Action) → Ordered [] todo → Ordered [] (program o ++ todo)
unfolding program remove same_lock
Ordered-program o todo h = ground arith

Ordered-run_all : (operations : List Operation) → Ordered [] (run_all operations)
unfolding run_all
Ordered-run_all [] = refl
Ordered-run_all (o ∷ operations) =
    Ordered-program o (run_all operations) (Ordered-run_all operations)

abbrev pub AllOrdered : List Thread → Type 0
AllOrdered threads = All (λ t. Ordered t.held t.todo) threads

pub AllOrdered-all_start : (operations : List (List Operation)) → AllOrdered (all_start operations)
unfolding all_start starts
AllOrdered-all_start [] = tt
AllOrdered-all_start (o ∷ operations) = (Ordered-run_all o, AllOrdered-all_start operations)

pub Ordered-exec :
    (threads : List Thread) (held : List Lock) (todo : List Action) (t' : Thread)
    → Ordered held todo
    → exec threads record { held = held; todo = todo } ≡ some t'
    → Ordered t'.held t'.todo
unfolding exec
Ordered-exec threads held [] t' h e = cc
Ordered-exec threads held (release l ∷ todo) t' h e =
    subst (λ t. Ordered t.held t.todo) (some-injective _ _ e) h
Ordered-exec threads held (acquire l ∷ todo) t' h e = elim (Bool-cases (held_by_some l threads)) [
  | inl waits ↦ absurd (ground arith)
  | inr free ↦
      let e' = rw (free, exec) at e in
      subst (λ t. Ordered t.held t.todo) (some-injective _ _ e') h.1
]

-- A thread that does an action, where what it has to do is known.
pub step_of :
    (threads : List Thread) (i : ℕ) (t t' : Thread)
    → get_elem? threads i ≡ some t
    → exec threads t ≡ some t'
    → (next : List Thread) × Step threads next
step_of threads i t t' at does = (
  set threads i t',
  record { index = i; before = t; after = t'; at = at; does = does; result = refl },
)

rank-same_lock : (l h : Lock) → same_lock l h ≡ true → rank l ≡ rank h
unfolding same_lock
rank-same_lock status status e = refl
rank-same_lock vote vote e = refl
rank-same_lock leader leader e = refl
rank-same_lock epoch epoch e = refl
rank-same_lock l h e = absurd (ground arith)

rank_le : (l : Lock) → rank l ≤ 3
rank_le l = ground arith

holds-rank :
    (l : Lock) (held : List Lock) (k : ℕ)
    → holds l held ≡ true
    → All (λ h. rank h < k) held
    → rank l < k
unfolding holds
holds-rank l [] k e a = cc
holds-rank l (h ∷ held) k e a = elim (Bool-cases (same_lock l h)) [
  | inl same ↦ omega (arith, rank-same_lock l h same, a.0)
  | inr other ↦ holds-rank l held k (ground (arith, other)) a.1
]

held_by_some_lem :
    (l : Lock) (threads : List Thread)
    → held_by_some l threads ≡ true
    → (j : ℕ) × (t : Thread) × (get_elem? threads j ≡ some t) × (holds l t.held ≡ true)
unfolding held_by_some
held_by_some_lem l [] e = cc
held_by_some_lem l (t ∷ threads) e = elim (Bool-cases (holds l t.held)) [
  | inl here ↦ (0, t, refl, here)
  | inr there ↦
      let (j, u, at, h) = held_by_some_lem l threads (ground (arith, there)) in (suc j, u, at, h)
]

-- Somebody can go on, if there is a thread that waits for a lock.
pub climb :
    (n : ℕ) (threads : List Thread) (i : ℕ) (held : List Lock) (l : Lock) (todo : List Action)
    → AllOrdered threads
    → get_elem? threads i ≡ some record { held = held; todo = acquire l ∷ todo }
    → 4 ≤ n + rank l
    → (next : List Thread) × Step threads next
unfolding exec holds
climb zero threads i held l todo h at top = absurd (omega (arith, rank_le l))
climb (suc n) threads i held l todo h at top = elim (Bool-cases (held_by_some l threads)) [
  | inr free ↦
      step_of threads i record { held = held; todo = acquire l ∷ todo }
        record { held = l ∷ held; todo = todo } at (rw (free, exec) refl)
  | inl taken ↦
      let (j, u, at', has) = held_by_some_lem l threads taken in
      onward j u.held u.todo at' has (climb n threads)
]
  where
    onward :
        (j : ℕ) (has : List Lock) (todo : List Action)
        → get_elem? threads j ≡ some record { held = has; todo = todo }
        → holds l has ≡ true
        → ((i : ℕ) (held : List Lock) (l : Lock) (todo : List Action)
            → AllOrdered threads
            → get_elem? threads i ≡ some record { held = held; todo = acquire l ∷ todo }
            → 4 ≤ n + rank l
            → (next : List Thread) × Step threads next)
        → (next : List Thread) × Step threads next
    onward j has [] at' e more =
        let none_held : has ≡ [] = All-get_elem? (λ t. Ordered t.held t.todo) threads j h at' in
        absurd (ground (arith, none_held))
    onward j has (release k ∷ rest) at' e more =
        step_of threads j record { held = has; todo = release k ∷ rest }
          record { held = remove k has; todo = rest } at' refl
    onward j has (acquire k ∷ rest) at' e more =
        let (above, _) = All-get_elem? (λ t. Ordered t.held t.todo) threads j h at' in
        more j has k rest h at' (omega (arith, holds-rank l has (rank k) e above))
