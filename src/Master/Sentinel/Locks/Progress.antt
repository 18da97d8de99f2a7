-- ===== src/Master/Sentinel/Locks/Progress.antt =====
-- No set of threads of the sentinel ever waits for one another.
use mathlib.Core.Option.{some-injective}
use kyrin_box.Prelude.{
  ap, length, ℕ, zero, suc, ◌+◌, ◌≡◌, refl, sym, subst, ◌⊎◌, inl, inr, some, List, [], ◌∷◌,
  get_elem?, set, All, All-set, All-get_elem?, Bool-cases, arith,
}
use kyrin_box.Master.Sentinel.Locks.{
  Lock, Action, acquire, release, Operation, Thread, held_by_some, remove, exec, Step, Reach, start,
  later,
}
use kyrin_box.Master.Sentinel.Locks.Ordered.{
  Ordered, AllOrdered, AllOrdered-all_start, Ordered-exec, step_of, climb,
}

-- Every thread has done all its operations.
abbrev pub Done : List Thread → Type 0
Done threads = All (λ t. t.todo ≡ []) threads

todo-cases :
    (todo : List Action) → (todo ≡ []) ⊎ (a : Action) × (rest : List Action) × (todo ≡ a ∷ rest)
todo-cases [] = inl refl
todo-cases (a ∷ rest) = inr (a, rest, refl)

Done-or_waits :
    (threads : List Thread)
    → Done threads
      ⊎ (i : ℕ) × (held : List Lock) × (a : Action) × (rest : List Action) × (get_elem? threads i
          ≡ some record { held = held; todo = a ∷ rest })
Done-or_waits [] = inl tt
Done-or_waits (t ∷ threads) = elim (todo-cases t.todo) [
  | inr (a, rest, e) ↦ inr (0, t.held, a, rest, ap (λ l. some record { held = t.held; todo = l }) e)
  | inl done ↦ elim (Done-or_waits threads) [
    | inl all ↦ inl (done, all)
    | inr (i, held, a, rest, at) ↦ inr (suc i, held, a, rest, at)
  ]
]

go_on :
    (threads : List Thread) (i : ℕ) (held : List Lock) (a : Action) (rest : List Action)
    → AllOrdered threads
    → get_elem? threads i ≡ some record { held = held; todo = a ∷ rest }
    → (next : List Thread) × Step threads next
unfolding exec
go_on threads i held (acquire l) rest h at = climb 4 threads i held l rest h at (omega arith)
go_on threads i held (release l) rest h at =
    step_of threads i record { held = held; todo = release l ∷ rest }
      record { held = remove l held; todo = rest } at refl

Reach-AllOrdered :
    (operations : List (List Operation)) (threads : List Thread)
    → Reach operations threads
    → AllOrdered threads
Reach-AllOrdered operations threads start = AllOrdered-all_start operations
Reach-AllOrdered operations threads (later {c} reached step) =
    let before = Reach-AllOrdered operations c reached in
    let here = All-get_elem? (λ t. Ordered t.held t.todo) c step.index before step.at in
    let moved = Ordered-exec c step.before.held step.before.todo step.after here step.does in
    subst AllOrdered (sym step.result)
      (All-set (λ t. Ordered t.held t.todo) c step.index step.after before moved)

-- How many actions are left.
pub actions : List Thread → ℕ
actions [] = 0
actions (t ∷ threads) = length t.todo + actions threads

exec-length :
    (threads : List Thread) (held : List Lock) (todo : List Action) (t' : Thread)
    → exec threads record { held = held; todo = todo } ≡ some t'
    → length todo ≡ suc (length t'.todo)
unfolding exec
exec-length threads held [] t' e = cc
exec-length threads held (release l ∷ todo) t' e =
    ap (λ t. suc (length t.todo)) (some-injective _ _ e)
exec-length threads held (acquire l ∷ todo) t' e = elim (Bool-cases (held_by_some l threads)) [
  | inl waits ↦ absurd (ground arith)
  | inr free ↦
      let e' = rw (free, exec) at e in ap (λ t. suc (length t.todo)) (some-injective _ _ e')
]

actions-set :
    (threads : List Thread) (i : ℕ) (t t' : Thread)
    → get_elem? threads i ≡ some t
    → length t.todo ≡ suc (length t'.todo)
    → actions threads ≡ suc (actions (set threads i t'))
unfolding actions
actions-set [] i t t' at e = cc
actions-set (u ∷ threads) zero t t' at e =
    let same : length u.todo ≡ length t.todo = ap (λ v. length v.todo) (some-injective _ _ at) in
    omega (arith, same, e)
actions-set (u ∷ threads) (suc i) t t' at e = omega (arith, actions-set threads i t t' at e)

-- Any number of threads, each with any sequence of the sentinel's operations, never wait for one
-- another for ever: in every state that they reach, either all are done or one of them can go on,
-- and every step leaves one action less to do.
pub Reach-goes_on :
    (operations : List (List Operation)) (threads : List Thread)
    → Reach operations threads
    → (Done threads ⊎ (next : List Thread) × Step threads next)
      × ((next : List Thread) → Step threads next → actions threads ≡ suc (actions next))
Reach-goes_on operations threads reached = (
  elim (Done-or_waits threads) [
    | inl done ↦ inl done
    | inr (i, held, a, rest, at) ↦
        inr (go_on threads i held a rest (Reach-AllOrdered operations threads reached) at)
  ],
  λ next step.
      let less = exec-length threads step.before.held step.before.todo step.after step.does in
      subst (λ c. actions threads ≡ suc (actions c)) (sym step.result)
        (actions-set threads step.index step.before step.after step.at less),
)
