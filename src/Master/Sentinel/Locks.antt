-- ===== src/Master/Sentinel/Locks.antt =====
-- common/kyrin_lock.h, and the locks that the operations of server/master/kyrin_master_sentinel.cc
-- take: any number of threads, each with a sequence of operations.
pub mod Ordered
pub mod Progress
mod Tests
use kyrin_box.Prelude.{
  ℕ, ◌≡◌, Bool, true, false, ◌||◌, Option, none, some, List, [], ◌∷◌, ◌++◌, if◌then◌else◌,
  get_elem?, set,
}

pub data Lock : Type 0 where
  status vote leader epoch : Lock

pub same_lock : Lock → Lock → Bool
same_lock status status = true
same_lock vote vote = true
same_lock leader leader = true
same_lock epoch epoch = true
same_lock _ _ = false

-- `KyrinMutex::lock` and `KyrinMutex::unlock`
pub data Action : Type 0 where
  acquire release : Lock → Action

-- The parts of the code that hold locks.
pub data Operation : Type 0 where
  lose_leader adopt_epoch next_vote take_leader : Operation
  get_vote_ticket get_epoch set_epoch get_vote set_vote : Operation
  get_leader set_leader get_status set_status : Operation

pub program : Operation → List Action
program lose_leader =
    acquire status
    ∷ (acquire vote ∷ (acquire epoch ∷ (release epoch ∷ (release vote ∷ (release status ∷ [])))))
program adopt_epoch = acquire leader ∷ (acquire epoch ∷ (release leader ∷ (release epoch ∷ [])))
program next_vote = acquire vote ∷ (release vote ∷ [])
program take_leader = acquire status ∷ (acquire leader ∷ (release leader ∷ (release status ∷ [])))
program get_vote_ticket = acquire vote ∷ (acquire epoch ∷ (release vote ∷ (release epoch ∷ [])))
program get_epoch = acquire epoch ∷ (release epoch ∷ [])
program set_epoch = acquire epoch ∷ (release epoch ∷ [])
program get_vote = acquire vote ∷ (release vote ∷ [])
program set_vote = acquire vote ∷ (release vote ∷ [])
program get_leader = acquire leader ∷ (release leader ∷ [])
program set_leader = acquire leader ∷ (release leader ∷ [])
program get_status = acquire status ∷ (release status ∷ [])
program set_status = acquire status ∷ (release status ∷ [])

pub run_all : List Operation → List Action
unfolding program
run_all [] = []
run_all (o ∷ operations) = program o ++ run_all operations

-- The locks that a thread holds, and what it has to do.
pub record Thread : Type 0 where
  pub held : List Lock
  pub todo : List Action

pub holds : Lock → List Lock → Bool
unfolding same_lock
holds l [] = false
holds l (h ∷ held) = same_lock l h || holds l held

pub held_by_some : Lock → List Thread → Bool
unfolding holds
held_by_some l [] = false
held_by_some l (t ∷ threads) = holds l t.held || held_by_some l threads

pub remove : Lock → List Lock → List Lock
unfolding same_lock
remove l [] = []
remove l (h ∷ held) = let rest = remove l held in if same_lock l h then rest else h ∷ rest

-- The next action of a thread; `none` where it waits for a lock, or is done.
pub exec : List Thread → Thread → Option Thread
unfolding held_by_some remove
exec threads t = elim t.todo [
  | [] ↦ none
  | action ∷ todo ↦ elim action [
    | acquire l ↦
        if held_by_some l threads then none else some (record { held = l ∷ t.held; todo = todo })
    | release l ↦ some (record { held = remove l t.held; todo = todo })
  ]
]

-- One thread does its next action.
pub record Step (threads threads' : List Thread) : Type 0 where
  pub index : ℕ
  pub before : Thread
  pub after : Thread
  pub at : get_elem? threads index ≡ some before
  pub does : exec threads before ≡ some after
  pub result : threads' ≡ set threads index after

pub starts : List Operation → Thread
unfolding run_all
starts operations = record { held = []; todo = run_all operations }

pub all_start : List (List Operation) → List Thread
unfolding starts
all_start [] = []
all_start (operations ∷ rest) = starts operations ∷ all_start rest

pub data Reach (operations : List (List Operation)) : List Thread → Type 0 where
  start : Reach operations (all_start operations)
  later : {c d : List Thread} → Reach operations c → Step c d → Reach operations d
