-- ===== src/Master/Sentinel/Network.antt =====
-- server/master/kyrin_master_sentinel.cc: all the masters at once. Each runs the loop of Machine;
-- what a poll hears from a master is nothing or a ticket that this master made at some time, so
-- answers may be lost, late and in any order. The vote requests are arbitrary, as in Machine.
pub mod Votes
pub mod Agreement
mod Tests
use kyrin_box.Prelude.{ℕ, ◌+◌, ◌≤◌, ◌<◌, ◌^◌, ◌≡◌, ◌==◌, ◌⊎◌, List, [], ◌∷◌, Bytes, if◌then◌else◌}
use kyrin_box.Common.Decimal.{print_ticket}
use kyrin_box.Master.Sentinel.{Sentinel, get_vote_ticket}
use kyrin_box.Master.Sentinel.Machine.{
  Thread, Step, request, rest, lose, ask, run, begin, hear, gathered, retry, win, give_up, begins,
}

-- A result of `get_vote_ticket`, with the master that made it.
pub record Ticket : Type 0 where
  pub sender : ℕ
  pub epoch : ℕ
  pub vote : ℕ

-- The thread of each kbid, and the tickets made so far.
pub record Network : Type 0 where
  pub threads : ℕ → Thread
  pub tickets : List Ticket

abbrev pub update : (ℕ → Thread) → ℕ → Thread → ℕ → Thread
update threads i c j = if i == j then c else threads j

abbrev pub Any : (Ticket → Type 0) → List Ticket → Type 0
Any P [] = ⊥
Any P (t ∷ ts) = P t ⊎ Any P ts

-- The master has made a ticket with this text.
abbrev pub Made : List Ticket → ℕ → Bytes → Type 0
Made ts j text = Any (λ t. (t.sender ≡ j) × (text ≡ print_ticket t.epoch t.vote)) ts

-- What a step hears is no answer or one that the asked master made.
abbrev pub IsHonest : List Ticket → (kbid m : ℕ) {c d : Thread} → Step kbid m c d → Type 0
IsHonest ts kbid m (request old body e) = Unit {0}
IsHonest ts kbid m (rest p q e) = Unit {0}
IsHonest ts kbid m (lose p q e) = Unit {0}
IsHonest ts kbid m (ask answers p e) = Unit {0}
IsHonest ts kbid m (run p q e) = Unit {0}
IsHonest ts kbid m (begin p e) = Unit {0}
IsHonest ts kbid m (hear i b old answer p q e) = (answer ≡ []) ⊎ Made ts i answer
IsHonest ts kbid m (gathered i b p q e) = Unit {0}
IsHonest ts kbid m (retry b b' s p q e) = Unit {0}
IsHonest ts kbid m (win b s id p q e) = Unit {0}
IsHonest ts kbid m (give_up b s p q e) = Unit {0}

-- `get_vote_ticket` of a master
abbrev pub ticket : ℕ → Sentinel → Ticket
ticket j s = record { sender = j; epoch = s.epoch; vote = s.vote }

-- The epoch and the vote of a ticket are `uint64_t`.
pub data Turn (m : ℕ) (n o : Network) : Type 0 where
  make :
      (j : ℕ)
      → (n.threads j).sentinel.epoch < 2 ^ 64
      → (n.threads j).sentinel.vote < 2 ^ 64
      → o ≡ record n { tickets = ticket j (n.threads j).sentinel ∷ n.tickets }
      → Turn m n o
  act :
      (i : ℕ) (d : Thread) (step : Step i m (n.threads i) d)
      → 1 ≤ i
      → i ≤ m
      → IsHonest n.tickets i m step
      → o ≡ record n { threads = update n.threads i d }
      → Turn m n o

-- `start_sentinel` of every master
abbrev pub starts : (ℕ → Sentinel) → Network
starts s = record { threads = λ i. begins i (s i); tickets = [] }

pub data Reachable (m : ℕ) : Network → Type 0 where
  boot : (s : ℕ → Sentinel) → Reachable m (starts s)
  turn : {n o : Network} → Reachable m n → Turn m n o → Reachable m o
