-- ===== src/Server/Setup.antt =====
-- server/base/kyrin_base_server.cc: the sockets and the threads of a server. The operating system
-- and libevent are parameters.
pub mod Listening
pub mod Serving
use kyrin_box.Prelude.{
  ℕ, zero, suc, ◌+◌, ◌%◌, ◌^◌, Bool, true, false, Option, none, some, List, [], ◌∷◌, Bytes,
  if◌then◌else◌, ◌≡◌, refl,
}
use Prim.Native.Nat.{bit_or}

-- The calls on sockets, with true for a result that is not negative.
pub record Os : Type 1 where
  pub State : Type 0
  pub Fd : Type 0
  pub socket : State → Fd × State
  pub setsockopt : State → Fd → Bool × State
  pub bind : State → Fd → ℕ → Bool × State
  pub listen : State → Fd → ℕ → Bool × State
  pub get_flags : State → Fd → Option ℕ
  pub set_flags : State → Fd → ℕ → Bool × State
  pub o_nonblock : ℕ
  pub close : State → Fd → State

-- libevent's HTTP servers, whose callbacks are the endpoints of a program.
pub record LibEvent (Fd E : Type 0) : Type 1 where
  pub Evhttp : Type 0
  pub new : Evhttp
  pub set_cb : Evhttp → Bytes → E → Evhttp
  pub accept_socket : Evhttp → Fd → Evhttp

-- What a `server_initialize` comes to: undefined behaviour, the result false, or the result true
-- with the sockets.
pub data Outcome (St A : Type 0) : Type 0 where
  undefined : Outcome St A
  failed : St → Outcome St A
  started : A → St → Outcome St A

abbrev pub Setting : Type 0 → Type 0 → Type 0
Setting St A = St → Outcome St A

abbrev pub pure : {St A : Type 0} → A → Setting St A
pure a st = started a st

abbrev pub then_with : {St A B : Type 0} → Outcome St A → (A → Setting St B) → Outcome St B
then_with undefined f = undefined
then_with (failed st) f = failed st
then_with (started a st) f = f a st

infixl 5 ◌>>=◌
abbrev pub ◌>>=◌ : {St A B : Type 0} → Setting St A → (A → Setting St B) → Setting St B
m >>= f = λ st. then_with (m st) f

-- A chain that gives true did so in each step.
pub then_with-started :
    {St A B : Type 0} (o : Outcome St A) (f : A → Setting St B) (b : B) (st : St)
    → then_with o f ≡ started b st
    → (a : A) × (st' : St) × (o ≡ started a st') × (f a st' ≡ started b st)
then_with-started undefined f b st e = cc
then_with-started (failed st') f b st e = cc
then_with-started (started a st') f b st e = (a, st', refl, e)

-- A configuration that is read, or is not there.
abbrev pub given : {St A : Type 0} → Option A → Setting St A
given none st = undefined
given (some a) st = started a st

module _ (O : Os) where
  -- `server_initialize_kyrin_server_socket`: the result, `listen_fd`, and what the calls left.
  unfoldable pub initialize_socket : ℕ → ℕ → O.State → Bool × O.Fd × O.State
  initialize_socket port backlog st =
      let (fd, st1) = O.socket st in
      let (reuse, st2) = O.setsockopt st1 fd in
      let (bound, st3) = O.bind st2 fd (port % 2 ^ 16) in
      let (listening, st4) = O.listen st3 fd backlog in
      let nonblock : Bool × O.State = elim (O.get_flags st4 fd) [
        | none ↦ (false, st4)
        | some flags ↦ O.set_flags st4 fd (bit_or flags O.o_nonblock)
      ] in
      if reuse
      then if bound
        then if listening then (nonblock.0, fd, nonblock.1) else (false, fd, st4)
        else (false, fd, st3)
      else (false, fd, st2)

  -- `if (!server_initialize_kyrin_server_socket(fd, port, backlog)) return false;`
  unfoldable pub open_socket : Option ℕ → Option ℕ → Setting O.State O.Fd
  unfolding initialize_socket
  open_socket none backlog st = undefined
  open_socket (some port) none st = undefined
  open_socket (some port) (some backlog) st =
      let (ready, fd, st') = initialize_socket port backlog st in
      if ready then started fd st' else failed st'

module _ {Fd E : Type 0} (V : LibEvent Fd E) where
  unfoldable pub server_put_callback : V.Evhttp → Bytes → E → V.Evhttp
  server_put_callback h path endpoint = V.set_cb h path endpoint

  unfoldable pub server_set_evhttp_accept_socket : V.Evhttp → Fd → V.Evhttp
  server_set_evhttp_accept_socket h fd = V.accept_socket h fd

  -- `server_run`: the HTTP servers of the threads from `i` on, each set up by the server's
  -- `server_set_processor`.
  unfoldable pub server_run : (V.Evhttp → ℕ → V.Evhttp) → ℕ → ℕ → List V.Evhttp
  server_run set_processor zero i = []
  server_run set_processor (suc threads) i =
      set_processor V.new i ∷ server_run set_processor threads (i + 1)
