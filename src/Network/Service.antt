-- ===== src/Network/Service.antt =====
-- src/core/network/network_server.cpp with all sessions and their acceptor: the service that
-- io_service runs, one handler at a time. A session object lives at its address.
pub mod Isolation
pub mod Soundness
pub mod Ending
pub mod CutShort
pub mod Refusal
pub mod Interleaving
pub mod Client
pub mod Accepted
pub mod Leaving
pub mod Registry
pub mod Order
pub mod Work
mod Tests
use librtaio.Base.{
  ℕ, ◌+◌, Bool, true, false, List, [], ◌∷◌, Option, none, some, ◌==◌, if◌then◌else◌, Outcome, done,
  aborted, thrown, fault, access, ◌>>=◌,
}
use librtaio.Stream.Host.{Host}
use librtaio.Protocol.Field.{Field}
use librtaio.Network.Acceptor.{Acceptor, start_acceptor, handle_accept}
use librtaio.Network.Acceptor.Handlers.{no_handlers}
use librtaio.Network.Session.{
  Session, Server, Pending, idle, reading, writing, session_handler, start, complete_read,
  fail_read, complete_write,
}

pub record World : Type 0 where
  pub acceptor : Acceptor
  pub sessions : List Session

abbrev pub find : ℕ → List Session → Option Session
find a [] = none
find a (s ∷ ss) = if a == s.address then some s else find a ss

abbrev pub forget : ℕ → List Session → List Session
forget a [] = []
forget a (s ∷ ss) = let rest = forget a ss in if a == s.address then rest else s ∷ rest

-- After a handler ran on the session at `a`: a deleted session is no object any more.
abbrev pub put : ℕ → Session → List Session → List Session
put a s ss = if s.live then s ∷ forget a ss else forget a ss

-- What `new session_handler` gives: an address and what the memory held, or the null pointer.
abbrev pub Fresh : Type 0
Fresh = Option (ℕ × List Field)

abbrev pub address_of : Fresh → Option ℕ
address_of none = none
address_of (some (a, raw)) = some a

-- What Boost.Asio completes: an accept, with whether the client is still there, or without success;
-- a read, with the bytes read or with an error, or a write, of the session at an address; or a
-- client resets its connection.
pub data Event : Type 0 where
  accepted : Fresh → Bool → Event
  refused : Event
  received : (a : ℕ) → List ℕ → Event
  read_failed : (a : ℕ) → Event
  written : (a : ℕ) → (error : Bool) → Event
  reset : (a : ℕ) → Event

-- The constructor of a new session.
unfoldable pub construct : ℕ → Fresh → List Session → Outcome (List Session)
construct now none ss = done ss
construct now (some (a, raw)) ss = session_handler now a raw >>= λ s. done (s ∷ forget a ss)

-- async_accept connects the session's socket; the client may have gone since.
abbrev pub with_peer : Bool → Session → Session
with_peer there s = record s { peer = there }

-- What happens in io_service::run: an event's handler runs, or network_server::stop makes it run no
-- more.
pub data Call : Type 0 where
  event : Event → Call
  stop : Call

-- Where network_server::run is after some calls: it waits for events; it has returned, after stop() or
-- for lack of work; it has caught an exception of the `n`th
-- handler, and returned; a failed assert in that handler has ended the process; or that handler did
-- what is undefined, and nothing is said of what follows.
pub data Served : Type 0 where
  waits : World → Served
  returns : World → Served
  caught : (n : ℕ) → Served
  ended : (n : ℕ) → Served
  undefined : (n : ℕ) → Served

-- An operation of the session is under way.
abbrev pub is_busy : Pending → Bool
is_busy idle = false
is_busy (reading at size want) = true
is_busy (writing bytes) = true

abbrev pub busy_at : Option Session → Bool
busy_at none = false
busy_at (some s) = is_busy s.pending

abbrev pub some_busy : List Session → List Session → Bool
some_busy all [] = false
some_busy all (s ∷ ss) = if busy_at (find s.address all) then true else some_busy all ss

-- The io_service has work: an accept or an operation of a session is under way.
unfoldable pub has_work : World → Bool
has_work w = elim w.acceptor.accepting [ none ↦ some_busy w.sessions w.sessions | some a ↦ true ]

-- The handlers' exceptions are caught around m_net_server.run().
abbrev pub after_handler : ℕ → (World → Served) → Outcome World → Served
after_handler n next (done w) = next w
after_handler n next thrown = caught n
after_handler n next aborted = ended n
after_handler n next fault = undefined n

abbrev pub lose_peer : Server → Outcome Server
lose_peer s = done (record s { session = with_peer false s.session })

unfoldable pub start_service : ℕ → Fresh → Outcome World
start_service now fresh = construct now fresh [] >>= λ ss.
    start_acceptor (address_of fresh) no_handlers >>= λ acceptor.
    done (record { acceptor = acceptor; sessions = ss })

-- async_accept's handler for the session at `a`.
unfoldable pub accept_session : ℕ → Fresh → Bool → ℕ → World → Outcome World
accept_session now fresh there a w = access (find a w.sessions) >>= λ s.
    start (with_peer there s) >>= λ s'. construct now fresh (put a s' w.sessions) >>= λ ss.
    handle_accept (address_of fresh) a false w.acceptor >>= λ acceptor.
    done (record { acceptor = acceptor; sessions = ss })

unfoldable pub refuse_session : ℕ → World → Outcome World
refuse_session a w = handle_accept none a true w.acceptor >>= λ acceptor.
    done (record { acceptor = acceptor; sessions = forget a w.sessions })

-- The handler that waits for an accept, if one does.
abbrev pub for_accepting : (ℕ → World → Outcome World) → World → Option ℕ → Outcome World
for_accepting handler w none = done w
for_accepting handler w (some a) = handler a w

-- A handler of the session at an address, if there is one.
abbrev pub for_session : ℕ → (Server → Outcome Server) → World → Option Session → Outcome World
for_session a handler w none = done w
for_session a handler w (some s) = handler (record { session = s; acceptor = w.acceptor }) >>= λ r.
    done (record { acceptor = r.acceptor; sessions = put a r.session w.sessions })

module _ (h : Host) (now : ℕ) where
  unfoldable pub handle_event : Event → World → Outcome World
  handle_event (accepted fresh there) w =
      for_accepting (accept_session now fresh there) w w.acceptor.accepting
  handle_event refused w = for_accepting refuse_session w w.acceptor.accepting
  handle_event (received a bytes) w =
      for_session a (complete_read h now bytes) w (find a w.sessions)
  handle_event (read_failed a) w = for_session a (fail_read h now) w (find a w.sessions)
  handle_event (written a error) w =
      for_session a (λ s. complete_write h now error s >>= λ r. done r.1) w (find a w.sessions)
  handle_event (reset a) w = for_session a lose_peer w (find a w.sessions)

  -- io_service::run, which returns as soon as no operation is under way.
  unfoldable pub serve : List Call → ℕ → World → Served
  serve [] n w = elim (has_work w) [ true ↦ waits w | false ↦ returns w ]
  serve (stop ∷ calls) n w = returns w
  serve (event e ∷ calls) n w = elim (has_work w) [
    | true ↦ after_handler n (serve calls (n + 1)) (handle_event e w)
    | false ↦ returns w
  ]

  -- network_server::run.
  unfoldable pub run_server : Fresh → List Call → Served
  run_server fresh calls = after_handler 0 (serve calls 1) (start_service now fresh)
