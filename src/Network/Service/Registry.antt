-- ===== src/Network/Service/Registry.antt =====
-- What the service promises, without its set of handlers and its objects in memory: a session at
-- each address, or none, and the accept that waits.
pub mod Refines
pub mod Run
mod Tests
use librtaio.Base.{
  ℕ, ◌+◌, ◌≡◌, ◌⊎◌, Bool, true, false, List, [], ◌∷◌, Option, none, some, ◌==◌, if◌then◌else◌,
  Outcome, done, aborted, thrown, fault, access, ◌>>=◌,
}
use librtaio.Stream.Host.{Host}
use librtaio.Network.Acceptor.{Acceptor}
use librtaio.Network.Acceptor.Handlers.{no_handlers}
use librtaio.Network.Session.{
  Session, Server, session_handler, start, complete_read, fail_read, complete_write,
}
use librtaio.Network.Session.Alone.{beside}
use librtaio.Network.Service.{
  World, find, Fresh, Event, accepted, refused, received, read_failed, written, reset, Call, event,
  stop, is_busy, Served, with_peer, lose_peer,
}

pub record Registry : Type 0 where
  pub session_at : ℕ → Option Session
  pub accepting : Option ℕ

-- What the service's state stands for.
abbrev pub registry : World → Registry
registry w = record { session_at = λ a. find a w.sessions; accepting = w.acceptor.accepting }

abbrev pub store : ℕ → Option Session → (ℕ → Option Session) → ℕ → Option Session
store a o at b = if b == a then o else at b

-- A deleted session is none.
abbrev pub alive : Session → Option Session
alive s = if s.live then some s else none

-- A handler of the session at `a` runs beside an empty set.
abbrev pub at_address : ℕ → (Server → Outcome Server) → Registry → Option Session → Outcome Registry
at_address a handler v none = done v
at_address a handler v (some s) = handler (beside s no_handlers) >>= λ r.
    done (record v { session_at = store a (alive r.session) v.session_at })

-- The next session, if there is memory for it; the accept waits for it.
abbrev pub next_session : ℕ → Fresh → Registry → Outcome Registry
next_session now none v = fault
next_session now (some (f, raw)) v = session_handler now f raw >>= λ s.
    done (record { session_at = store f (some s) v.session_at; accepting = some f })

abbrev pub accept : ℕ → Fresh → Bool → Registry → Option ℕ → Outcome Registry
accept now fresh there v none = done v
accept now fresh there v (some a) = access (v.session_at a) >>= λ s.
    start (with_peer there s) >>= λ s'.
    next_session now fresh (record v { session_at = store a (alive s') v.session_at })

abbrev pub refuse : Registry → Option ℕ → Registry
refuse v none = v
refuse v (some a) = record { session_at = store a none v.session_at; accepting = none }

abbrev pub empty : Registry
empty = record { session_at = λ a. none; accepting = none }

module _ (h : Host) (now : ℕ) where
  abbrev pub registry_event : Event → Registry → Outcome Registry
  registry_event (accepted fresh there) v = accept now fresh there v v.accepting
  registry_event refused v = done (refuse v v.accepting)
  registry_event (received a bytes) v = at_address a (complete_read h now bytes) v (v.session_at a)
  registry_event (read_failed a) v = at_address a (fail_read h now) v (v.session_at a)
  registry_event (written a error) v =
      at_address a (λ s. complete_write h now error s >>= λ r. done r.1) v (v.session_at a)
  registry_event (reset a) v = at_address a lose_peer v (v.session_at a)

-- What can be seen of network_server::run.
pub data Observed : Type 0 where
  waits : Registry → Observed
  returns : Registry → Observed
  caught : (n : ℕ) → Observed
  ended : (n : ℕ) → Observed
  undefined : (n : ℕ) → Observed

abbrev pub observed : Served → Observed
observed (Served.waits w) = waits (registry w)
observed (Served.returns w) = returns (registry w)
observed (Served.caught n) = caught n
observed (Served.ended n) = ended n
observed (Served.undefined n) = undefined n

-- An accept waits, or an operation of some session is under way.
pub data HasWork (v : Registry) : Type 0 where
  accept_waits : (a : ℕ) → v.accepting ≡ some a → HasWork v
  session_waits :
      (a : ℕ) (s : Session) → v.session_at a ≡ some s → is_busy s.pending ≡ true → HasWork v

-- How a handler ends, the `n`th, and what is seen then.
pub data Handles (n : ℕ) (Next : Registry → Observed → Type 0)
    : Outcome Registry → Observed → Type 0 where
  goes_on : (v : Registry) (o : Observed) → Next v o → Handles n Next (done v) o
  catches : Handles n Next thrown (caught n)
  ends : Handles n Next aborted (ended n)
  breaks : Handles n Next fault (undefined n)

module _ (h : Host) (now : ℕ) where
  -- The rules by which the registry serves: it returns as soon as there is no work, or when it is
  -- stopped, and else it waits, or handles what comes next.
  abbrev pub Serves : List Call → ℕ → Registry → Observed → Type 0
  Serves [] n v o = (HasWork v × (o ≡ waits v)) ⊎ (¬ (HasWork v) × (o ≡ returns v))
  Serves (stop ∷ calls) n v o = o ≡ returns v
  Serves (event e ∷ calls) n v o =
      (HasWork v × Handles n (Serves calls (n + 1)) (registry_event h now e v) o)
      ⊎ (¬ (HasWork v) × (o ≡ returns v))

  -- From the start, with the first session and its accept.
  abbrev pub Runs : Fresh → List Call → Observed → Type 0
  Runs fresh calls = Handles 0 (Serves calls 1) (next_session now fresh empty)
