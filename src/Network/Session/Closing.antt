-- ===== src/Network/Session/Closing.antt =====
-- What it is for a session to be closed, and the failures that close it.
use librtaio.Base.{◌⊎◌, inl, inr, Bool-cases, Outcome, thrown, ℕ, ◌≡◌, ◌≢◌, refl, true, false, done}
use librtaio.Stream.Host.{Host}
use librtaio.Network.Acceptor.{is_member, remove_session_handler}
use librtaio.Network.Acceptor.Handlers.{is_member-erase-same, is_member-erase-other}
use librtaio.Network.Session.{
  Server, idle, delete_session, remote_endpoint, close, handle_read, handle_write,
}

-- The session of `s` is deleted, waits for nothing and is not in the acceptor's set any more; all
-- other sessions are where they were.
pub record IsClosed (s s' : Server) : Type 0 where
  pub dead : s'.session.live ≡ false
  pub quiet : s'.session.pending ≡ idle
  pub erased : is_member s.session.address s'.acceptor.handlers ≡ false
  pub others :
      (b : ℕ)
      → b ≢ s.session.address
      → is_member b s'.acceptor.handlers ≡ is_member b s.acceptor.handlers

pub delete_session-IsClosed : (s : Server) → IsClosed s (delete_session s)
unfolding remove_session_handler
delete_session-IsClosed s = record {
  dead = refl;
  quiet = refl;
  erased = is_member-erase-same s.session.address s.acceptor.handlers;
  others = λ b ne. is_member-erase-other b s.session.address s.acceptor.handlers ne;
}

-- How close() ends.
abbrev pub Closes : Server → Outcome Server → Type 0
Closes s o =
    ((s.session.peer ≡ true) × (s' : Server) × (o ≡ done s') × IsClosed s s')
    ⊎ ((s.session.peer ≡ false) × (o ≡ thrown))

pub close-Closes : (s : Server) → Closes s (close s)
unfolding close remote_endpoint
close-Closes s = elim (Bool-cases s.session.peer) [
  | inl e ↦ inl (e, delete_session s, rw e, delete_session-IsClosed s)
  | inr e ↦ inr (e, rw e)
]

module _ (h : Host) (now : ℕ) (s : Server) where
  -- A read that fails, a read that gives no bytes, and a write that fails each close the session,
  -- in any state. Where its socket has a remote endpoint it is deleted and waits for nothing, the
  -- acceptor's set does not hold it any more, and all other sessions stay in the set (IsClosed);
  -- where the socket has lost it, asking for the endpoint throws out of the handler before
  -- anything is deleted.
  pub failures_close :
      (transferred want : ℕ)
      → Closes s (handle_read h now true transferred want s)
        × Closes s (handle_read h now false 0 want s)
        × Closes s (handle_write h now true transferred s)
  unfolding handle_read handle_write
  failures_close transferred want = (close-Closes s, close-Closes s, close-Closes s)
