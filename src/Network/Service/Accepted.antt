-- ===== src/Network/Service/Accepted.antt =====
-- A client's connection to the service from its accept on.
use librtaio.Base.{
  ℕ, ◌^◌, ◌<◌, ◌≡◌, ◌≢◌, refl, ap, ◌∙◌, true, false, List, [], ◌∷◌, some, length, replicate, take,
  drop, ◌==◌, ne→eq, done, arith, Always-done,
}
use librtaio.Stream.Host.{Host}
use librtaio.Protocol.Field.{Field}
use librtaio.Protocol.Fields.Size.{fields_size_lem, Sized}
use librtaio.Protocol.Messages.{header_with, common_request, IsText, connect_bytes}
use librtaio.Protocol.Send.{sized_header, resize_lem}
use librtaio.Protocol.RoundTrip.{SameCrc}
use librtaio.Network.Acceptor.{insert, handle_accept}
use librtaio.Network.Session.{Session, idle, reading, session_handler, start, remote_endpoint}
use librtaio.Network.Session.Receive.{working}
use librtaio.Network.Session.Requests.{response_wire}
use librtaio.Network.Exchange.{request_wire}
use librtaio.Network.Service.{
  World, find, forget, put, accepted, received, written, construct, with_peer, accept_session,
  for_accepting, handle_event,
}
use librtaio.Network.Service.Isolation.{IsSound, find-forget-other, find-put-live}
use librtaio.Network.Service.Soundness.{handle_event-IsSound}
use librtaio.Network.Service.Interleaving.{Between}
use librtaio.Network.Service.Client.{after, has_header, answers, answered, client_served}

-- A session that waits for a client to connect.
abbrev pub new_session : ℕ → List Field → Session
new_session address fields = record {
  address = address;
  live = true;
  peer = false;
  header_size = 32;
  packet_header = fields;
  recv_buffer = [];
  send_buffer = [];
  pending = idle;
}

abbrev pub first_wait : ℕ → List Field → Session
first_wait a raw = working a raw (replicate 32 0) [] (reading 0 32 32)

-- The service after the session at `a` got its client, with a new session at `f`.
abbrev pub has_client : ℕ → List Field → ℕ → List Field → World → World
has_client a raw f raw' w = record {
  acceptor = record {
    handlers = insert f w.acceptor.handlers;
    accepting = some f;
    started = a ∷ w.acceptor.started;
    deleted = w.acceptor.deleted;
  };
  sessions = new_session f raw' ∷ forget f (put a (first_wait a raw) w.sessions);
}

session_handler_lem :
    (now address : ℕ) (raw : List Field)
    → session_handler now address raw ≡ done (new_session address raw)
unfolding session_handler
session_handler_lem now address raw = rw (
  common_request now,
  fields_size_lem (header_with 1 0 0 now) 0 [] 0 Sized.end (omega arith) (omega arith),
)

start_lem :
    (a : ℕ) (raw : List Field)
    → start (with_peer true (new_session a raw)) ≡ done (first_wait a raw)
unfolding start remote_endpoint
start_lem a raw = rw (resize_lem 32 (omega arith))

pub accept_lem :
    (now a f : ℕ) (raw raw' : List Field) (w : World)
    → find a w.sessions ≡ some (new_session a raw)
    → accept_session now (some (f, raw')) true a w ≡ done (has_client a raw f raw' w)
unfolding accept_session construct handle_accept
accept_lem now a f raw raw' w found = rw (found, start_lem a raw, session_handler_lem now f raw')

find-has_client :
    (a f : ℕ) (raw raw' : List Field) (w : World)
    → a ≢ f
    → find a (has_client a raw f raw' w).sessions ≡ some (first_wait a raw)
find-has_client a f raw raw' w ne =
    let off : (a == f) ≡ false = ne→eq a f ne in
    rw off (
      find-forget-other f a (put a (first_wait a raw) w.sessions) ne
      ∙ find-put-live a (first_wait a raw) w.sessions refl refl)

module _ (h0 h : Host) (same : SameCrc h0 h) (now0 now : ℕ) where
  -- In a state where the acceptor's set holds exactly the live sessions, a new session waits in
  -- async_accept. Its client connects, and the next session is made at another address; the
  -- client, of either byte order and with the same checksum, sends a connection request with names
  -- of nonzero bytes, each shorter than 1024, at a time below 2^31, in a read of 32 bytes and one
  -- of the rest; and the answer is written. In between, any events of other clients are handled,
  -- and accepts of other sessions (Between). All the same the four handlers are done: the first
  -- starts the session and makes the next one wait in the set, and the others change this session
  -- only, which has the header, then has the answer with ERR_OK to write, and then has written it
  -- and waits for the next header.
  pub client_connected :
      (c p : List ℕ) (a f : ℕ) (o0 o1 o2 o3 o4 o5 o6 : Field) (rest raw' : List Field)
      (w w1 w3 w5 : World)
      → IsText c
      → IsText p
      → length c < 1024
      → length p < 1024
      → now0 < 2 ^ 31
      → IsSound w
      → w.acceptor.accepting ≡ some a
      → let raw = o0 ∷ o1 ∷ o2 ∷ o3 ∷ o4 ∷ o5 ∷ o6 ∷ rest in
        find a w.sessions ≡ some (new_session a raw)
        → a ≢ f
        → let bs = connect_bytes c p in
          let wire = request_wire h0 now0 c p in
          let m = sized_header (header_with 2 0 0 now0) bs in
          let answer = response_wire h now in
          let w0 = has_client a raw f raw' w in
          let w2 = after a (has_header h a m rest []) w1 in
          let w4 = after a (answers h0 h a m rest bs answer) w3 in
          Between h a w0 w1
          → Between h a w2 w3
          → Between h a w4 w5
          → (handle_event h now (accepted (some (f, raw')) true) w ≡ done w0)
            × (handle_event h now (received a (take 32 wire)) w1 ≡ done w2)
            × (handle_event h now (received a (drop 32 wire)) w3 ≡ done w4)
            × (handle_event h now (written a false) w5
                ≡ done (after a (answered h0 h a m rest bs answer) w5))
  unfolding handle_event
  client_connected c p a f o0 o1 o2 o3 o4 o5 o6 rest raw' w w1 w3 w5 ct pt cshort pshort time sound
        waits found ne b1 b3 b5 =
      let raw = o0 ∷ o1 ∷ o2 ∷ o3 ∷ o4 ∷ o5 ∷ o6 ∷ rest in
      let w0 = has_client a raw f raw' w in
      let run0 : handle_event h now (accepted (some (f, raw')) true) w ≡ done w0 =
        ap (for_accepting (accept_session now (some (f, raw')) true) w) waits
        ∙ accept_lem now a f raw raw' w found in
      let sound0 =
        Always-done (handle_event-IsSound h now (accepted (some (f, raw')) true) w sound) run0 in
      let (run1, run3, run5) =
        client_served h0 h same now0 now c p a o0 o1 o2 o3 o4 o5 o6 rest (replicate 32 0) [] w0 w1
          w3 w5 ct pt cshort pshort time sound0 (find-has_client a f raw raw' w ne) b1 b3 b5 in
      (run0, run1, run3, run5)
