-- ===== src/Network/Service/Tests.antt =====
-- The theorems about the service, at concrete events.
use librtaio.Base.{
  take, ◌≡◌, refl, true, false, [], ◌∷◌, some, ◌+◌, Always, replicate, inl, inr, Bool-cases, ◌==◌,
  arith, none,
}
use librtaio.Stream.Host.{Host}
use librtaio.Stream.Sample.{sample_host}
use librtaio.Protocol.Messages.{header_with, common_request}
use librtaio.Protocol.Fields.Size.{fields_size_lem, Sized}
use librtaio.Network.Acceptor.{start_acceptor, handle_accept, remove_session_handler}
use librtaio.Network.Session.{Session, reading, idle, session_handler}
use librtaio.Protocol.Wire.{header_wire, body_wire}
use librtaio.Protocol.Messages.{connect_bytes, length-connect_bytes}
use librtaio.Network.Session.Receive.{working}
use librtaio.Network.Sample.{server_host, other_host, hosts_agree, hole_field, memory, long_name}
use librtaio.Network.Service.CutShort.{cut_header, cut_request_ends_service}
use librtaio.Network.Service.{
  ended, World, accepted, find, refuse_session, received, read_failed, written, reset, event,
  construct, caught, start_service, handle_event, serve,
}
use librtaio.Network.Service.Isolation.{IsSound, Apart, client-Apart, is_live}
use librtaio.Network.Service.Soundness.{Running, Running-IsSound}
use librtaio.Network.Service.Refusal.{no_more_accepts}
use librtaio.Network.Service.Ending.{reset_ends_service}

abbrev host : Host
host = sample_host true true

-- The session at 4 waits for a header.
abbrev session_4 : Session
session_4 = record {
  address = 4;
  live = true;
  peer = true;
  header_size = 32;
  packet_header = [];
  recv_buffer = replicate 32 0;
  send_buffer = [];
  pending = reading 0 32 32;
}

abbrev session_6 : Session
session_6 = record {
  address = 6;
  live = true;
  peer = false;
  header_size = 32;
  packet_header = [];
  recv_buffer = [];
  send_buffer = [];
  pending = idle;
}

abbrev world : World
world = record {
  acceptor = record { handlers = 6 ∷ 4 ∷ []; accepting = some 6; started = 4 ∷ []; deleted = [] };
  sessions = session_6 ∷ session_4 ∷ [];
}

-- After the client of the session at 4 has reset its connection.
abbrev reset_world : World
reset_world = record world { sessions = record session_4 { peer = false } ∷ session_6 ∷ [] }

world-IsSound : IsSound world
unfolding IsSound
world-IsSound b = elim (Bool-cases (b == 6)) [
  | inl e ↦ rw e
  | inr e ↦ elim (Bool-cases (b == 4)) [ inl f ↦ rw (e, f) | inr f ↦ rw (e, f) ]
]

reset_example :
    serve host 5
      (event (reset 4) ∷ event (read_failed 4) ∷ event (received 8 (1 ∷ [])) ∷ [])
      2
      world
    ≡ caught (2 + 1)
reset_example =
    reset_ends_service host 5 4 0 32 32 session_4 world (event (received 8 (1 ∷ [])) ∷ []) 2 refl
      refl refl

client_example :
    Always (Apart 4 world) (handle_event host 5 (received 4 (1 ∷ 2 ∷ [])) world)
    × Always (Apart 4 world) (handle_event host 5 (read_failed 4) world)
    × Always (Apart 4 world) (handle_event host 5 (written 4 true) world)
    × Always (Apart 4 world) (handle_event host 5 (reset 4) world)
client_example = client-Apart host 5 4 (1 ∷ 2 ∷ []) true world world-IsSound

served : Running host (record {
  acceptor = record { handlers = 4 ∷ []; accepting = some 4; started = []; deleted = [] };
  sessions = record session_4 { peer = false; recv_buffer = []; pending = idle } ∷ [];
})
unfolding start_service construct session_handler start_acceptor
served = Running.started 5 (some (4, [])) (
    rw (
      common_request 5,
      fields_size_lem (header_with 1 0 0 5) 0 [] 0 Sized.end (omega arith) (omega arith),
    ))

running_example : IsSound (record {
  acceptor = record { handlers = 4 ∷ []; accepting = some 4; started = []; deleted = [] };
  sessions = record session_4 { peer = false; recv_buffer = []; pending = idle } ∷ [];
})
running_example = Running-IsSound host _ served

-- After the accept of the session at 6 has failed.
abbrev forgotten : World
forgotten = record {
  acceptor = record { handlers = 4 ∷ []; accepting = none; started = 4 ∷ []; deleted = 6 ∷ [] };
  sessions = session_4 ∷ [];
}

refused_example : (forgotten.acceptor.accepting ≡ none) × (is_live (find 4 world.sessions) ≡ true)
unfolding handle_event refuse_session handle_accept remove_session_handler
refused_example =
    no_more_accepts host 5 6 4 (accepted (some (8, [])) true ∷ []) world forgotten world-IsSound
      refl refl refl

abbrev at_work : World
at_work = record world {
  sessions = working 4 memory (replicate 32 0) [] (reading 0 32 32) ∷ session_6 ∷ [];
}

cut_example :
    let body = take 20 (body_wire other_host (connect_bytes long_name long_name)) in
    serve server_host 6
      (event (received 4 (header_wire other_host (cut_header 5 20)))
        ∷ event (received 4 body)
        ∷ event (read_failed 6)
        ∷ [])
      2
      at_work
    ≡ ended (2 + 1)
cut_example =
    let bytes = length-connect_bytes long_name long_name in
    cut_request_ends_service other_host server_host hosts_agree refl 5 6 long_name long_name 20 4
      hole_field hole_field hole_field hole_field hole_field hole_field hole_field []
      (replicate 32 0) [] at_work (event (read_failed 6) ∷ []) 2 (omega arith) (omega arith)
      (omega arith) (omega arith) (omega arith) refl
