-- ===== src/Network/Service/Registry/Tests.antt =====
-- The service and its registry, at concrete events.
use librtaio.Base.{◌≡◌, refl, true, false, [], ◌∷◌, none, some, replicate, done, arith, ℕ}
use librtaio.Network.Acceptor.{remove_session_handler}
use librtaio.Network.Session.{Session, reading, remote_endpoint, fail_read, handle_read, close}
use librtaio.Network.Session.Receive.{working}
use librtaio.Network.Sample.{server_host}
use librtaio.Network.Service.{
  World, accepted, received, read_failed, reset, event, stop, handle_event, run_server,
}
use librtaio.Network.Service.Registry.{registry, observed, Runs}
use librtaio.Network.Service.Registry.Run.{run_server-Runs}
use librtaio.Network.Service.Order.{ByClient, client_order}

run_example :
    let calls =
      event (accepted (some (6, [])) true)
      ∷ event (received 4 (1 ∷ 2 ∷ []))
      ∷ event (read_failed 4)
      ∷ stop
      ∷ [] in
    Runs server_host 5
      (some (4, []))
      calls
      (observed (run_server server_host 5 (some (4, [])) calls))
run_example = run_server-Runs server_host 5 (some (4, [])) (
    event (accepted (some (6, [])) true)
    ∷ event (received 4 (1 ∷ 2 ∷ []))
    ∷ event (read_failed 4)
    ∷ stop
    ∷ [])

-- A session at work at an address.
abbrev at : ℕ → Session
at a = working a [] (replicate 32 0) [] (reading 0 32 32)

abbrev both : World
both = record {
  acceptor = record { handlers = 6 ∷ 4 ∷ []; accepting = none; started = []; deleted = [] };
  sessions = at 4 ∷ at 6 ∷ [];
}

-- After the client of the session at 4 has reset its connection, and then the one at 6 has gone.
abbrev one_reset : World
one_reset = record both { sessions = record (at 4) { peer = false } ∷ at 6 ∷ [] }

abbrev one_left : World
one_left = record {
  acceptor = record { handlers = 4 ∷ []; accepting = none; started = []; deleted = [] };
  sessions = record (at 4) { peer = false } ∷ [];
}

order_example :
    (w2 : World) × (w21 : World) × (handle_event server_host 6 (read_failed 6) both ≡ done w2)
    × (handle_event server_host 5 (reset 4) w2 ≡ done w21)
    × (registry w21 ≡ registry one_left)
unfolding handle_event fail_read handle_read close remote_endpoint remove_session_handler
order_example =
    client_order 4 6 (λ e. absurd (omega arith)) server_host 5 6 (reset 4) (read_failed 6) both
      one_reset one_left ByClient.resets ByClient.fails refl refl
