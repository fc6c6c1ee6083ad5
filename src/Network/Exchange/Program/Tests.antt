-- ===== src/Network/Exchange/Program/Tests.antt =====
-- The sample program and its session, at concrete names and times.
use librtaio.Base.{◌≡◌, true, false, [], ◌∷◌, ◌++◌, some, done, ◌>>=◌, take, drop, arith}
use librtaio.Protocol.Messages.{c_string}
use librtaio.Network.Acceptor.{Acceptor}
use librtaio.Network.Session.{
  Server, idle, session_handler, start, connected, complete_read, complete_write,
}
use librtaio.Network.Session.Closing.{IsClosed}
use librtaio.Network.Session.Receive.{working}
use librtaio.Network.Session.Requests.{response_wire}
use librtaio.Network.Exchange.{write_all, request_wire}
use librtaio.Network.Exchange.Program.{goodbye_wire, whole_connection}
use librtaio.Network.Sample.{
  server_host, other_host, hosts_agree, hole_field, memory, long_name, long_name-IsText,
}
use librtaio.Api.Program.{client_main}

abbrev two_sessions : Acceptor
two_sessions = record { handlers = 6 ∷ 4 ∷ []; accepting = some 6; started = 4 ∷ []; deleted = [] }

program_example :
    let wire = request_wire other_host 5 long_name long_name in
    let end = goodbye_wire other_host 7 in
    let answer = response_wire server_host 6 in
    (client_main other_host write_all 5 7 true
        (c_string long_name ++ [])
        (c_string long_name ++ [])
        (some (record { incoming = take 32 answer ∷ drop 32 answer ∷ []; outgoing = [] }))
      ≡ done (
        0,
        "Connect server OK...!" ∷ [],
        some (record { incoming = []; outgoing = wire ++ end }),
      ))
    × (served : Server) × (s' : Server) × (((session_handler 6 4 memory
            >>= (λ s. start (connected s))
            >>= λ session.
                complete_read server_host 6
                  (take 32 wire)
                  (record { session = session; acceptor = two_sessions })
                >>= complete_read server_host 6 (drop 32 wire))
          >>= complete_write server_host 6 false)
        ≡ done (answer, served))
    × ((complete_read server_host 8 (take 32 end) served
          >>= complete_read server_host 8 (drop 32 end))
        ≡ done s')
    × IsClosed (record { session = working 4 memory [] [] idle; acceptor = two_sessions }) s'
program_example =
    whole_connection other_host server_host hosts_agree 5 7 6 8 long_name long_name [] [] [] 4
      hole_field hole_field hole_field hole_field hole_field hole_field hole_field [] two_sessions
      long_name-IsText long_name-IsText (omega arith) (omega arith) (omega arith) (omega arith)
      (omega arith)
