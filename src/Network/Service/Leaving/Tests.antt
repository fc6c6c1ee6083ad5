-- ===== src/Network/Service/Leaving/Tests.antt =====
-- One client's whole connection, at concrete names, with another client that connects in between.
use librtaio.Base.{
  ℕ, ◌≡◌, refl, true, false, [], ◌∷◌, some, done, take, drop, ◌==◌, arith, Bool-cases, inl, inr,
}
use librtaio.Protocol.Messages.{header_with, connect_bytes}
use librtaio.Protocol.Wire.{Header}
use librtaio.Protocol.Send.{sized_header}
use librtaio.Network.Sample.{
  server_host, other_host, hosts_agree, hole_field, memory, long_name, long_name-IsText,
}
use librtaio.Network.Session.Requests.{response_wire}
use librtaio.Network.Exchange.{request_wire}
use librtaio.Network.Exchange.Program.{goodbye, goodbye_wire}
use librtaio.Network.Service.{World, accepted, received, written, handle_event}
use librtaio.Network.Service.Isolation.{IsSound}
use librtaio.Network.Service.Interleaving.{Between, Elsewhere}
use librtaio.Network.Service.Client.{after, has_header, answers, answered}
use librtaio.Network.Service.Accepted.{new_session, has_client, accept_lem}
use librtaio.Network.Service.Leaving.{without, IsGone, client_life}

-- The session at 4 waits for a client.
abbrev start_world : World
start_world = record {
  acceptor = record { handlers = 4 ∷ []; accepting = some 4; started = []; deleted = [] };
  sessions = new_session 4 memory ∷ [];
}

start_world-IsSound : IsSound start_world
unfolding IsSound
start_world-IsSound b = elim (Bool-cases (b == 4)) [ inl e ↦ rw e | inr e ↦ rw e ]

abbrev first_header : Header
first_header = sized_header (header_with 2 0 0 5) (connect_bytes long_name long_name)

abbrev world_0 : World
world_0 = has_client 4 memory 6 [] start_world

abbrev world_2 : World
world_2 = after 4 (has_header server_host 4 first_header [] []) world_0

-- Another client connects.
abbrev world_3 : World
world_3 = has_client 6 [] 8 [] world_2

abbrev world_4 : World
world_4 =
    after 4
      (answers other_host server_host 4 first_header [] (connect_bytes long_name long_name)
        (response_wire server_host 6))
      world_3

abbrev world_6 : World
world_6 =
    after 4
      (answered other_host server_host 4 first_header [] (connect_bytes long_name long_name)
        (response_wire server_host 6))
      world_4

abbrev world_8 : World
world_8 = after 4 (has_header server_host 4 (goodbye 7) [] (response_wire server_host 6)) world_6

number : {m n : ℕ} → some m ≡ some n → m ≡ n
number e = cc

second-Between : Between server_host 4 world_2 world_3
unfolding handle_event
second-Between =
    Between.one_more 5 (accepted (some (8, [])) true) Between.quiet
      (Elsewhere.accepts (λ e. let k : 8 ≡ 4 = number e in absurd (omega arith))
        (λ e. let k : 6 ≡ 4 = number e in absurd (omega arith)))
      (accept_lem 5 6 8 [] [] world_2 refl)

leaving_example :
    let wire = request_wire other_host 5 long_name long_name in
    let end = goodbye_wire other_host 7 in
    (handle_event server_host 6 (accepted (some (6, [])) true) start_world ≡ done world_0)
    × (handle_event server_host 6 (received 4 (take 32 wire)) world_0 ≡ done world_2)
    × (handle_event server_host 6 (received 4 (drop 32 wire)) world_3 ≡ done world_4)
    × (handle_event server_host 6 (written 4 false) world_4 ≡ done world_6)
    × (handle_event server_host 8 (received 4 (take 32 end)) world_6 ≡ done world_8)
    × (handle_event server_host 8 (received 4 (drop 32 end)) world_8 ≡ done (without 4 world_8))
    × IsGone 4 world_8 (without 4 world_8)
leaving_example =
    client_life other_host server_host hosts_agree 5 6 7 8 long_name long_name 4 6 hole_field
      hole_field hole_field hole_field hole_field hole_field hole_field [] [] start_world world_0
      world_3 world_4 world_6 world_8 long_name-IsText long_name-IsText (omega arith) (omega arith)
      (omega arith) (omega arith) start_world-IsSound refl refl (λ e. absurd (omega arith))
      Between.quiet second-Between Between.quiet Between.quiet Between.quiet
