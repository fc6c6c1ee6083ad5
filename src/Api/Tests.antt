-- ===== src/Api/Tests.antt =====
-- The theorems about the client, at concrete inputs.
use librtaio.Base.{◌≡◌, refl, true, false, [], ◌∷◌, ◌++◌, drop, replicate, done, arith}
use librtaio.Stream.Host.{Host}
use librtaio.Stream.Sample.{sample_host}
use librtaio.Protocol.Field.{msg_tail}
use librtaio.Protocol.Wire.{Header, message, header_wire}
use librtaio.Protocol.RoundTrip.{SameCrc}
use librtaio.Protocol.Messages.{header_with, response_fields, response-Sized}
use librtaio.Api.Client.{recv_loop, recv_packet}
use librtaio.Api.Receive.{other_result, recv_packet_other, recv_loop_overwrites}

abbrev client : Host
client = sample_host true true

abbrev server : Host
server = sample_host false true

same : SameCrc server client
same bs = refl

abbrev refusal : Header
refusal = record { method = 1; bsize = 12; ret = 9; time = 5; count = 1 }

other_example :
    let fields = message (header_with 2 0 0 6) 0 (response_fields 0 ++ msg_tail) in
    recv_packet client 6 fields 10
      (record { incoming = header_wire server refusal ∷ replicate 12 7 ∷ []; outgoing = [] })
    ≡ done (other_result refusal, fields, record { incoming = []; outgoing = [] })
other_example =
    recv_packet_other server client same 6 refusal (header_with 2 0 0 6) (response_fields 0) 2 10
      (replicate 12 7) [] []
      (record { method = refl; bsize = refl; ret = refl; time = refl; count = refl })
      (λ e. absurd (omega arith)) refl (omega arith) (omega arith) (response-Sized 0) (omega arith)
      (omega arith)

overwrites_example :
    recv_loop (replicate 5 0) 5 ((1 ∷ 2 ∷ 3 ∷ []) ∷ (4 ∷ 5 ∷ []) ∷ [])
    ≡ done ((4 ∷ 5 ∷ []) ++ drop 2 ((1 ∷ 2 ∷ 3 ∷ []) ++ drop 3 (replicate 5 0)), [])
overwrites_example =
    recv_loop_overwrites 5 (replicate 5 0) (1 ∷ 2 ∷ 3 ∷ []) (4 ∷ 5 ∷ []) [] (omega arith)
      (omega arith) refl refl
