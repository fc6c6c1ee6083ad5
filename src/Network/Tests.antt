-- ===== src/Network/Tests.antt =====
-- The theorems about sessions and their acceptor, at concrete inputs.
use librtaio.Base.{
  inl, inr, ℕ, ◌≡◌, refl, true, false, List, [], ◌∷◌, ◌++◌, some, take, drop, replicate, done,
  ◌>>=◌, ◌==◌, sym, ◌∙◌, if◌then◌else◌, arith,
}
use librtaio.Stream.Host.{Host}
use librtaio.Stream.ByteOrder.{load, be_bytes}
use librtaio.Stream.ByteOrder.Swap.{length-be_bytes, be_bytes-IsBytes}
use librtaio.Stream.Sample.{sample_host}
use librtaio.Protocol.Field.{Field, type_short, scalar, head_mark, msg_value}
use librtaio.Protocol.Decode.Header.{Received, IsReceived, all_bytes}
use librtaio.Protocol.Wire.{word, Header, header_fields, body_wire}
use librtaio.Protocol.RoundTrip.{SameCrc}
use librtaio.Protocol.Messages.{header_with, IsText, connect_bytes, length-connect_bytes}
use librtaio.Network.Acceptor.{Acceptor}
use librtaio.Network.Session.{
  Server, reading, writing, idle, complete_read, packet_mark, handle_mark, handle_read,
  handle_write,
}
use librtaio.Network.Session.Closing.{Closes, failures_close}
use librtaio.Network.Session.Receive.{working, load_head}
use librtaio.Network.Session.AnyHeader.{header_result, receive_any_header}
use librtaio.Network.Session.Replay.{receive_body_again}
use librtaio.Network.Sample.{server_host, other_host, hosts_agree, long_name, long_name-IsText}
use librtaio.Network.Session.Requests.{response_wire, receive_unknown}
use librtaio.Network.Session.Faults.{two_pieces, third_piece_misplaced}
use librtaio.Api.Client.{Socket}

abbrev client : Host
client = sample_host true true

abbrev server : Host
server = sample_host false true

same : SameCrc client server
same bs = refl

abbrev name : List ℕ
name = 104 ∷ 105 ∷ []

abbrev process : List ℕ
process = 120 ∷ []

name-IsText : IsText name
name-IsText = ((omega arith, omega arith), ((omega arith, omega arith), tt))

process-IsText : IsText process
process-IsText = ((omega arith, omega arith), tt)

abbrev blank : Field
blank = scalar type_short 8 "blank"

abbrev two_handlers : Acceptor
two_handlers = record { handlers = 4 ∷ 6 ∷ []; accepting = some 6; started = 4 ∷ []; deleted = [] }

abbrev socket : Socket
socket = record { incoming = []; outgoing = [] }

abbrev at_work : List Field → List ℕ → List ℕ → Server
at_work fields buffer sent = record {
  session = working 4 fields buffer sent idle;
  acceptor = two_handlers;
}

abbrev waits : List Field → List ℕ → List ℕ → ℕ → Server
waits fields buffer sent n = record {
  session = working 4 fields buffer sent (reading 0 n n);
  acceptor = two_handlers;
}

abbrev blanks : List Field
blanks = blank ∷ blank ∷ blank ∷ blank ∷ blank ∷ blank ∷ blank ∷ blank ∷ blank ∷ blank ∷ []

abbrev connect_header : Header
connect_header = header_with 2 21 0 5

failures_example :
    let s = waits blanks (replicate 5 0) [] 5 in
    Closes s (handle_read server 6 true 3 5 s)
    × Closes s (handle_read server 6 false 0 5 s)
    × Closes s (handle_write server 6 true 3 s)
failures_example = failures_close server 6 (waits blanks (replicate 5 0) [] 5) 3 5

unknown_example :
    let fields = header_fields head_mark (header_with 17 13 0 5) 7 [] in
    complete_read server 6 (body_wire client (65 ∷ [])) (waits fields (replicate 13 0) [] 13)
    ≡ done (at_work fields (body_wire client (65 ∷ [])) [])
unfolding msg_value
unknown_example =
    receive_unknown client server same 6 (header_with 17 13 0 5) 7 4 [] [] two_handlers (65 ∷ [])
      (replicate 13 0) (λ e. absurd (omega arith)) (λ e. absurd (omega arith)) refl

pieces_example :
    (complete_read server 6 (1 ∷ 2 ∷ []) (waits blanks (replicate 3 0) [] 5)
      >>= complete_read server 6 (3 ∷ 4 ∷ 5 ∷ []))
    ≡ complete_read server 6 ((1 ∷ 2 ∷ []) ++ (3 ∷ 4 ∷ 5 ∷ [])) (waits blanks (replicate 3 0) [] 5)
pieces_example =
    two_pieces server 6 4 blanks [] two_handlers 5 (replicate 3 0) (1 ∷ 2 ∷ []) (3 ∷ 4 ∷ 5 ∷ [])
      (omega arith) (omega arith) refl (inr (omega arith))

misplaced_example :
    let whole : List ℕ = (1 ∷ 2 ∷ []) ++ ((3 ∷ []) ++ drop 3 (replicate 5 0)) in
    let broken : List ℕ = take 1 whole ++ ((4 ∷ 5 ∷ []) ++ drop 3 whole) in
    (complete_read server 6 (1 ∷ 2 ∷ []) (waits blanks (replicate 5 0) [] 5)
      >>= complete_read server 6 (3 ∷ [])
      >>= complete_read server 6 (4 ∷ 5 ∷ []))
    ≡ (packet_mark server 6 broken >>= λ mark. handle_mark server 6 mark (at_work blanks broken []))
misplaced_example =
    third_piece_misplaced server 6 4 blanks [] two_handlers 5 (replicate 5 0) (1 ∷ 2 ∷ []) (3 ∷ [])
      (4 ∷ 5 ∷ []) (omega arith) (omega arith) (omega arith) refl (inl (omega arith))

abbrev damaged : Received
damaged = record {
  mark = word head_mark;
  method = word 2;
  bsize = word 21;
  ret = word 0;
  time = word 5;
  count = word 1;
  crc = be_bytes 8 77;
}

damaged-IsReceived : IsReceived damaged
damaged-IsReceived = (
  (length-be_bytes 4 head_mark, be_bytes-IsBytes 4 head_mark),
  (length-be_bytes 4 2, be_bytes-IsBytes 4 2),
  (length-be_bytes 4 21, be_bytes-IsBytes 4 21),
  (length-be_bytes 4 0, be_bytes-IsBytes 4 0),
  (length-be_bytes 4 5, be_bytes-IsBytes 4 5),
  (length-be_bytes 4 1, be_bytes-IsBytes 4 1),
  length-be_bytes 8 77,
  be_bytes-IsBytes 8 77,
)

any_header_example :
    let rest : List Field = blank ∷ blank ∷ blank ∷ [] in
    let buffer : List ℕ = all_bytes damaged [] ++ drop 32 (replicate 40 0) in
    complete_read server 6 (all_bytes damaged []) (waits blanks (replicate 40 0) [] 32) ≡ (
      if load server.little damaged.mark == head_mark
      then header_result server 6 damaged damaged-IsReceived 4 rest [] two_handlers buffer
      else done (at_work blanks buffer []))
any_header_example =
    receive_any_header server 6 damaged damaged-IsReceived 4 (blank ∷ blank ∷ blank ∷ []) []
      two_handlers blank blank blank blank blank blank blank (replicate 40 0)
      (λ e. absurd (omega (arith, sym e ∙ load_head false)))

again_example :
    let body = body_wire other_host (connect_bytes long_name long_name) in
    let fields = header_fields head_mark (header_with 2 32 0 5) 7 [] in
    complete_read server_host 6
      (take 32 body)
      (record { session = working 4 fields body [] (reading 0 32 32); acceptor = two_handlers })
    ≡ done (record {
      session =
          working 4 fields body
            (response_wire server_host 6)
            (writing (response_wire server_host 6));
      acceptor = two_handlers;
    })
unfolding msg_value
again_example =
    receive_body_again other_host server_host hosts_agree 6 (header_with 2 32 0 5) 7 4 [] []
      two_handlers long_name long_name long_name-IsText long_name-IsText (omega arith) (omega arith)
      (omega arith) refl (rw (length-connect_bytes long_name long_name))
