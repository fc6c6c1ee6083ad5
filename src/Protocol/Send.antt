-- ===== src/Protocol/Send.antt =====
-- What the send_packet of the server (src/core/network/session_handler.cpp) and that of the client
-- (src/api/rtdb_client_impl.cpp) have in common: the packet is sized, and written to a new buffer.
pub mod Connection
use librtaio.Base.{
  ℕ, suc, ◌+◌, ◌-◌, ◌*◌, ◌%◌, ◌^◌, ◌≤◌, ◌<◌, ◌≡◌, refl, ap, subst, sym, ◌∙◌, Bool, true, false,
  List, [], ◌∷◌, ◌++◌, Option, none, some, length, replicate, set, get_elem?, ltb, lt→ltb,
  if◌then◌else◌, Outcome, done, thrown, access, ◌>>=◌, arith, append-nil, length-replicate,
  drop_all, drop,
}
use librtaio.Stream.Host.{Host}
use librtaio.Stream.Buffer.{ostreambuf}
use librtaio.Stream.Output.{output_stream}
use librtaio.Stream.Output.Words.{open_output, output_stream-open}
use librtaio.Protocol.Field.{Field, field_bsize, to_int, to_size, is_negative, msg_tail}
use librtaio.Protocol.Fields.{Sizes, fields_size}
use librtaio.Protocol.Fields.Size.{Sized, message_size, fields_size_lem}
use librtaio.Protocol.Wire.{Header, message, header_wire, body_wire}
use librtaio.Protocol.Encode.{serialize_packet}
use librtaio.Protocol.Encode.Body.{Body}
use librtaio.Protocol.Encode.Packet.{serialize_packet_lem}
use librtaio.Protocol.Messages.{first_field}

-- std::vector<char>::resize of an empty vector, with an `int`; a negative one is too long.
unfoldable pub resize : ℕ → Outcome (List ℕ)
resize n = if is_negative n then thrown else done (replicate n 0)

-- `fields[FIELD_BSIZE].ivalue = body`.
unfoldable pub store_size : List Field → ℕ → Outcome (List Field)
store_size fields body = access (get_elem? fields field_bsize) >>= λ p.
    done (set fields field_bsize (record p { ivalue = to_size body }))

-- The result, the packet's size, and the buffer.
unfoldable pub encode_packet : Host → List Field → ℕ → Outcome (ℕ × ℕ × List ℕ)
encode_packet h fields len = fields_size fields 0 >>= λ z. store_size fields z.body >>= λ fields'.
    resize z.total >>= λ buffer.
    serialize_packet h (output_stream h (ostreambuf buffer z.total)) fields' len >>= λ r.
    done (r.0, z.total, r.2.buf.written ++ r.2.buf.target)

pub resize_lem : (n : ℕ) → n < 2 ^ 31 → resize n ≡ done (replicate n 0)
unfolding resize
resize_lem n small = rw (lt→ltb n (2 ^ 31) small)

pub resize-negative : (n : ℕ) → is_negative n ≡ true → resize n ≡ thrown
unfolding resize
resize-negative n negative = rw negative

open_replicate :
    (h : Host) (n : ℕ)
    → output_stream h (ostreambuf (replicate n 0) n) ≡ open_output h [] (replicate n 0)
open_replicate h n =
    subst (λ k. output_stream h (ostreambuf (replicate n 0) k) ≡ open_output h [] (replicate n 0))
      (length-replicate n 0) (output_stream-open h (replicate n 0))

-- The header as sent, with the size of the body, and the packet.
abbrev pub sized_header : Header → List ℕ → Header
sized_header m bs = record m { bsize = length bs + 12 }

abbrev pub packet_wire : Host → Header → List ℕ → List ℕ
packet_wire h m bs = header_wire h (sized_header m bs) ++ body_wire h bs

module _ (h : Host) (m : Header) (ps : List Field) (bs : List ℕ) where
  store_size_lem :
      (rest : List Field)
      → length bs + 12 < 2 ^ 31
      → store_size (message m 0 rest) (length bs + 12) ≡ done (message (sized_header m bs) 0 rest)
  unfolding store_size
  store_size_lem rest small = rw (lt→ltb (length bs + 12) (2 ^ 31) small)

  -- A message of less than 2^31 bytes whose fields behind the body's mark, fewer than 2^31 - 20,
  -- take as many bytes as they send (Sized, Body) is sized and encoded completely: the size is 44
  -- more than those of its fields, and the buffer of that size is exactly the packet, with the
  -- size of the body in its header.
  pub encode_packet_lem :
      Sized (to_int m.count) first_field ps (length bs)
      → Body h (some m.count) first_field ps bs
      → length bs + 44 < 2 ^ 31
      → length ps + 20 < 2 ^ 31
      → encode_packet h (message m 0 (ps ++ msg_tail)) (length ps + 9)
        ≡ done (0, length bs + 44, (packet_wire h m bs))
  unfolding encode_packet
  encode_packet_lem sized body fits few =
      let total = length bs + 44 in
      let size_of : length (replicate {A = ℕ} total 0) ≡ total = length-replicate total 0 in
      let none_left : drop total (replicate {A = ℕ} total 0) ≡ [] =
        drop_all total (replicate {A = ℕ} total 0) (omega arith) in
      rw
        (
          fields_size_lem m 0 ps (length bs) sized fits few,
          store_size_lem (ps ++ msg_tail) (omega arith),
          resize_lem total fits,
          open_replicate h total,
          serialize_packet_lem h (sized_header m bs) ps bs (replicate total 0) body (omega arith),
        )
        (rw (none_left, append-nil (packet_wire h m bs)))
