-- ===== src/Protocol/Kinds/Arrays.antt =====
-- The array fields of src/protocol/packet_protocol.h with a count of their own: what one host sends for
-- such a field, and what another makes of it.
use Prim.Native.String.{String}
use librtaio.Base.{
  true, false, ℕ, ◌*◌, ◌^◌, ◌<◌, ◌≤◌, ◌≡◌, sym, subst, List, ◌++◌, Option, some, length, drop, done,
  arith,
}
use librtaio.Stream.Host.{Host}
use librtaio.Stream.Output.{
  write_array, write_char_array, write_short_array, write_long_array, write_float_array,
  write_double_array,
}
use librtaio.Stream.Output.Words.{open_output}
use librtaio.Stream.Output.Arrays.{
  Sends, write_array_1, write_array_2, write_array_4, write_array_8,
}
use librtaio.Stream.Input.{
  read_array, read_char_array, read_short_array, read_long_array, read_float_array,
  read_double_array,
}
use librtaio.Stream.Input.Words.{past_input}
use librtaio.Stream.Input.Arrays.{Restores, read_array_1, read_array_2, read_array_4, read_array_8}
use librtaio.Stream.Values.{memory_of, net_elems-memory_of, length-memory_of, memory_of-IsBytes}
use librtaio.Protocol.Field.{
  Field, FieldType, type_char, type_byte, type_short, type_long, type_float, type_double,
  is_negative,
}
use librtaio.Protocol.Encode.{write_field, write_memory}
use librtaio.Protocol.Decode.{Scratch, read_field, read_memory}
use librtaio.Protocol.Decode.Body.{length_value, positive_value}

-- The types whose arrays are sent as they should be, with the size of an element. An array of
-- type_longlong is sent by half only.
pub data IsArray : FieldType → ℕ → Type 0 where
  char : IsArray type_char 1
  byte : IsArray type_byte 1
  short : IsArray type_short 2
  long : IsArray type_long 4
  float : IsArray type_float 4
  double : IsArray type_double 8

-- A field with a memory and a positive count.
abbrev pub array_field : FieldType → List ℕ → ℕ → String → Field
array_field t mem k n = record {
  type = t;
  ivalue = 0;
  fvalue = 0;
  memory = some mem;
  count = k;
  name = n;
}

module _ (h : Host) (vs : List ℕ) where
  -- Where write_array and read_array go through the network order, they go through the same bytes.
  writes :
      (w : ℕ)
      → Sends h w
      → (written target : List ℕ) → w * length vs ≤ length target
      → write_array h (open_output h written target) (memory_of h.little w vs) w (length vs)
        ≡ done (true, open_output h (written ++ memory_of false w vs) (drop (w * length vs) target))
  writes w sends written target room =
      subst
        (λ bs.
          write_array h (open_output h written target) (memory_of h.little w vs) w (length vs)
          ≡ done (true, open_output h (written ++ bs) (drop (w * length vs) target)))
        (net_elems-memory_of h.little w vs)
        (sends (length vs) (memory_of h.little w vs) written target
          (omega (arith, length-memory_of h.little w vs)) room)

  reads :
      (w beyond : ℕ)
      → Restores h w beyond
      → (dest consumed rest : List ℕ) → w * length vs < 2 ^ 63
      → length dest ≡ w * length vs
      → read_array h
          (past_input h beyond consumed (memory_of false w vs ++ rest))
          dest
          w
          (length vs)
        ≡ done (
          true,
          memory_of h.little w vs,
          past_input h beyond (consumed ++ memory_of false w vs) rest,
        )
  reads w beyond restores dest consumed rest small e =
      subst
        (λ bs.
          read_array h (past_input h beyond consumed (bs ++ rest)) dest w (length vs)
          ≡ done (true, memory_of h.little w vs, past_input h beyond (consumed ++ bs) rest))
        (net_elems-memory_of h.little w vs)
        (restores (length vs) (memory_of h.little w vs) dest consumed rest small
          (length-memory_of h.little w vs) e (memory_of-IsBytes h.little w vs))

  write_memory_lem :
      (t : FieldType) (w : ℕ)
      → IsArray t w
      → (written target : List ℕ) → w * length vs ≤ length target
      → write_memory h (open_output h written target) t (memory_of h.little w vs) (length vs)
        ≡ done (true, open_output h (written ++ memory_of false w vs) (drop (w * length vs) target))
  unfolding write_memory write_char_array write_short_array write_long_array write_float_array
      write_double_array
  write_memory_lem t w char written target room = writes 1 (write_array_1 h) written target room
  write_memory_lem t w byte written target room = writes 1 (write_array_1 h) written target room
  write_memory_lem t w short written target room = writes 2 (write_array_2 h) written target room
  write_memory_lem t w long written target room = writes 4 (write_array_4 h) written target room
  write_memory_lem t w float written target room = writes 4 (write_array_4 h) written target room
  write_memory_lem t w double written target room = writes 8 (write_array_8 h) written target room

  read_memory_lem :
      (t : FieldType) (w beyond : ℕ)
      → IsArray t w
      → (dest consumed rest : List ℕ) → w * length vs < 2 ^ 63
      → length dest ≡ w * length vs
      → read_memory h
          (past_input h beyond consumed (memory_of false w vs ++ rest))
          t
          dest
          (length vs)
        ≡ done (
          true,
          memory_of h.little w vs,
          past_input h beyond (consumed ++ memory_of false w vs) rest,
        )
  unfolding read_memory read_char_array read_short_array read_long_array read_float_array
      read_double_array
  read_memory_lem t w beyond char dest consumed rest small e =
      reads 1 beyond (read_array_1 h beyond) dest consumed rest small e
  read_memory_lem t w beyond byte dest consumed rest small e =
      reads 1 beyond (read_array_1 h beyond) dest consumed rest small e
  read_memory_lem t w beyond short dest consumed rest small e =
      reads 2 beyond (read_array_2 h beyond) dest consumed rest small e
  read_memory_lem t w beyond long dest consumed rest small e =
      reads 4 beyond (read_array_4 h beyond) dest consumed rest small e
  read_memory_lem t w beyond float dest consumed rest small e =
      reads 4 beyond (read_array_4 h beyond) dest consumed rest small e
  read_memory_lem t w beyond double dest consumed rest small e =
      reads 8 beyond (read_array_8 h beyond) dest consumed rest small e

not_negative : (k : ℕ) → k < 2 ^ 31 → is_negative k ≡ false
not_negative k small = ground arith

bytes_bound : (t : FieldType) (w n : ℕ) → IsArray t w → n < 2 ^ 31 → w * n < 2 ^ 63
bytes_bound t w n char small = omega arith
bytes_bound t w n byte small = omega arith
bytes_bound t w n short small = omega arith
bytes_bound t w n long small = omega arith
bytes_bound t w n float small = omega arith
bytes_bound t w n double small = omega arith

-- An array field with a positive count and elements of type char, byte, short, long, float or
-- double; its number of elements, that count times the header's, is below 2^31, as is the count.
-- One host holds the values `vs` in its memory and writes the field to a stream with room, and a
-- host of either byte order reads the bytes that were appended into a field whose memory has the
-- same size. Then its memory holds `vs` too, each in that host's byte order.
pub array_field_round_trip :
    (h0 h : Host) (t : FieldType) (w c k : ℕ) (prev0 : Option Field) (prev : Field)
    (vs dest : List ℕ) (n : String) (s : Scratch) (beyond : ℕ)
    (written target consumed rest : List ℕ)
    → IsArray t w
    → 0 < k
    → length vs ≡ k * c
    → length vs < 2 ^ 31
    → k < 2 ^ 31
    → length dest ≡ w * length vs
    → w * length vs ≤ length target
    → let sent = memory_of false w vs in
      (write_field h0
          (some c)
          prev0
          (array_field t (memory_of h0.little w vs) k n)
          (open_output h0 written target)
        ≡ done (some (open_output h0 (written ++ sent) (drop (w * length vs) target))))
      × (read_field h c prev s
            (array_field t dest k n)
            (past_input h beyond consumed (sent ++ rest))
          ≡ done (
              some (
                array_field t (memory_of h.little w vs) k n,
                s,
                past_input h beyond (consumed ++ sent) rest,
              )))
unfolding write_field read_field
array_field_round_trip h0 h t w c k prev0 prev vs dest n s beyond written target consumed rest kind
      some_count number small small_count size room =
    let size_sent = length_value h0 (length vs) small in
    let size_read = length_value h (length vs) small in
    let count : k * c ≡ length vs = sym number in
    let count_read : c * k ≡ length vs = omega arith in
    (
      rw (
        positive_value h0 k some_count small_count,
        count,
        size_sent.0,
        size_sent.1,
        write_memory_lem h0 vs t w kind written target room,
      ),
      rw (
        not_negative k small_count,
        count_read,
        size_read.0,
        size_read.1,
        read_memory_lem h vs t w beyond kind dest consumed rest
            (bytes_bound t w (length vs) kind small) size,
      ),
    )
