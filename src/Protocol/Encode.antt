-- ===== src/Protocol/Encode.antt =====
-- src/protocol/packet_protocol.cpp: serialize_packet.
pub mod Steps
pub mod Body
pub mod Packet
use librtaio.Base.{
  ℕ, suc, ◌+◌, ◌*◌, ◌%◌, ◌^◌, Bool, true, false, List, [], ◌∷◌, Option, none, some, length, drop,
  get_elem?, ltb, ◌==◌, if◌then◌else◌, Outcome, done, fault, access, ◌>>=◌,
}
use mathlib.Core.Option
use librtaio.Stream.Host.{Host}
use librtaio.Stream.Output.{
  OutputStream, written_bytes, write_char, write_short, write_long, write_llong, write_float,
  write_double, write_char_array, write_short_array, write_long_array, write_llong_array,
  write_float_array, write_double_array,
}
use librtaio.Protocol.ErrorCode.{error_value, err_ok, err_encode_erroe}
use librtaio.Protocol.Field.{
  Field, FieldType, type_char, type_byte, type_short, type_long, type_longlong, type_float,
  type_double, type_unknown, type_end, is_field, field_hcrc, field_bmark, field_count, to_int,
  to_size, is_positive, minus_one,
}

-- `prev->type == TYPE_SHORT || prev->type == TYPE_LONG`: what may hold the length of an array.
abbrev pub is_length : FieldType → Bool
is_length type_short = true
is_length type_long = true
is_length type_char = false
is_length type_byte = false
is_length type_longlong = false
is_length type_float = false
is_length type_double = false
is_length type_unknown = false
is_length type_end = false

module _ (h : Host) where
  -- static crc32.
  abbrev pub crc32 : List ℕ → ℕ
  crc32 bs = h.crc32 bs

  -- The switch for a field with no memory.
  unfoldable pub write_scalar : OutputStream → Field → FieldType → Outcome (Bool × OutputStream)
  write_scalar out p type_char = write_char h out (p.ivalue % 2 ^ 8)
  write_scalar out p type_byte = write_char h out (p.ivalue % 2 ^ 8)
  write_scalar out p type_short = write_short h out (p.ivalue % 2 ^ 16)
  write_scalar out p type_long = write_long h out (p.ivalue % 2 ^ 32)
  write_scalar out p type_longlong = write_llong h out p.ivalue
  write_scalar out p type_float = write_float h out (h.to_float p.fvalue)
  write_scalar out p type_double = write_double h out p.fvalue
  write_scalar out p type_unknown = done (false, out)
  write_scalar out p type_end = done (false, out)

  -- The two switches for a field with memory. What the stream answers is not looked at.
  unfoldable pub write_memory :
      OutputStream → FieldType → List ℕ → ℕ → Outcome (Bool × OutputStream)
  write_memory out type_char mem count = write_char_array h out mem count
  write_memory out type_byte mem count = write_char_array h out mem count
  write_memory out type_short mem count = write_short_array h out mem count
  write_memory out type_long mem count = write_long_array h out mem count
  write_memory out type_longlong mem count = write_llong_array h out mem count
  write_memory out type_float mem count = write_float_array h out mem count
  write_memory out type_double mem count = write_double_array h out mem count
  write_memory out type_unknown mem count = done (false, out)
  write_memory out type_end mem count = done (false, out)

  -- The binary stream of one field; `none` is the early return of ERR_ENCODE_ERROE. `cnt` is
  -- fields[FIELD_COUNT].ivalue and `prev` the field before `p`, where the array has them.
  unfoldable pub write_field :
      Option ℕ → Option Field → Field → OutputStream → Outcome (Option OutputStream)
  unfolding write_scalar write_memory
  write_field cnt prev p out = elim p.memory [
    | none ↦ write_scalar out p p.type >>= λ r. done (some r.1)
    | some mem ↦
        if is_positive p.count
        then (access cnt >>= λ c.
            write_memory out p.type mem (to_size (to_int (p.count * c))) >>= λ r. done (some r.1))
        else (access prev >>= λ q.
            if is_length q.type
            then (if p.count == minus_one
                then (write_memory out p.type mem (to_size (to_int q.ivalue)) >>= λ r.
                    done (some r.1))
                else done (some out))
            else done none)
  ]

  -- The two checksums, computed over what is written so far.
  unfoldable pub fill_crc : ℕ → ℕ → Option ℕ → OutputStream → Field → Field
  fill_crc len n body_base out p =
      let bytes = written_bytes h out in
      if n == field_hcrc
      then (if ltb 0 (length bytes) then record p { ivalue = crc32 bytes } else p)
      else if n + 1 == len
      then elim body_base [
        | none ↦ p
        | some base ↦
            let body = drop base bytes in
            if ltb 0 (length body) then record p { ivalue = crc32 body } else p
      ]
      else p

  -- The loop, from field `n` on; the fields are returned as they are left.
  unfoldable pub serialize_loop :
      ℕ
      → ℕ
      → Option ℕ
      → Option Field
      → Option ℕ
      → List Field
      → OutputStream
      → Outcome (ℕ × List Field × OutputStream)
  unfolding write_field fill_crc error_value
  serialize_loop len n cnt prev body_base [] out = fault
  serialize_loop len n cnt prev body_base (p ∷ ps) out = elim (is_field p.type) [
    | false ↦ done (error_value err_ok, p ∷ ps, out)
    | true ↦
        let p' = fill_crc len n body_base out p in
        let cnt' = if n == field_count then some p'.ivalue else cnt in
        write_field cnt' prev p' out >>= λ r. elim r [
          | none ↦ done (error_value err_encode_erroe, p' ∷ ps, out)
          | some out' ↦
              let base' =
                if n + 1 == field_bmark then some (length (written_bytes h out')) else body_base in
              elim out'.good [
                | false ↦ done (error_value err_encode_erroe, p' ∷ ps, out')
                | true ↦ serialize_loop len (suc n) cnt' (some p') base' ps out' >>= λ rest.
                    done (rest.0, p' ∷ rest.1, rest.2)
              ]
        ]
  ]

  unfoldable pub serialize_packet :
      OutputStream → List Field → ℕ → Outcome (ℕ × List Field × OutputStream)
  serialize_packet out fields len =
      serialize_loop len 0 (Option.map (λ p. p.ivalue) (get_elem? fields field_count)) none none
        fields out
