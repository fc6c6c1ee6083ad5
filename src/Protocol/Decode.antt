-- ===== src/Protocol/Decode.antt =====
-- src/protocol/packet_protocol.cpp: unserialize_header_packet and unserialize_body_packet.
pub mod Steps
pub mod Header
pub mod Body
pub mod Packet
pub mod Short
use librtaio.Base.{
  ℕ, suc, ◌+◌, ◌*◌, Bool, true, false, List, [], ◌∷◌, ◌++◌, ◌&&◌, not, Option, none, some, length,
  take, drop, get_elem?, ltb, ◌==◌, if◌then◌else◌, Outcome, done, fault, access, ◌>>=◌,
}
use librtaio.Stream.Host.{Host}
use librtaio.Stream.Input.{
  InputStream, read_char, read_short, read_long, read_llong, read_float, read_double,
  read_char_array, read_short_array, read_long_array, read_llong_array, read_float_array,
  read_double_array,
}
use librtaio.Protocol.ErrorCode.{error_value, err_ok, err_decode_erroe, err_check_crc_error}
use librtaio.Protocol.Field.{
  Field, FieldType, type_char, type_byte, type_short, type_long, type_longlong, type_float,
  type_double, type_unknown, type_end, is_field, field_hmark, field_hcrc, field_bmark, field_count,
  head_mark, sign_extend, to_int, to_size, is_positive, is_negative, minus_one,
}
use librtaio.Protocol.Encode.{is_length}

-- The local variables that the fields are read into.
pub record Scratch : Type 0 where
  pub c_val : ℕ
  pub s_val : ℕ
  pub l_val : ℕ
  pub ll_val : ℕ
  pub f_val : ℕ
  pub d_val : ℕ

abbrev pub scratch : Scratch
scratch = record { c_val = 0; s_val = 0; l_val = 0; ll_val = 0; f_val = 0; d_val = 0 }

module _ (h : Host) where
  -- The switch for a field with no memory: a signed value is extended to `long long`.
  unfoldable pub read_scalar :
      InputStream → Scratch → Field → FieldType → Outcome (Field × Scratch × InputStream)
  read_scalar s v p type_char = read_char h s v.c_val >>= λ r.
      done (record p { ivalue = sign_extend 8 r.1 }, record v { c_val = r.1 }, r.2)
  read_scalar s v p type_byte = read_char h s v.c_val >>= λ r.
      done (record p { ivalue = sign_extend 8 r.1 }, record v { c_val = r.1 }, r.2)
  read_scalar s v p type_short = read_short h s v.s_val >>= λ r.
      done (record p { ivalue = sign_extend 16 r.1 }, record v { s_val = r.1 }, r.2)
  read_scalar s v p type_long = read_long h s v.l_val >>= λ r.
      done (record p { ivalue = sign_extend 32 r.1 }, record v { l_val = r.1 }, r.2)
  read_scalar s v p type_longlong = read_llong h s v.ll_val >>= λ r.
      done (record p { ivalue = r.1 }, record v { ll_val = r.1 }, r.2)
  read_scalar s v p type_float = read_float h s v.f_val >>= λ r.
      done (record p { fvalue = h.to_double r.1 }, record v { f_val = r.1 }, r.2)
  read_scalar s v p type_double = read_double h s v.d_val >>= λ r.
      done (record p { fvalue = r.1 }, record v { d_val = r.1 }, r.2)
  read_scalar s v p type_unknown = done (p, v, s)
  read_scalar s v p type_end = done (p, v, s)

  -- The loop of unserialize_header_packet, from field `n` on.
  unfoldable pub header_loop :
      Bool → ℕ → List Field → Scratch → InputStream → Outcome (ℕ × List Field × InputStream)
  unfolding read_scalar error_value
  header_loop compare_crc n [] v s = fault
  header_loop compare_crc n (p ∷ ps) v s = elim (is_field p.type) [
    | false ↦ done (error_value err_ok, p ∷ ps, s)
    | true ↦
        let seen = s.buf.consumed in
        let crc = if ltb 0 (length seen) && compare_crc then h.crc32 seen else 0 in
        let field_read : Outcome (Field × Scratch × InputStream) = elim p.memory [
          | none ↦ read_scalar s v p p.type
          | some mem ↦ done (p, v, s)
        ] in
        field_read >>= λ r.
        let result : ℕ → Outcome (ℕ × List Field × InputStream) =
          λ code. done (code, r.0 ∷ ps, r.2) in
        let next : Outcome (ℕ × List Field × InputStream) = elim r.2.good [
          | false ↦ result (error_value err_decode_erroe)
          | true ↦ header_loop compare_crc (suc n) ps r.1 r.2 >>= λ rest.
              done (rest.0, r.0 ∷ rest.1, rest.2)
        ] in
        if n == field_hmark
        then (if to_int r.0.ivalue == head_mark
            then next
            else result (error_value err_decode_erroe))
        else if n == field_hcrc
        then result (
            if compare_crc && not (crc == to_int r.0.ivalue)
            then error_value err_check_crc_error
            else error_value err_ok)
        else next
  ]

  unfoldable pub unserialize_header_packet :
      InputStream → List Field → Bool → Outcome (ℕ × List Field × InputStream)
  unserialize_header_packet s fields compare_crc = header_loop compare_crc 0 fields scratch s

  -- The two switches for a field with memory.
  unfoldable pub read_memory :
      InputStream → FieldType → List ℕ → ℕ → Outcome (Bool × List ℕ × InputStream)
  read_memory s type_char mem count = read_char_array h s mem count
  read_memory s type_byte mem count = read_char_array h s mem count
  read_memory s type_short mem count = read_short_array h s mem count
  read_memory s type_long mem count = read_long_array h s mem count
  read_memory s type_longlong mem count = read_llong_array h s mem count
  read_memory s type_float mem count = read_float_array h s mem count
  read_memory s type_double mem count = read_double_array h s mem count
  read_memory s type_unknown mem count = done (false, mem, s)
  read_memory s type_end mem count = done (false, mem, s)

  -- One field of the body; `none` is the early return of ERR_DECODE_ERROE. `cnt` is the `int`
  -- value of fields[FIELD_COUNT].
  unfoldable pub read_field :
      ℕ → Field → Scratch → Field → InputStream → Outcome (Option (Field × Scratch × InputStream))
  unfolding read_scalar read_memory
  read_field cnt prev v p s = elim p.memory [
    | none ↦ read_scalar s v p p.type >>= λ r. done (some r)
    | some mem ↦
        let fill : ℕ → Outcome (Option (Field × Scratch × InputStream)) = λ count.
          read_memory s p.type mem (to_size count) >>= λ r.
          done (some (record p { memory = some r.1 }, v, r.2)) in
        let unchanged : Outcome (Option (Field × Scratch × InputStream)) = done (some (p, v, s)) in
        if not (is_negative p.count)
        then fill (to_int (cnt * p.count))
        else if not (is_length prev.type)
        then done none
        else if p.count == minus_one
        then elim prev.memory [
          | some _ ↦ done none
          | none ↦
              let count = to_int prev.ivalue in if is_positive count then fill count else unchanged
        ]
        else unchanged
  ]

  -- The loop of unserialize_body_packet, from field `n` on. `base` is where the body begins.
  unfoldable pub body_loop :
      Bool
      → ℕ
      → ℕ
      → ℕ
      → ℕ
      → ℕ
      → Field
      → Scratch
      → List Field
      → InputStream
      → Outcome (ℕ × List Field × InputStream)
  unfolding error_value
  body_loop compare_crc len cnt base n crc prev v [] s = fault
  body_loop compare_crc len cnt base n crc prev v (p ∷ ps) s = elim (is_field p.type) [
    | false ↦ done (error_value err_ok, p ∷ ps, s)
    | true ↦
        let seen = drop base s.buf.consumed in
        let is_last = n + 1 == len in
        let crc' = if is_last && compare_crc && ltb 0 (length seen) then h.crc32 seen else crc in
        read_field cnt prev v p s >>= λ r. elim r [
          | none ↦ done (error_value err_decode_erroe, p ∷ ps, s)
          | some (p', v', s') ↦
              let wrong = is_last && compare_crc && not (to_int p'.ivalue == crc') in
              let next : Outcome (ℕ × List Field × InputStream) =
                body_loop compare_crc len cnt base (suc n) crc' p' v' ps s' >>= λ rest.
                done (rest.0, p' ∷ rest.1, rest.2) in
              if wrong then done (error_value err_check_crc_error, p' ∷ ps, s') else next
        ]
  ]

  unfoldable pub unserialize_body_packet :
      InputStream → List Field → ℕ → Bool → Outcome (ℕ × List Field × InputStream)
  unserialize_body_packet s fields len compare_crc =
      access (get_elem? fields field_count) >>= λ count.
      access (get_elem? fields field_hcrc) >>= λ hcrc.
      body_loop compare_crc len (to_int count.ivalue) (length s.buf.consumed) field_bmark 0 hcrc
        scratch (drop field_bmark fields) s
      >>= λ r. done (r.0, take field_bmark fields ++ r.1, r.2)
