-- ===== src/Protocol/Decode/Header.antt =====
-- unserialize_header_packet on the 32 bytes of a header.
use librtaio.Base.{
  ℕ, ◌%◌, ◌^◌, ◌≡◌, Bool, not, ◌&&◌, List, [], ◌∷◌, ◌++◌, length, ◌==◌, if◌then◌else◌, done, arith,
  length-append, append_assoc,
}
use librtaio.Stream.Host.{Host}
use librtaio.Stream.ByteOrder.{of_be}
use librtaio.Stream.ByteOrder.Swap.{IsBytes}
use librtaio.Stream.Input.Words.{open_input}
use librtaio.Protocol.Field.{Field, type_long, type_longlong, scalar, sign_extend, head_mark}
use librtaio.Protocol.ErrorCode.{error_value, err_ok, err_decode_erroe, err_check_crc_error}
use librtaio.Protocol.Decode.{Scratch, scratch, unserialize_header_packet}
use librtaio.Protocol.Decode.Steps.{header-mark, header-step, header-crc}
use librtaio.Protocol.Wire.{Header, header_fields}

-- The bytes of a header that arrived, cut at the fields.
pub record Received : Type 0 where
  pub mark : List ℕ
  pub method : List ℕ
  pub bsize : List ℕ
  pub ret : List ℕ
  pub time : List ℕ
  pub count : List ℕ
  pub crc : List ℕ

abbrev pub IsWord : List ℕ → Type 0
IsWord bs = (length bs ≡ 4) × IsBytes bs

abbrev pub IsReceived : Received → Type 0
IsReceived r =
    IsWord r.mark
    × IsWord r.method
    × IsWord r.bsize
    × IsWord r.ret
    × IsWord r.time
    × IsWord r.count
    × (length r.crc ≡ 8)
    × IsBytes r.crc

-- What the checksum covers, and all of it in front of what follows.
abbrev pub covered : Received → List ℕ
covered r = r.mark ++ (r.method ++ (r.bsize ++ (r.ret ++ (r.time ++ r.count))))

abbrev pub all_bytes : Received → List ℕ → List ℕ
all_bytes r rest =
    r.mark ++ (r.method ++ (r.bsize ++ (r.ret ++ (r.time ++ (r.count ++ (r.crc ++ rest))))))

-- A 32-bit value as the `long long` of a field.
abbrev pub value_of : List ℕ → ℕ
value_of bs = sign_extend 32 (of_be bs)

abbrev pub header_of : Received → Header
header_of r = record {
  method = value_of r.method;
  bsize = value_of r.bsize;
  ret = value_of r.ret;
  time = value_of r.time;
  count = value_of r.count;
}

module _ (h : Host) where
  abbrev pub header_code : Bool → Received → ℕ
  header_code compare_crc r =
      if compare_crc && not (h.crc32 (covered r) == of_be r.crc % 2 ^ 32)
      then error_value err_check_crc_error
      else error_value err_ok

  -- For every 32 bytes of a header, whatever follows them: a wrong mark stops the decoder after
  -- four bytes with ERR_DECODE_ERROE; otherwise all seven fields are filled in, and the result is
  -- ERR_CHECK_CRC_ERROR if the checksum is compared and differs, and ERR_OK if not.
  pub unserialize_header_packet_lem :
      (compare_crc : Bool) (r : Received) (hmark hcrc : ℕ) (m : Header) (fields : List Field)
      (rest : List ℕ)
      → IsReceived r
      → unserialize_header_packet h
          (open_input h [] (all_bytes r rest))
          (header_fields hmark m hcrc fields)
          compare_crc
        ≡ (if of_be r.mark == head_mark
            then done (
              header_code compare_crc r,
              header_fields (value_of r.mark) (header_of r) (of_be r.crc) fields,
              open_input h (covered r ++ r.crc) rest,
            )
            else done (
              error_value err_decode_erroe,
              header_fields (value_of r.mark) m hcrc fields,
              open_input h r.mark
                  (r.method ++ (r.bsize ++ (r.ret ++ (r.time ++ (r.count ++ (r.crc ++ rest)))))),
            ))
  unfolding unserialize_header_packet
  unserialize_header_packet_lem compare_crc r hmark hcrc m fields rest
        ((l0, b0), (l1, b1), (l2, b2), (l3, b3), (l4, b4), (l5, b5), l6, b6) =
      let w0 : List ℕ = [] in
      let v0 : Scratch = scratch in
      let w1 : List ℕ = w0 ++ r.mark in
      let v1 : Scratch = record v0 { l_val = of_be r.mark } in
      let w2 : List ℕ = w1 ++ r.method in
      let v2 : Scratch = record v1 { l_val = of_be r.method } in
      let w3 : List ℕ = w2 ++ r.bsize in
      let v3 : Scratch = record v2 { l_val = of_be r.bsize } in
      let w4 : List ℕ = w3 ++ r.ret in
      let v4 : Scratch = record v3 { l_val = of_be r.ret } in
      let w5 : List ℕ = w4 ++ r.time in
      let v5 : Scratch = record v4 { l_val = of_be r.time } in
      let w6 : List ℕ = w5 ++ r.count in
      let v6 : Scratch = record v5 { l_val = of_be r.count } in
      let a6 : List ℕ = r.crc ++ rest in
      let p6 : List Field = scalar type_longlong hcrc "hcrc" ∷ fields in
      let a5 : List ℕ = r.count ++ a6 in
      let p5 : List Field = scalar type_long m.count "count" ∷ p6 in
      let a4 : List ℕ = r.time ++ a5 in
      let p4 : List Field = scalar type_long m.time "time" ∷ p5 in
      let a3 : List ℕ = r.ret ++ a4 in
      let p3 : List Field = scalar type_long m.ret "ret" ∷ p4 in
      let a2 : List ℕ = r.bsize ++ a3 in
      let p2 : List Field = scalar type_long m.bsize "bsize" ∷ p3 in
      let a1 : List ℕ = r.method ++ a2 in
      let p1 : List Field = scalar type_long m.method "method" ∷ p2 in
      rw
        (
          header-mark h compare_crc hmark "hmark" p1 v0 w0 r.mark a1 l0 b0,
          header-step h compare_crc 1 m.method "method" p2 v1 w1 r.method a2
              (λ e. absurd (omega arith)) (λ e. absurd (omega arith)) l1 b1,
          header-step h compare_crc 2 m.bsize "bsize" p3 v2 w2 r.bsize a3
              (λ e. absurd (omega arith)) (λ e. absurd (omega arith)) l2 b2,
          header-step h compare_crc 3 m.ret "ret" p4 v3 w3 r.ret a4 (λ e. absurd (omega arith))
              (λ e. absurd (omega arith)) l3 b3,
          header-step h compare_crc 4 m.time "time" p5 v4 w4 r.time a5 (λ e. absurd (omega arith))
              (λ e. absurd (omega arith)) l4 b4,
          header-step h compare_crc 5 m.count "count" p6 v5 w5 r.count a6
              (λ e. absurd (omega arith)) (λ e. absurd (omega arith)) l5 b5,
          header-crc h compare_crc hcrc "hcrc" fields v6 w6 r.crc rest
              (omega (arith, length-append {0})) l6 b6,
        )
        (simp append_assoc)
