-- ===== src/Protocol/Decode/Steps.antt =====
-- One round of the decoders' loops at a scalar field.
use Prim.Native.String.{String}
use librtaio.Base.{
  ℕ, suc, ◌%◌, ◌^◌, ◌<◌, ◌≡◌, ◌≢◌, Bool, not, ◌&&◌, List, [], ◌∷◌, ◌++◌, length, ◌==◌,
  if◌then◌else◌, done, arith, lt→ltb, ne→eq, Bool-cases, inl, inr,
}
use librtaio.Stream.Host.{Host}
use librtaio.Stream.ByteOrder.{of_be}
use librtaio.Stream.ByteOrder.Swap.{IsBytes}
use librtaio.Stream.Input.{read_long, read_llong}
use librtaio.Stream.Input.Words.{open_input, read_4_lem, read_8_lem}
use librtaio.Protocol.Field.{
  Field, type_long, type_longlong, field_hmark, field_hcrc, scalar, sign_extend, to_int, head_mark,
}
use librtaio.Protocol.ErrorCode.{error_value, err_ok, err_decode_erroe, err_check_crc_error}
use librtaio.Protocol.Encode.Steps.{keeping}
use librtaio.Protocol.Decode.{Scratch, header_loop}

pub of_be_lt_4 : (bs : List ℕ) → length bs ≡ 4 → IsBytes bs → of_be bs < 2 ^ 32
of_be_lt_4 [] e b = absurd (omega arith)
of_be_lt_4 (x ∷ []) e b = absurd (omega arith)
of_be_lt_4 (x ∷ y ∷ []) e b = absurd (omega arith)
of_be_lt_4 (x ∷ y ∷ z ∷ []) e b = absurd (omega arith)
of_be_lt_4 (x ∷ y ∷ z ∷ w ∷ []) e b = omega arith
of_be_lt_4 (x ∷ y ∷ z ∷ w ∷ v ∷ bs) e b = absurd (omega arith)

-- Sign extension keeps the low 32 bits.
pub to_int-sign_extend : (v : ℕ) → v < 2 ^ 32 → to_int (sign_extend 32 v) ≡ v
to_int-sign_extend v h = ground arith

module _ (h : Host) (compare_crc : Bool) where
  -- A header field that is neither the mark nor the checksum.
  pub header-step :
      (n x : ℕ) (name : String) (ps : List Field) (v : Scratch) (consumed bs rest : List ℕ)
      → n ≢ field_hmark
      → n ≢ field_hcrc
      → length bs ≡ 4
      → IsBytes bs
      → header_loop h compare_crc n
          (scalar type_long x name ∷ ps)
          v
          (open_input h consumed (bs ++ rest))
        ≡ keeping (scalar type_long (sign_extend 32 (of_be bs)) name) (
            header_loop h compare_crc
              (suc n)
              ps
              (record v { l_val = of_be bs })
              (open_input h (consumed ++ bs) rest))
  unfolding header_loop read_long
  header-step n x name ps v consumed bs rest a b size bytes = rw (
    read_4_lem h 0 consumed bs rest v.l_val size bytes,
    ne→eq n field_hmark a,
    ne→eq n field_hcrc b,
  )

  -- The mark: any other ends the decoding.
  pub header-mark :
      (x : ℕ) (name : String) (ps : List Field) (v : Scratch) (consumed bs rest : List ℕ)
      → length bs ≡ 4
      → IsBytes bs
      → let p = scalar type_long (sign_extend 32 (of_be bs)) name in
        let s = open_input h (consumed ++ bs) rest in
        header_loop h compare_crc field_hmark
          (scalar type_long x name ∷ ps)
          v
          (open_input h consumed (bs ++ rest))
        ≡ (if of_be bs == head_mark
            then keeping p (header_loop h compare_crc 1 ps (record v { l_val = of_be bs }) s)
            else done (error_value err_decode_erroe, p ∷ ps, s))
  unfolding header_loop read_long
  header-mark x name ps v consumed bs rest size bytes = rw (
    read_4_lem h 0 consumed bs rest v.l_val size bytes,
    to_int-sign_extend (of_be bs) (of_be_lt_4 bs size bytes),
  )

  -- The checksum ends the header.
  pub header-crc :
      (x : ℕ) (name : String) (ps : List Field) (v : Scratch) (consumed bs rest : List ℕ)
      → 0 < length consumed
      → length bs ≡ 8
      → IsBytes bs
      → header_loop h compare_crc field_hcrc
          (scalar type_longlong x name ∷ ps)
          v
          (open_input h consumed (bs ++ rest))
        ≡ done (
          if compare_crc && not (h.crc32 consumed == of_be bs % 2 ^ 32)
              then error_value err_check_crc_error
              else error_value err_ok,
          scalar type_longlong (of_be bs) name ∷ ps,
          open_input h (consumed ++ bs) rest,
        )
  unfolding header_loop read_llong
  header-crc x name ps v consumed bs rest some_header size bytes =
      rw
        (
          read_8_lem h 0 consumed bs rest v.ll_val size bytes,
          lt→ltb 0 (length consumed) some_header,
        )
        (elim (Bool-cases compare_crc) [ inl e ↦ rw e | inr e ↦ rw e ])
