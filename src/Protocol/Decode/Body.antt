-- ===== src/Protocol/Decode/Body.antt =====
-- unserialize_body_packet: what each kind of field takes from the stream, and the body's checksum.
use Prim.Native.String.{String}
use librtaio.Base.{
  ℕ, suc, ◌+◌, ◌%◌, ◌^◌, ◌≤◌, ◌<◌, ◌≡◌, ◌≢◌, ◌∙◌, Bool, true, not, ◌&&◌, List, [], ◌∷◌, ◌++◌, none,
  some, length, drop, overlay, ◌==◌, if◌then◌else◌, done, fault, arith, lt→ltb, ne→eq, ==_refl,
  Bool-cases, inl, inr, append_assoc, append-nil, length-drop,
}
use librtaio.Stream.Host.{Host}
use librtaio.Stream.ByteOrder.{of_be}
use librtaio.Stream.ByteOrder.Swap.{IsBytes}
use librtaio.Stream.Input.{InputStream, read_short, read_long, read_llong}
use librtaio.Stream.Input.Words.{open_input, past_input, read_2_lem, read_4_lem, read_8_lem}
use librtaio.Stream.Input.Arrays.{read_char_array-append, read_char_array-overrun}
use librtaio.Protocol.Field.{
  Field, type_short, type_long, type_longlong, is_field, scalar, string_field, sign_extend, to_int,
  to_size, is_positive,
}
use librtaio.Protocol.ErrorCode.{error_value, err_ok, err_check_crc_error}
use librtaio.Protocol.Encode.{is_length}
use librtaio.Protocol.Encode.Steps.{keeping}
use librtaio.Protocol.Encode.Body.{bcrc}
use librtaio.Protocol.Decode.{Scratch, read_field, read_memory, body_loop}

module _ (h : Host) where
  -- A field that takes `bs` from the stream and becomes `p'`, whatever was read before.
  abbrev pub Takes : ℕ → Field → Field → List ℕ → Field → Type 0
  Takes cnt prev p bs p' =
      (beyond : ℕ) (v : Scratch) (consumed rest : List ℕ)
      → (v' : Scratch) × (read_field h cnt prev v p (past_input h beyond consumed (bs ++ rest))
          ≡ done (some (p', v', past_input h beyond (consumed ++ bs) rest)))

  module _ (cnt : ℕ) (prev : Field) (x : ℕ) (n : String) (bs : List ℕ) (bytes : IsBytes bs) where
    pub Takes-short :
        length bs ≡ 2
        → Takes cnt prev
            (scalar type_short x n)
            bs
            (scalar type_short (sign_extend 16 (of_be bs)) n)
    unfolding read_field read_short
    Takes-short size beyond v consumed rest = (
      record v { s_val = of_be bs },
      rw (read_2_lem h beyond consumed bs rest v.s_val size bytes),
    )

    pub Takes-long :
        length bs ≡ 4
        → Takes cnt prev (scalar type_long x n) bs (scalar type_long (sign_extend 32 (of_be bs)) n)
    unfolding read_field read_long
    Takes-long size beyond v consumed rest = (
      record v { l_val = of_be bs },
      rw (read_4_lem h beyond consumed bs rest v.l_val size bytes),
    )

    pub Takes-longlong :
        length bs ≡ 8
        → Takes cnt prev (scalar type_longlong x n) bs (scalar type_longlong (of_be bs) n)
    unfolding read_field read_llong
    Takes-longlong size beyond v consumed rest = (
      record v { ll_val = of_be bs },
      rw (read_8_lem h beyond consumed bs rest v.ll_val size bytes),
    )

  pub length_value : (k : ℕ) → k < 2 ^ 31 → (to_int k ≡ k) × (to_size k ≡ k)
  length_value k small = (omega arith, ground arith)

  pub positive_value : (k : ℕ) → 0 < k → k < 2 ^ 31 → is_positive k ≡ true
  positive_value k p q = ground arith

  -- A char array whose length came in the field before it is copied over the front of its memory.
  pub Takes-string :
      (cnt : ℕ) (prev : Field) (mem : List ℕ) (n : String) (bs : List ℕ)
      → is_length prev.type ≡ true
      → prev.memory ≡ none
      → prev.ivalue ≡ length bs
      → 0 < length bs
      → length bs < 2 ^ 31
      → length bs ≤ length mem
      → Takes cnt prev (string_field mem n) bs (string_field (overlay bs mem) n)
  unfolding read_field read_memory
  Takes-string cnt prev mem n bs l scalar_before e some_bytes small room beyond v consumed rest = (
    v,
    rw (
      l,
      scalar_before,
      e,
      (length_value (length bs) small).0,
      positive_value (length bs) some_bytes small,
      (length_value (length bs) small).1,
      read_char_array-append h beyond consumed bs rest mem small room,
    ),
  )

  -- A char array that follows its length: where the length received, below 2^31, is greater than
  -- the array, and that many bytes come, the decoder writes behind the end of the array.
  pub read_field-overrun :
      (cnt : ℕ) (prev : Field) (mem : List ℕ) (n : String) (v : Scratch) (consumed bs rest : List ℕ)
      → is_length prev.type ≡ true
      → prev.memory ≡ none
      → prev.ivalue ≡ length bs
      → length bs < 2 ^ 31
      → length mem < length bs
      → read_field h cnt prev v (string_field mem n) (open_input h consumed (bs ++ rest)) ≡ fault
  unfolding read_field read_memory
  read_field-overrun cnt prev mem n v consumed bs rest l scalar_before e small over = rw (
    l,
    scalar_before,
    e,
    (length_value (length bs) small).0,
    positive_value (length bs) (omega arith) small,
    (length_value (length bs) small).1,
    read_char_array-overrun h consumed bs rest mem small over,
  )

  -- Fields that turn the given bytes into the fields `qs`, behind the decoded field `prev`.
  pub data Fills (cnt : ℕ) : Field → List Field → List ℕ → List Field → Type 0 where
    end : {prev : Field} → Fills cnt prev [] [] []
    next :
        {prev p q : Field} {ps qs : List Field} {bs bss : List ℕ}
        → is_field p.type ≡ true
        → Takes cnt prev p bs q
        → Fills cnt q ps bss qs
        → Fills cnt prev (p ∷ ps) (bs ++ bss) (q ∷ qs)

  abbrev pub body_code : Bool → List ℕ → List ℕ → ℕ
  body_code compare_crc body crc =
      if compare_crc && not (of_be crc % 2 ^ 32 == h.crc32 body)
      then error_value err_check_crc_error
      else error_value err_ok

  module _ (compare_crc : Bool) (cnt len base : ℕ) where
    pub body-step :
        (n crc : ℕ) (prev p q : Field) (v v' : Scratch) (ps : List Field) (s s' : InputStream)
        → is_field p.type ≡ true
        → n + 1 ≢ len
        → read_field h cnt prev v p s ≡ done (some (q, v', s'))
        → body_loop h compare_crc len cnt base n crc prev v (p ∷ ps) s
          ≡ keeping q (body_loop h compare_crc len cnt base (suc n) crc q v' ps s')
    unfolding body_loop
    body-step n crc prev p q v v' ps s s' f inside e =
        rw (f, body_loop, e, ne→eq (n + 1) len inside)

    body-last :
        (beyond n crc x : ℕ) (prev : Field) (v : Scratch) (consumed c rest : List ℕ)
        → n + 1 ≡ len
        → base < length consumed
        → length c ≡ 8
        → IsBytes c
        → body_loop h compare_crc len cnt base n crc prev v
            (bcrc x)
            (past_input h beyond consumed (c ++ rest))
          ≡ done (
            body_code compare_crc (drop base consumed) c,
            bcrc (of_be c),
            past_input h beyond (consumed ++ c) rest,
          )
    unfolding body_loop
    body-last beyond n crc x prev v consumed c rest here some_body size bytes =
        let (v', e) = Takes-longlong cnt prev x "bcrc" c bytes size beyond v consumed rest in
        rw
          (
            e,
            here,
            ==_refl len,
            lt→ltb 0 (length (drop base consumed)) (omega (arith, length-drop base consumed)),
          )
          (elim (Bool-cases compare_crc) [
            | inl on ↦ elim (Bool-cases (of_be c % 2 ^ 32 == h.crc32 (drop base consumed))) [
              | inl fits ↦ rw (on, fits)
              | inr differs ↦ rw (on, differs)
            ]
            | inr off ↦ rw off
          ])

    -- The rest of a body that `Fills` describes, with its checksum `c`.
    pub body_fields :
        (beyond x : ℕ) (c rest : List ℕ)
        → length c ≡ 8
        → IsBytes c
        → (n crc : ℕ) {prev : Field} {ps qs : List Field} {bs : List ℕ} (v : Scratch)
          (consumed : List ℕ)
        → Fills cnt prev ps bs qs
        → n + length ps + 1 ≡ len
        → base < length (consumed ++ bs)
        → body_loop h compare_crc len cnt base n crc prev v
            (ps ++ bcrc x)
            (past_input h beyond consumed (bs ++ (c ++ rest)))
          ≡ done (
            body_code compare_crc (drop base (consumed ++ bs)) c,
            qs ++ bcrc (of_be c),
            past_input h beyond (consumed ++ (bs ++ c)) rest,
          )
    body_fields beyond x c rest size bytes n crc {prev} v consumed end here some_body =
        rw (append-nil consumed) (
          body-last beyond n crc x prev v consumed c rest (omega arith)
            (rw (append-nil consumed) at some_body) size bytes)
    body_fields beyond x c rest size bytes n crc {prev} v consumed
          (next {p} {q} {ps} {qs} {bs} {bss} f takes fills) here some_body =
        let (v', e) = takes beyond v consumed (bss ++ (c ++ rest)) in
        let ih =
          body_fields beyond x c rest size bytes (suc n) crc v' (consumed ++ bs) fills (omega arith)
            (rw (append_assoc consumed bs bss) some_body) in
        rw (append_assoc bs bss (c ++ rest)) (
          body-step n crc prev p q v v' (ps ++ bcrc x)
            (past_input h beyond consumed (bs ++ (bss ++ (c ++ rest))))
            (past_input h beyond (consumed ++ bs) (bss ++ (c ++ rest))) f
            (λ e. absurd (omega arith)) e
          ∙ rw ih (simp append_assoc))
