-- ===== src/Protocol/Decode/Short.antt =====
-- unserialize_body_packet on a body that does not come whole, where asserts are compiled in.
use Prim.Native.String.{String}
use librtaio.Base.{
  ℕ, suc, ◌+◌, ◌-◌, ◌*◌, ◌%◌, ◌^◌, ◌≤◌, ◌<◌, ◌≡◌, refl, ◌∙◌, Bool, true, List, [], ◌∷◌, ◌++◌, none,
  length, take, ltb, aborted, arith, lt→leb, append_assoc, length-append, take-append-more,
  length-take, length-take-le, Bool-cases, inl, inr,
}
use librtaio.Stream.Host.{Host}
use librtaio.Stream.ByteOrder.{store}
use librtaio.Stream.Input.{
  InputStream, read_char_array, read_array, read_word, read_2, read_4, read_8, read_short,
  read_long, read_llong,
}
use librtaio.Stream.Input.Words.{open_input, read_lem, length-store}
use librtaio.Protocol.Field.{
  Field, type_short, type_long, type_longlong, is_field, scalar, string_field,
}
use librtaio.Protocol.Encode.{is_length}
use librtaio.Protocol.Encode.Body.{bcrc}
use librtaio.Protocol.Decode.{Scratch, read_field, read_memory, body_loop}
use librtaio.Protocol.Decode.Body.{Takes, length_value, positive_value, body-step}

module _ (h : Host) (on : h.asserts ≡ true) where
  read_word-short :
      (swap_w : Bool → ℕ → ℕ) (w : ℕ) (consumed bytes : List ℕ) (x : ℕ)
      → w < 2 ^ 63
      → length bytes < w
      → read_word h swap_w w (open_input h consumed bytes) x ≡ aborted
  unfolding read_word
  read_word-short swap_w w consumed bytes x small short = rw (
    read_lem h consumed bytes (store h.little w x) w small
        (omega (arith, length-store h 0 h.little w x)),
    lt→leb w (length bytes) short,
    on,
  )

  -- A field that takes `k` bytes ends the process where fewer are left.
  abbrev pub Aborts : ℕ → Field → Field → ℕ → Type 0
  Aborts cnt prev p k =
      (v : Scratch) (consumed bytes : List ℕ)
      → length bytes < k
      → read_field h cnt prev v p (open_input h consumed bytes) ≡ aborted

  module _ (cnt : ℕ) (prev : Field) (x : ℕ) (n : String) where
    pub Aborts-short : Aborts cnt prev (scalar type_short x n) 2
    unfolding read_field read_short read_2
    Aborts-short v consumed bytes short =
        rw (read_word-short _ 2 consumed bytes v.s_val (omega arith) short)

    pub Aborts-long : Aborts cnt prev (scalar type_long x n) 4
    unfolding read_field read_long read_4
    Aborts-long v consumed bytes short =
        rw (read_word-short _ 4 consumed bytes v.l_val (omega arith) short)

    pub Aborts-longlong : Aborts cnt prev (scalar type_longlong x n) 8
    unfolding read_field read_llong read_8
    Aborts-longlong v consumed bytes short =
        rw (read_word-short _ 8 consumed bytes v.ll_val (omega arith) short)

  -- A char array whose length came in the field before it.
  pub Aborts-string :
      (cnt : ℕ) (prev : Field) (mem : List ℕ) (n : String) (k : ℕ)
      → is_length prev.type ≡ true
      → prev.memory ≡ none
      → prev.ivalue ≡ k
      → 0 < k
      → k < 2 ^ 31
      → k ≤ length mem
      → Aborts cnt prev (string_field mem n) k
  unfolding read_field read_memory read_char_array read_array
  Aborts-string cnt prev mem n k l scalar_before e some_bytes small room v consumed bytes short =
      let size : 1 * k % 2 ^ 64 ≡ k = omega arith in
      rw (
        l,
        scalar_before,
        e,
        (length_value h k small).0,
        positive_value h k some_bytes small,
        (length_value h k small).1,
        size,
        read_lem h consumed bytes mem k (omega arith) room,
        lt→leb k (length bytes) short,
        on,
      )

  -- Fields as in Fills, each of which needs all of its bytes.
  pub data Needs (cnt : ℕ) : Field → List Field → List ℕ → List Field → Type 0 where
    end : {prev : Field} → Needs cnt prev [] [] []
    next :
        {prev p q : Field} {ps qs : List Field} {bs bss : List ℕ}
        → is_field p.type ≡ true
        → Takes h cnt prev p bs q
        → Aborts cnt prev p (length bs)
        → Needs cnt q ps bss qs
        → Needs cnt prev (p ∷ ps) (bs ++ bss) (q ∷ qs)

  module _ (compare_crc : Bool) (cnt len base : ℕ) where
    stopped :
        (n crc : ℕ) (prev p : Field) (v : Scratch) (ps : List Field) (s : InputStream)
        → is_field p.type ≡ true
        → read_field h cnt prev v p s ≡ aborted
        → body_loop h compare_crc len cnt base n crc prev v (p ∷ ps) s ≡ aborted
    unfolding body_loop
    stopped n crc prev p v ps s f e = rw (f, body_loop, e)

    -- The first `k` bytes of a body are not all of it.
    pub short_body :
        (x : ℕ) (c : List ℕ)
        → length c ≡ 8
        → (n crc k : ℕ) {prev : Field} {ps qs : List Field} {bs : List ℕ} (v : Scratch)
          (consumed : List ℕ)
        → Needs cnt prev ps bs qs
        → n + length ps + 1 ≡ len
        → k < length bs + 8
        → body_loop h compare_crc len cnt base n crc prev v
            (ps ++ bcrc x)
            (open_input h consumed (take k (bs ++ c)))
          ≡ aborted
    short_body x c size n crc k {prev} v consumed end here few =
        stopped n crc prev (scalar type_longlong x "bcrc") v _ (open_input h consumed (take k c))
          refl
          (Aborts-longlong cnt prev x "bcrc" v consumed (take k c)
            (omega (arith, length-take k c (omega arith))))
    short_body x c size n crc k {prev} v consumed
          (next {p} {q} {ps} {qs} {bs} {bss} f takes aborts needs) here few =
        elim (Bool-cases (ltb k (length bs))) [
          | inl short ↦
              let under : k < length bs = ground arith in
              stopped n crc prev p v (ps ++ bcrc x)
                (open_input h consumed (take k ((bs ++ bss) ++ c))) f
                (aborts v consumed (take k ((bs ++ bss) ++ c))
                  (omega (arith, length-take-le k ((bs ++ bss) ++ c))))
          | inr long ↦
              let over : length bs ≤ k = ground arith in
              let sum : length (bs ++ bss) ≡ length bs + length bss = length-append bs bss in
              let left : k - length bs < length bss + 8 = omega arith in
              let more : take k ((bs ++ bss) ++ c) ≡ bs ++ take (k - length bs) (bss ++ c) =
                rw (append_assoc bs bss c) (take-append-more k bs (bss ++ c) over) in
              let (v', e) = takes 0 v consumed (take (k - length bs) (bss ++ c)) in
              rw more (
                body-step h compare_crc cnt len base n crc prev p q v v' (ps ++ bcrc x)
                  (open_input h consumed (bs ++ take (k - length bs) (bss ++ c)))
                  (open_input h (consumed ++ bs) (take (k - length bs) (bss ++ c))) f
                  (λ e. absurd (omega arith)) e
                ∙ rw (
                    short_body x c size (suc n) crc (k - length bs) v' (consumed ++ bs) needs
                      (omega arith) left))
        ]
