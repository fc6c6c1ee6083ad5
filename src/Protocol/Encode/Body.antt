-- ===== src/Protocol/Encode/Body.antt =====
-- The fields after the header, and the checksum that ends a packet.
use Prim.Native.String.{String}
use librtaio.Base.{
  ℕ, suc, ◌+◌, ◌*◌, ◌^◌, ◌≤◌, ◌<◌, ◌≡◌, ◌≢◌, refl, ◌∙◌, true, false, List, [], ◌∷◌, ◌++◌, Option,
  some, length, drop, ◌==◌, done, arith, length-append, append_assoc, append-nil, drop-drop, lt→ltb,
  ne→eq, ==_refl, length-drop,
}
use librtaio.Stream.Host.{Host}
use librtaio.Stream.ByteOrder.{be_bytes}
use librtaio.Stream.ByteOrder.Swap.{length-be_bytes, IsBytes}
use librtaio.Stream.Output.{OutputStream, write_char_array}
use librtaio.Stream.Output.Words.{open_output}
use librtaio.Stream.Output.Arrays.{net_elems-append, write_array_1}
use librtaio.Stream.Input.Arrays.{net_elems-bytes}
use librtaio.Protocol.Field.{
  Field, type_longlong, is_field, field_hcrc, field_bmark, field_count, scalar, string_field,
  to_int, to_size, end_field, msg_tail,
}
use librtaio.Protocol.Encode.{write_field, write_memory, fill_crc, serialize_loop, is_length}
use librtaio.Protocol.Encode.Steps.{
  Sends, serialize-step, fill_crc-plain, Sends-longlong, count_after,
}

-- MSG_TAIL() with its checksum.
abbrev pub bcrc : ℕ → List Field
bcrc crc = scalar type_longlong crc "bcrc" ∷ end_field ∷ []

module _ (h : Host) where
  -- A char array whose length stands in the field before it: that many bytes of it are sent.
  pub Sends-string :
      (cnt : Option ℕ) (q : Field) (front back : List ℕ) (name : String)
      → is_length q.type ≡ true
      → q.ivalue ≡ length front
      → length front < 2 ^ 31
      → IsBytes front
      → Sends h cnt (some q) (string_field (front ++ back) name) front
  unfolding write_field write_memory write_char_array
  Sends-string cnt q front back name l e small b written target fits = rw (
    l,
    e,
    int_length,
    size_length,
    write_array_1 h (length front) (front ++ back) written target
        (omega (arith, length-append {0} front back)) (omega arith),
    net_elems-append h.little 1 (length front) front back (omega arith),
    net_elems-bytes h.little (length front) front (omega arith) b,
    one_each,
  )
    where
      one_each : 1 * length front ≡ length front
      one_each = omega arith

      int_length : to_int (length front) ≡ length front
      int_length = omega arith

      size_length : to_size (length front) ≡ length front
      size_length = ground arith

  -- Fields that send the given bytes one after the other, behind the field `prev`.
  pub data Body (cnt : Option ℕ) : Field → List Field → List ℕ → Type 0 where
    end : {prev : Field} → Body cnt prev [] []
    next :
        {prev p : Field} {ps : List Field} {bs bss : List ℕ}
        → is_field p.type ≡ true
        → Sends h cnt (some prev) p bs
        → Body cnt p ps bss
        → Body cnt prev (p ∷ ps) (bs ++ bss)

  fill_crc-last :
      (len n base : ℕ) (out : OutputStream) (p : Field)
      → n ≢ field_hcrc
      → n + 1 ≡ len
      → base < length out.buf.written
      → fill_crc h len n (some base) out p
        ≡ record p { ivalue = h.crc32 (drop base out.buf.written) }
  unfolding fill_crc
  fill_crc-last len n base out p a b c = rw (
    ne→eq n field_hcrc a,
    b,
    ==_refl len,
    lt→ltb 0 (length (drop base out.buf.written)) (omega (arith, length-drop base out.buf.written)),
  )

  pub serialize-Body :
      (cnt : Option ℕ) (len base n : ℕ) {prev : Field} {ps : List Field} {bs : List ℕ}
      (written target : List ℕ)
      → Body cnt prev ps bs
      → field_bmark ≤ n
      → n + length ps + 1 ≡ len
      → base < length (written ++ bs)
      → length bs + 8 ≤ length target
      → let crc = h.crc32 (drop base (written ++ bs)) in
        serialize_loop h len n cnt
          (some prev)
          (some base)
          (ps ++ msg_tail)
          (open_output h written target)
        ≡ done (
          0,
          ps ++ bcrc crc,
          open_output h (written ++ (bs ++ be_bytes 8 crc)) (drop (length bs + 8) target),
        )
  unfolding msg_tail serialize_loop
  serialize-Body cnt len base n {prev} written target end late here some_body fits =
      let crc = h.crc32 (drop base written) in
      rw (append-nil written) (
        serialize-step h len n cnt (some prev) (some base) (scalar type_longlong 0 "bcrc")
          (end_field ∷ []) (open_output h written target) (written ++ be_bytes 8 crc)
          (drop (length (be_bytes 8 crc)) target) refl
          (fill_crc-last len n base (open_output h written target) _ (λ e. absurd (omega arith))
            (omega arith) (rw (append-nil written) at some_body))
          (Sends-longlong h (count_after h n cnt (scalar type_longlong crc "bcrc")) (some prev) crc
            "bcrc" written target (omega (arith, length-be_bytes 8 crc)))
        ∙ rw (length-be_bytes 8 crc))
  serialize-Body cnt len base n {prev} written target (next {p} {ps} {bs} {bss} f sends rest) late
        here some_body fits =
      let not_count : (n == field_count) ≡ false =
        ne→eq n field_count (λ e. absurd (omega arith)) in
      let not_base : (n + 1 == field_bmark) ≡ false =
        ne→eq (n + 1) field_bmark (λ e. absurd (omega arith)) in
      let regroup = append_assoc written bs bss in
      let lengths = length-append {0} bs bss in
      let later : length bs + (length bss + 8) ≡ length (bs ++ bss) + 8 = omega arith in
      let ih =
        serialize-Body cnt len base (suc n) (written ++ bs) (drop (length bs) target) rest
          (omega arith) (omega arith) (rw regroup some_body)
          (omega (arith, length-drop (length bs) target)) in
      serialize-step h len n cnt (some prev) (some base) p (ps ++ msg_tail)
        (open_output h written target) (written ++ bs) (drop (length bs) target) f
        (fill_crc-plain h len n (some base) (open_output h written target) p
          (λ e. absurd (omega arith)) (λ e. absurd (omega arith)))
        (rw not_count (sends written target (omega arith)))
      ∙ rw (not_count, not_base, ih) (simp (append_assoc, drop-drop, later))
