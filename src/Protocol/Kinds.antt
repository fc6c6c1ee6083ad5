-- ===== src/Protocol/Kinds.antt =====
-- The kinds of integer fields of src/protocol/packet_protocol.h: what one host sends for a field, and
-- what another makes of it.
pub mod Arrays
mod Tests
use Prim.Native.String.{String}
use librtaio.Base.{
  Bool-cases, inl, inr, ltb, ℕ, ◌+◌, ◌*◌, ◌%◌, ◌^◌, ◌<◌, ◌≤◌, ◌++◌, some, drop, ◌≡◌, refl, subst,
  ap, sym, ◌∙◌, List, Option, length, done, arith,
}
use librtaio.Stream.Host.{Host}
use librtaio.Stream.ByteOrder.{be_bytes, of_be}
use librtaio.Stream.ByteOrder.Swap.{
  length-be_bytes, be_bytes-IsBytes, of_be_1, of_be_2, of_be_4, of_be_8, IsBytes,
}
use librtaio.Stream.Input.{read_char}
use librtaio.Stream.Input.Words.{read_1_lem, past_input}
use librtaio.Stream.Output.{write_char}
use librtaio.Stream.Output.Words.{write_1_lem, open_output}
use librtaio.Protocol.Field.{
  Field, FieldType, type_char, type_byte, type_short, type_long, type_longlong, scalar, sign_extend,
}
use librtaio.Protocol.Encode.{write_field}
use librtaio.Protocol.Encode.Steps.{Sends, Sends-char, Sends-short, Sends-long, Sends-longlong}
use librtaio.Protocol.Decode.{Scratch, read_field}
use librtaio.Protocol.Decode.Body.{Takes, Takes-short, Takes-long, Takes-longlong}

-- The integer types, with the number of bytes that a value takes.
pub data IsInteger : FieldType → ℕ → Type 0 where
  char : IsInteger type_char 1
  byte : IsInteger type_byte 1
  short : IsInteger type_short 2
  long : IsInteger type_long 4
  longlong : IsInteger type_longlong 8

-- A `long long` that a signed value of `w` bytes holds.
abbrev pub Holds : ℕ → ℕ → Type 0
Holds w v = sign_extend (8 * w) (v % 2 ^ (8 * w)) ≡ v

module _ (h : Host) (cnt : Option ℕ) (prev : Option Field) (v : ℕ) (n : String) where
  Sends-byte : Sends h cnt prev (scalar type_byte v n) (be_bytes 1 (v % 2 ^ 8))
  unfolding write_field write_char be_bytes
  Sends-byte written target fits = rw (write_1_lem h written target (v % 2 ^ 8) fits)

  Sends-integer :
      (t : FieldType) (w : ℕ)
      → IsInteger t w
      → v < 2 ^ 64
      → Sends h cnt prev (scalar t v n) (be_bytes w (v % 2 ^ (8 * w)))
  Sends-integer t w char small = Sends-char h cnt prev v n
  Sends-integer t w byte small = Sends-byte
  Sends-integer t w short small = Sends-short h cnt prev v n
  Sends-integer t w long small = Sends-long h cnt prev v n
  Sends-integer t w longlong small =
      subst (λ u. Sends h cnt prev (scalar type_longlong v n) (be_bytes 8 u)) (omega arith)
        (Sends-longlong h cnt prev v n)

sign_extend_whole : (v : ℕ) → sign_extend 64 v ≡ v
sign_extend_whole v = elim (Bool-cases (ltb v (2 ^ 63))) [
  | inl e ↦ rw e
  | inr e ↦ rw e (omega arith)
]

module _ (h : Host) (cnt : ℕ) (prev : Field) (x : ℕ) (n : String) (bs : List ℕ)
    (bytes : IsBytes bs) where
  Takes-integer :
      (t : FieldType) (w : ℕ)
      → IsInteger t w
      → length bs ≡ w
      → Takes h cnt prev (scalar t x n) bs (scalar t (sign_extend (8 * w) (of_be bs)) n)
  unfolding read_field read_char
  Takes-integer t w char size beyond v consumed rest =
      (record v { c_val = of_be bs }, rw (read_1_lem h beyond consumed bs rest v.c_val size bytes))
  Takes-integer t w byte size beyond v consumed rest =
      (record v { c_val = of_be bs }, rw (read_1_lem h beyond consumed bs rest v.c_val size bytes))
  Takes-integer t w short size beyond v consumed rest =
      Takes-short h cnt prev x n bs bytes size beyond v consumed rest
  Takes-integer t w long size beyond v consumed rest =
      Takes-long h cnt prev x n bs bytes size beyond v consumed rest
  Takes-integer t w longlong size beyond v consumed rest =
      subst
        (λ u.
          (v' : Scratch) × (read_field h cnt prev v (scalar type_longlong x n)
              (past_input h beyond consumed (bs ++ rest))
            ≡ done
                (some (scalar type_longlong u n, v', past_input h beyond (consumed ++ bs) rest))))
        (sym (sign_extend_whole (of_be bs)))
        (Takes-longlong h cnt prev x n bs bytes size beyond v consumed rest)

-- What arrives of a value that the type holds.
arrives :
    (t : FieldType) (w v : ℕ)
    → IsInteger t w
    → Holds w v
    → sign_extend (8 * w) (of_be (be_bytes w (v % 2 ^ (8 * w)))) ≡ v
arrives t w v char holds =
    ap (sign_extend 8) {y = v % 2 ^ 8} (of_be_1 (v % 2 ^ 8) ∙ omega arith) ∙ holds
arrives t w v byte holds =
    ap (sign_extend 8) {y = v % 2 ^ 8} (of_be_1 (v % 2 ^ 8) ∙ omega arith) ∙ holds
arrives t w v short holds =
    ap (sign_extend 16) {y = v % 2 ^ 16} (of_be_2 (v % 2 ^ 16) ∙ omega arith) ∙ holds
arrives t w v long holds =
    ap (sign_extend 32) {y = v % 2 ^ 32} (of_be_4 (v % 2 ^ 32) ∙ omega arith) ∙ holds
arrives t w v longlong holds =
    ap (sign_extend 64) {y = v % 2 ^ 64} (of_be_8 (v % 2 ^ 64) ∙ omega arith) ∙ holds

-- A field without memory of any integer type, with a value that the type holds, behind any field
-- of a message: writing it to a stream with room appends as many bytes as the type has, and an own
-- field of that type with any value, read from these bytes on a host of either byte order, has the
-- value then.
pub scalar_round_trip :
    (h0 h : Host) (t : FieldType) (w : ℕ) (cnt0 : Option ℕ) (cnt : ℕ) (prev0 : Option Field)
    (prev : Field) (v x : ℕ) (n : String) (s : Scratch) (beyond : ℕ)
    (written target consumed rest : List ℕ)
    → IsInteger t w
    → v < 2 ^ 64
    → Holds w v
    → w ≤ length target
    → let bs = be_bytes w (v % 2 ^ (8 * w)) in
      (write_field h0 cnt0 prev0 (scalar t v n) (open_output h0 written target)
        ≡ done (some (open_output h0 (written ++ bs) (drop (length bs) target))))
      × ((length bs ≡ w)
          × ((s' : Scratch) × (read_field h cnt prev s
                  (scalar t x n)
                  (past_input h beyond consumed (bs ++ rest))
                ≡ done (some (scalar t v n, s', past_input h beyond (consumed ++ bs) rest)))))
scalar_round_trip h0 h t w cnt0 cnt prev0 prev v x n s beyond written target consumed rest is_int
      small holds room =
    let bs = be_bytes w (v % 2 ^ (8 * w)) in
    let size : length bs ≡ w = length-be_bytes w (v % 2 ^ (8 * w)) in
    let bytes = be_bytes-IsBytes w (v % 2 ^ (8 * w)) in
    (
      Sends-integer h0 cnt0 prev0 v n t w is_int small written target (omega (arith, size)),
      (
        size,
        subst
            (λ u.
              (s' : Scratch) × (read_field h cnt prev s (scalar t x n)
                  (past_input h beyond consumed (bs ++ rest))
                ≡ done (some (scalar t u n, s', past_input h beyond (consumed ++ bs) rest))))
            (arrives t w v is_int holds)
            (Takes-integer h cnt prev x n bs bytes t w is_int size beyond s consumed rest),
      ),
    )
