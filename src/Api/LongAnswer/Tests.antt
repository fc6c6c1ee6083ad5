-- ===== src/Api/LongAnswer/Tests.antt =====
-- An answer of six numbers, which is longer than a header.
use librtaio.Base.{
  ℕ, zero, suc, ◌+◌, ◌*◌, ◌≡◌, refl, sym, subst, true, false, List, [], ◌∷◌, ◌++◌, length,
  replicate, aborted, arith, length-append,
}
use librtaio.Stream.Host.{Host}
use librtaio.Stream.ByteOrder.{of_be}
use librtaio.Stream.Sample.{sample_host}
use librtaio.Protocol.Field.{Field, type_long, scalar, sign_extend, msg_tail}
use librtaio.Protocol.Fields.{field_size}
use librtaio.Protocol.Fields.Size.{Sized}
use librtaio.Protocol.Messages.{first_field, header_with}
use librtaio.Protocol.Wire.{Header, word, message, header_wire, body_wire}
use librtaio.Protocol.Decode.Body.{Takes-long}
use librtaio.Protocol.Decode.Short.{Needs, Aborts, Aborts-long}
use librtaio.Protocol.RoundTrip.{SameCrc, word-IsWord}
use librtaio.Api.Client.{recv_packet}
use librtaio.Api.LongAnswer.{recv_packet_long}

abbrev client : Host
client = sample_host true true

abbrev server : Host
server = sample_host false true

same : SameCrc server client
same bs = refl

abbrev number : Field
number = scalar type_long 0 "number"

abbrev numbers : ℕ → List ℕ
numbers zero = []
numbers (suc n) = word 7 ++ numbers n

length-numbers : (n : ℕ) → length (numbers n) ≡ n * 4
length-numbers zero = refl
length-numbers (suc n) =
    omega (arith, length-append {0} (word 7) (numbers n), (word-IsWord 7).0, length-numbers n)

numbers-Needs :
    (n : ℕ) (prev : Field)
    → Needs client refl 1 prev
        (replicate n number)
        (numbers n)
        (replicate n (scalar type_long (sign_extend 32 (of_be (word 7))) "number"))
numbers-Needs zero prev = Needs.end
numbers-Needs (suc n) prev =
    let bytes = word-IsWord 7 in
    Needs.next refl (Takes-long client 1 prev 0 "number" (word 7) bytes.1 bytes.0)
      (subst (Aborts client refl 1 prev number) (sym bytes.0)
        (Aborts-long client refl 1 prev 0 "number"))
      (numbers-Needs n (scalar type_long (sign_extend 32 (of_be (word 7))) "number"))

numbers-Sized : (n : ℕ) (prev : Field) → Sized 1 prev (replicate n number) (n * 4)
unfolding field_size
numbers-Sized zero prev = Sized.end
numbers-Sized (suc n) prev =
    let sum : 4 + n * 4 ≡ suc n * 4 = omega arith in
    subst (Sized 1 prev (number ∷ replicate n number)) sum
      (Sized.next refl refl (numbers-Sized n number))

abbrev numbers_header : Header
numbers_header = header_with 2 36 0 5

long_example :
    recv_packet client 6
      (message (header_with 2 0 0 6) 0 (replicate 6 number ++ msg_tail))
      15
      (record {
        incoming = header_wire server numbers_header ∷ body_wire server (numbers 6) ∷ [];
        outgoing = [];
      })
    ≡ aborted
long_example =
    recv_packet_long server client same refl 6 numbers_header (header_with 2 0 0 6)
      (replicate 6 number) _ 24 (numbers 6) [] []
      (record { method = refl; bsize = refl; ret = refl; time = refl; count = refl }) refl
      (omega (arith, length-numbers 6)) (omega (arith, length-numbers 6))
      (omega (arith, length-numbers 6)) (numbers-Needs 6 first_field) (numbers-Sized 6 first_field)
      (omega arith) (omega arith)
