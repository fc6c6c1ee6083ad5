-- ===== src/Protocol/Kinds/Tests.antt =====
-- The theorems about the kinds of fields, at a negative number and at an array of four words.
use librtaio.Base.{
  ℕ, ◌-◌, ◌^◌, ◌%◌, ◌≡◌, refl, true, false, List, [], ◌∷◌, ◌++◌, none, some, length, drop,
  replicate, done, arith,
}
use librtaio.Stream.Sample.{sample_host}
use librtaio.Stream.ByteOrder.{be_bytes}
use librtaio.Stream.Input.Words.{past_input}
use librtaio.Stream.Output.Words.{open_output}
use librtaio.Protocol.Field.{Field, type_long, type_short, scalar}
use librtaio.Protocol.Encode.{write_field}
use librtaio.Protocol.Decode.{Scratch, scratch, read_field}
use librtaio.Protocol.Kinds.{scalar_round_trip, IsInteger}
use librtaio.Protocol.Kinds.Arrays.{IsArray, array_field, array_field_round_trip}
use librtaio.Stream.Values.{memory_of}

abbrev minus_five : ℕ
minus_five = 2 ^ 64 - 5

abbrev five_bytes : List ℕ
five_bytes = be_bytes 4 (minus_five % 2 ^ 32)

abbrev previous : Field
previous = scalar type_short 3 "count"

scalar_example :
    (write_field
        (sample_host true true)
        none
        none
        (scalar type_long minus_five "level")
        (open_output (sample_host true true) (7 ∷ []) (replicate 6 0))
      ≡ done (
          some (
            open_output
              (sample_host true true)
              (7 ∷ five_bytes)
              (drop (length five_bytes) (replicate 6 0)))))
    × ((length five_bytes ≡ 4)
        × ((s : Scratch) × (read_field
                (sample_host false true)
                2
                previous
                scratch
                (scalar type_long 9 "level")
                (past_input (sample_host false true) 0 (7 ∷ []) (five_bytes ++ (8 ∷ [])))
              ≡ done (
                  some (
                    scalar type_long minus_five "level",
                    s,
                    past_input (sample_host false true) 0 (7 ∷ five_bytes) (8 ∷ []),
                  )))))
scalar_example =
    scalar_round_trip (sample_host true true) (sample_host false true) type_long 4 none 2 none
      previous minus_five 9 "level" scratch 0 (7 ∷ []) (replicate 6 0) (7 ∷ []) (8 ∷ [])
      IsInteger.long (omega arith) refl (omega arith)

abbrev four_words : List ℕ
four_words = 1 ∷ 0x1234 ∷ 0xFFFE ∷ 256 ∷ []

array_example :
    let sent = memory_of false 2 four_words in
    (write_field
        (sample_host true true)
        (some 2)
        none
        (array_field type_short (memory_of true 2 four_words) 2 "levels")
        (open_output (sample_host true true) (7 ∷ []) (replicate 9 0))
      ≡ done (some (open_output (sample_host true true) (7 ∷ sent) (replicate 1 0))))
    × (read_field
          (sample_host false true)
          2
          previous
          scratch
          (array_field type_short (replicate 8 0) 2 "levels")
          (past_input (sample_host false true) 3 (7 ∷ []) (sent ++ (8 ∷ [])))
        ≡ done (
            some (
              array_field type_short (memory_of false 2 four_words) 2 "levels",
              scratch,
              past_input (sample_host false true) 3 (7 ∷ sent) (8 ∷ []),
            )))
array_example =
    array_field_round_trip (sample_host true true) (sample_host false true) type_short 2 2 2 none
      previous four_words (replicate 8 0) "levels" scratch 3 (7 ∷ []) (replicate 9 0) (7 ∷ [])
      (8 ∷ []) IsArray.short (omega arith) refl (omega arith) (omega arith) refl (omega arith)
