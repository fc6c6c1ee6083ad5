-- ===== src/Stream/Tests.antt =====
-- The theorems about the streams, at concrete inputs.
use librtaio.Base.{
  ℕ, ◌%◌, ◌^◌, ◌≡◌, refl, true, false, List, [], ◌∷◌, ◌++◌, length, take, drop, done, aborted,
  arith, leb, ◌||◌, not, if◌then◌else◌, overlay, replicate,
}
use librtaio.Stream.Host.{Host}
use librtaio.Stream.Sample.{sample_host}
use librtaio.Stream.ByteOrder.{be_bytes}
use librtaio.Stream.Output.{write, write_float, write_llong_array}
use librtaio.Stream.Output.Words.{open_output, write_lem}
use librtaio.Stream.Output.Arrays.{net_elems, write_llong_array_half}
use librtaio.Stream.Input.{read, read_float}
use librtaio.Stream.Input.Words.{open_input, read_lem}
use librtaio.Stream.RoundTrip.{float_not_restored}

abbrev big : Host
big = sample_host false true

abbrev little_host : Host
little_host = sample_host true true

abbrev release : Host
release = sample_host true false

abbrev eight_bytes : List ℕ
eight_bytes = 1 ∷ 2 ∷ 3 ∷ 4 ∷ 5 ∷ 6 ∷ 7 ∷ 8 ∷ []

write_example : write release (open_output release (9 ∷ []) (0 ∷ 0 ∷ [])) eight_bytes ≡ (
    if leb (length eight_bytes) 2 || not release.asserts
    then done (
      true,
      open_output release ((9 ∷ []) ++ take 2 eight_bytes) (drop (length eight_bytes) (0 ∷ 0 ∷ [])),
    )
    else aborted)
write_example = write_lem release (9 ∷ []) (0 ∷ 0 ∷ []) eight_bytes

read_example : read release (open_input release [] eight_bytes) (replicate 4 0) 4 ≡ (
    if leb 4 (length eight_bytes)
    then done (
      true,
      overlay (take 4 eight_bytes) (replicate 4 0),
      open_input release ([] ++ take 4 eight_bytes) (drop 4 eight_bytes),
    )
    else if release.asserts
    then aborted
    else done (
      false,
      overlay eight_bytes (replicate 4 0),
      record (open_input release ([] ++ eight_bytes) []) { good = false },
    ))
read_example = read_lem release [] eight_bytes (replicate 4 0) 4 (omega arith) (omega arith)

float_example :
    (write_float little_host (open_output little_host [] eight_bytes) 0x3F800000
      ≡ done (true, open_output little_host (be_bytes 4 0x3F8) (drop 4 eight_bytes)))
    × (read_float big (open_input big [] (be_bytes 4 0x3F8 ++ [])) 5
        ≡ done (true, 0x3F8 % 2 ^ 32, open_input big (be_bytes 4 0x3F8) []))
float_example = float_not_restored little_host big 0x3F800000 5 eight_bytes [] (omega arith)

llong_array_example :
    write_llong_array big
      (open_output big [] eight_bytes)
      (take 4 eight_bytes ++ drop 4 eight_bytes)
      1
    ≡ done (
      true,
      open_output big ([] ++ net_elems big.little 4 1 (take 4 eight_bytes)) (drop 4 eight_bytes),
    )
llong_array_example =
    write_llong_array_half big 1 (take 4 eight_bytes) (drop 4 eight_bytes) [] eight_bytes refl refl
      (omega arith)
