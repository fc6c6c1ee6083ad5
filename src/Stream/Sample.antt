-- ===== src/Stream/Sample.antt =====
-- A concrete host and Boost checksum, for tests.
use librtaio.Base.{ℕ, ◌+◌, ◌*◌, ◌/◌, ◌%◌, ◌^◌, ◌<◌, Bool, List, [], ◌∷◌, arith}
use librtaio.Stream.Host.{Host}

abbrev pub sum_crc : List ℕ → ℕ
sum_crc [] = 7
sum_crc (b ∷ bs) = (b + 31 * sum_crc bs) % 2 ^ 32

pub sum_crc-lt : (bs : List ℕ) → sum_crc bs < 2 ^ 32
sum_crc-lt [] = omega arith
sum_crc-lt (b ∷ bs) = omega arith

abbrev pub sample_host : Bool → Bool → Host
sample_host little asserts = record {
  little = little;
  asserts = asserts;
  to_float = λ d. d % 2 ^ 32;
  to_double = λ f. f;
  float_to_ulong = λ f. f / 2 ^ 20;
  double_to_ullong = λ d. d / 2 ^ 20;
  crc32 = sum_crc;
  crc32_lt = sum_crc-lt;
}
