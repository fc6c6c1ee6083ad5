-- ===== src/Stream/Host.antt =====
-- What the code takes from the machine, the compiler and Boost.
use librtaio.Base.{ℕ, ◌^◌, ◌<◌, Bool, List}

-- `little` is the byte order, and `asserts` says that NDEBUG is not defined (the Makefile does not
-- define it). Floating-point values are bit patterns; the four conversions are the compiler's.
-- `crc32` is boost::crc_32_type over a block of bytes, whose value is a uint32_t.
pub record Host : Type 0 where
  pub little : Bool
  pub asserts : Bool
  pub to_float : ℕ → ℕ
  pub to_double : ℕ → ℕ
  pub float_to_ulong : ℕ → ℕ
  pub double_to_ullong : ℕ → ℕ
  pub crc32 : List ℕ → ℕ
  pub crc32_lt : (bs : List ℕ) → crc32 bs < 2 ^ 32
