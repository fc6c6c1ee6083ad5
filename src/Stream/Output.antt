-- ===== src/Stream/Output.antt =====
-- src/common/output_stream.h and output_stream.cpp. A signed argument is its bit pattern, so the
-- casts between signed and unsigned words of one width change nothing.
pub mod Words
pub mod Arrays
use librtaio.Base.{
  ℕ, zero, suc, ◌+◌, Bool, true, false, List, length, take, drop, leb, ◌==◌, if◌then◌else◌, Outcome,
  done, fault, ◌>>=◌,
}
use librtaio.Stream.Host.{Host}
use librtaio.Stream.ByteOrder.{store, load, swap_2, swap_4, swap_8, is_little_endian}
use librtaio.Stream.Buffer.{OutBuf, sputn}

-- `good` is std::ostream's state, and `buf` the buffer behind rdbuf().
pub record OutputStream : Type 0 where
  pub buf : OutBuf
  pub good : Bool
  pub is_little_order : Bool

module _ (h : Host) where
  unfoldable pub output_stream : OutBuf → OutputStream
  output_stream b = record { buf = b; good = true; is_little_order = is_little_endian h.little }

  -- base_ptr() to write_ptr(), as the bytes between them.
  abbrev pub written_bytes : OutputStream → List ℕ
  written_bytes s = s.buf.written

  -- std::ostream::write.
  unfoldable pub write : OutputStream → List ℕ → Outcome (Bool × OutputStream)
  unfolding sputn
  write s bs = elim s.good [
    | true ↦ sputn h s.buf bs >>= λ r.
        let ok = r.0 == length bs in done (ok, record s { buf = r.1; good = ok })
    | false ↦ done (false, s)
  ]

  unfoldable pub write_1 : OutputStream → ℕ → Outcome (Bool × OutputStream)
  write_1 s x = write s (store h.little 1 x)

  unfoldable pub write_2 : OutputStream → ℕ → Outcome (Bool × OutputStream)
  write_2 s x =
      let i = if s.is_little_order then swap_2 h.little x else x in write s (store h.little 2 i)

  unfoldable pub write_4 : OutputStream → ℕ → Outcome (Bool × OutputStream)
  write_4 s x =
      let i = if s.is_little_order then swap_4 h.little x else x in write s (store h.little 4 i)

  unfoldable pub write_8 : OutputStream → ℕ → Outcome (Bool × OutputStream)
  write_8 s x =
      let i = if s.is_little_order then swap_8 h.little x else x in write s (store h.little 8 i)

  -- The loops of write_array: `count` elements of `w` bytes from `mem`, and how many went well.
  unfoldable pub write_elems :
      (OutputStream → ℕ → Outcome (Bool × OutputStream))
      → ℕ
      → ℕ
      → List ℕ
      → OutputStream
      → ℕ
      → Outcome (ℕ × OutputStream)
  write_elems write_w w zero mem s ret_count = done (ret_count, s)
  write_elems write_w w (suc n) mem s ret_count = elim (leb w (length mem)) [
    | false ↦ fault
    | true ↦ write_w s (load h.little (take w mem)) >>= λ r.
        write_elems write_w w n (drop w mem) r.1 (if r.0 then ret_count + 1 else ret_count)
  ]

  unfoldable pub write_array : OutputStream → List ℕ → ℕ → ℕ → Outcome (Bool × OutputStream)
  unfolding write_elems
  write_array s mem size count =
      (if size == 1
        then write_elems write_1 1 count mem s 0
        else if size == 2
        then write_elems write_2 2 count mem s 0
        else if size == 4
        then write_elems write_4 4 count mem s 0
        else if size == 8
        then write_elems write_8 8 count mem s 0
        else done (0, s))
      >>= λ r. done (r.0 == count, r.1)

  unfoldable pub write_byte : OutputStream → ℕ → Outcome (Bool × OutputStream)
  write_byte s i = write_1 s i

  unfoldable pub write_char : OutputStream → ℕ → Outcome (Bool × OutputStream)
  write_char s i = write_1 s i

  unfoldable pub write_uchar : OutputStream → ℕ → Outcome (Bool × OutputStream)
  write_uchar s i = write_1 s i

  unfoldable pub write_short : OutputStream → ℕ → Outcome (Bool × OutputStream)
  write_short s i = write_2 s i

  unfoldable pub write_ushort : OutputStream → ℕ → Outcome (Bool × OutputStream)
  write_ushort s i = write_2 s i

  unfoldable pub write_long : OutputStream → ℕ → Outcome (Bool × OutputStream)
  write_long s i = write_4 s i

  unfoldable pub write_ulong : OutputStream → ℕ → Outcome (Bool × OutputStream)
  write_ulong s i = write_4 s i

  unfoldable pub write_llong : OutputStream → ℕ → Outcome (Bool × OutputStream)
  write_llong s i = write_8 s i

  unfoldable pub write_ullong : OutputStream → ℕ → Outcome (Bool × OutputStream)
  write_ullong s i = write_8 s i

  -- static_cast<ULong>(i): the number is converted, its bits are not kept.
  unfoldable pub write_float : OutputStream → ℕ → Outcome (Bool × OutputStream)
  write_float s i = let x = h.float_to_ulong i in write_4 s x

  unfoldable pub write_double : OutputStream → ℕ → Outcome (Bool × OutputStream)
  write_double s i = let x = h.double_to_ullong i in write_8 s x

  unfoldable pub write_byte_array : OutputStream → List ℕ → ℕ → Outcome (Bool × OutputStream)
  write_byte_array s x count = write_array s x 1 count

  unfoldable pub write_char_array : OutputStream → List ℕ → ℕ → Outcome (Bool × OutputStream)
  write_char_array s x count = write_array s x 1 count

  unfoldable pub write_uchar_array : OutputStream → List ℕ → ℕ → Outcome (Bool × OutputStream)
  write_uchar_array s x count = write_array s x 1 count

  unfoldable pub write_short_array : OutputStream → List ℕ → ℕ → Outcome (Bool × OutputStream)
  write_short_array s x count = write_array s x 2 count

  unfoldable pub write_ushort_array : OutputStream → List ℕ → ℕ → Outcome (Bool × OutputStream)
  write_ushort_array s x count = write_array s x 2 count

  unfoldable pub write_long_array : OutputStream → List ℕ → ℕ → Outcome (Bool × OutputStream)
  write_long_array s x count = write_array s x 4 count

  unfoldable pub write_llong_array : OutputStream → List ℕ → ℕ → Outcome (Bool × OutputStream)
  write_llong_array s x count = write_array s x 4 count

  unfoldable pub write_ullong_array : OutputStream → List ℕ → ℕ → Outcome (Bool × OutputStream)
  write_ullong_array s x count = write_array s x 8 count

  unfoldable pub write_float_array : OutputStream → List ℕ → ℕ → Outcome (Bool × OutputStream)
  write_float_array s x count = write_array s x 4 count

  unfoldable pub write_double_array : OutputStream → List ℕ → ℕ → Outcome (Bool × OutputStream)
  write_double_array s x count = write_array s x 8 count
