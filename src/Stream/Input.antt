-- ===== src/Stream/Input.antt =====
-- src/common/input_stream.h and input_stream.cpp. A reference argument is passed by its value before
-- the call, and its value after the call is returned; an array is passed by its bytes in memory.
pub mod Words
pub mod Arrays
use librtaio.Base.{
  ℕ, zero, suc, ◌*◌, ◌%◌, ◌^◌, Bool, true, false, List, ◌++◌, ◌&&◌, length, take, drop, overlay,
  ltb, leb, ◌==◌, if◌then◌else◌, Outcome, done, fault, ◌>>=◌,
}
use librtaio.Stream.Host.{Host}
use librtaio.Stream.ByteOrder.{store, load, swap_2, swap_4, swap_8, is_little_endian}
use librtaio.Stream.Buffer.{InBuf, sgetn}

-- `good` is std::istream's state, and `buf` the buffer behind rdbuf().
pub record InputStream : Type 0 where
  pub buf : InBuf
  pub good : Bool
  pub is_little_order : Bool

module _ (h : Host) where
  unfoldable pub input_stream : InBuf → InputStream
  input_stream b = record { buf = b; good = true; is_little_order = is_little_endian h.little }

  -- std::istream::read into the array `mem`. A count from 2 ^ 63 on is a negative streamsize, for
  -- which nothing is read and the stream fails.
  unfoldable pub read : InputStream → List ℕ → ℕ → Outcome (Bool × List ℕ × InputStream)
  unfolding sgetn
  read s mem n = elim s.good [
    | false ↦ done (false, mem, s)
    | true ↦
        if leb (2 ^ 63) n
        then done (false, mem, record s { good = false })
        else if ltb (length mem) (length (take n s.buf.remaining))
        then fault
        else (sgetn h s.buf n >>= λ r.
            let ok = r.0 == n in done (ok, overlay r.1 mem, record s { buf = r.2; good = ok }))
  ]

  -- A word is read into its memory, and swapped only if all of it came.
  unfoldable pub read_word : (Bool → ℕ → ℕ) → ℕ → InputStream → ℕ → Outcome (Bool × ℕ × InputStream)
  unfolding read
  read_word swap_w w s x = read s (store h.little w x) w >>= λ r.
      let val = load h.little r.1 in
      done (r.0, if r.0 && s.is_little_order then swap_w h.little val else val, r.2)

  unfoldable pub read_1 : InputStream → ℕ → Outcome (Bool × ℕ × InputStream)
  unfolding read_word
  read_1 s x = read_word (λ _ v. v) 1 s x

  unfoldable pub read_2 : InputStream → ℕ → Outcome (Bool × ℕ × InputStream)
  unfolding read_word
  read_2 s x = read_word swap_2 2 s x

  unfoldable pub read_4 : InputStream → ℕ → Outcome (Bool × ℕ × InputStream)
  unfolding read_word
  read_4 s x = read_word swap_4 4 s x

  unfoldable pub read_8 : InputStream → ℕ → Outcome (Bool × ℕ × InputStream)
  unfolding read_word
  read_8 s x = read_word swap_8 8 s x

  -- The loops of read_array: the first `count` elements of `w` bytes are swapped in place.
  unfoldable pub swap_elems : (Bool → ℕ → ℕ) → ℕ → ℕ → List ℕ → Outcome (List ℕ)
  swap_elems swap_w w zero mem = done mem
  swap_elems swap_w w (suc n) mem = elim (leb w (length mem)) [
    | false ↦ fault
    | true ↦ swap_elems swap_w w n (drop w mem) >>= λ rest.
        done (store h.little w (swap_w h.little (load h.little (take w mem))) ++ rest)
  ]

  abbrev pub swap_array : ℕ → ℕ → List ℕ → Outcome (List ℕ)
  swap_array size count mem =
      if size == 2
      then swap_elems swap_2 2 count mem
      else if size == 4
      then swap_elems swap_4 4 count mem
      else if size == 8
      then swap_elems swap_8 8 count mem
      else done mem

  unfoldable pub read_array : InputStream → List ℕ → ℕ → ℕ → Outcome (Bool × List ℕ × InputStream)
  unfolding swap_elems
  read_array s mem size count =
      let bytes = size * count % 2 ^ 64 in
      read s mem bytes >>= λ r.
      if r.0 && s.is_little_order
      then (swap_array size count r.1 >>= λ swapped. done (true, swapped, r.2))
      else done r

  unfoldable pub read_byte : InputStream → ℕ → Outcome (Bool × ℕ × InputStream)
  read_byte s i = read_1 s i

  unfoldable pub read_char : InputStream → ℕ → Outcome (Bool × ℕ × InputStream)
  read_char s i = read_1 s i

  unfoldable pub read_uchar : InputStream → ℕ → Outcome (Bool × ℕ × InputStream)
  read_uchar s i = read_1 s i

  unfoldable pub read_short : InputStream → ℕ → Outcome (Bool × ℕ × InputStream)
  read_short s i = read_2 s i

  unfoldable pub read_ushort : InputStream → ℕ → Outcome (Bool × ℕ × InputStream)
  read_ushort s i = read_2 s i

  unfoldable pub read_long : InputStream → ℕ → Outcome (Bool × ℕ × InputStream)
  read_long s i = read_4 s i

  unfoldable pub read_ulong : InputStream → ℕ → Outcome (Bool × ℕ × InputStream)
  read_ulong s i = read_4 s i

  unfoldable pub read_llong : InputStream → ℕ → Outcome (Bool × ℕ × InputStream)
  read_llong s i = read_8 s i

  unfoldable pub read_ullong : InputStream → ℕ → Outcome (Bool × ℕ × InputStream)
  read_ullong s i = read_8 s i

  unfoldable pub read_float : InputStream → ℕ → Outcome (Bool × ℕ × InputStream)
  read_float s i = read_4 s i

  unfoldable pub read_double : InputStream → ℕ → Outcome (Bool × ℕ × InputStream)
  read_double s i = read_8 s i

  unfoldable pub read_byte_array : InputStream → List ℕ → ℕ → Outcome (Bool × List ℕ × InputStream)
  read_byte_array s x count = read_array s x 1 count

  unfoldable pub read_char_array : InputStream → List ℕ → ℕ → Outcome (Bool × List ℕ × InputStream)
  read_char_array s x count = read_array s x 1 count

  unfoldable pub read_uchar_array : InputStream → List ℕ → ℕ → Outcome (Bool × List ℕ × InputStream)
  read_uchar_array s x count = read_array s x 1 count

  unfoldable pub read_short_array : InputStream → List ℕ → ℕ → Outcome (Bool × List ℕ × InputStream)
  read_short_array s x count = read_array s x 2 count

  unfoldable pub read_ushort_array :
      InputStream → List ℕ → ℕ → Outcome (Bool × List ℕ × InputStream)
  read_ushort_array s x count = read_array s x 2 count

  unfoldable pub read_long_array : InputStream → List ℕ → ℕ → Outcome (Bool × List ℕ × InputStream)
  read_long_array s x count = read_array s x 4 count

  unfoldable pub read_llong_array : InputStream → List ℕ → ℕ → Outcome (Bool × List ℕ × InputStream)
  read_llong_array s x count = read_array s x 4 count

  unfoldable pub read_ullong_array :
      InputStream → List ℕ → ℕ → Outcome (Bool × List ℕ × InputStream)
  read_ullong_array s x count = read_array s x 8 count

  unfoldable pub read_float_array : InputStream → List ℕ → ℕ → Outcome (Bool × List ℕ × InputStream)
  read_float_array s x count = read_array s x 4 count

  unfoldable pub read_double_array :
      InputStream → List ℕ → ℕ → Outcome (Bool × List ℕ × InputStream)
  read_double_array s x count = read_array s x 8 count
