-- ===== src/Stream/RoundTrip.antt =====
-- write_float of src/common/output_stream.cpp, and what read_float of src/common/input_stream.cpp makes
-- of it on another host.
use librtaio.Base.{ℕ, ◌%◌, ◌^◌, ◌≤◌, ◌≡◌, ◌∙◌, true, List, [], ◌++◌, length, drop, done}
use librtaio.Stream.Host.{Host}
use librtaio.Stream.ByteOrder.{be_bytes}
use librtaio.Stream.ByteOrder.Swap.{of_be_4, length-be_bytes, be_bytes-IsBytes}
use librtaio.Stream.Output.{write_float}
use librtaio.Stream.Output.Words.{open_output, write_4_lem}
use librtaio.Stream.Input.{read_float}
use librtaio.Stream.Input.Words.{open_input, read_4_lem}

module _ (h0 h : Host) (v x : ℕ) (target rest : List ℕ) where
  -- A float is not sent as its bit pattern: on a stream with room, what arrives as a float is the
  -- pattern of the integer that the sender's value converts to, reduced to 32 bits.
  pub float_not_restored :
      4 ≤ length target
      → (write_float h0 (open_output h0 [] target) v
          ≡ done (true, open_output h0 (be_bytes 4 (h0.float_to_ulong v)) (drop 4 target)))
        × (read_float h (open_input h [] (be_bytes 4 (h0.float_to_ulong v) ++ rest)) x
            ≡ done (
              true,
              h0.float_to_ulong v % 2 ^ 32,
              open_input h (be_bytes 4 (h0.float_to_ulong v)) rest,
            ))
  unfolding write_float read_float
  float_not_restored fits =
      let k = h0.float_to_ulong v in
      (
        write_4_lem h0 [] target k fits,
        read_4_lem h 0 [] (be_bytes 4 k) rest x (length-be_bytes 4 k) (be_bytes-IsBytes 4 k)
            ∙ rw (of_be_4 k),
      )
