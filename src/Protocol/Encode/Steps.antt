-- ===== src/Protocol/Encode/Steps.antt =====
-- One round of serialize_packet's loop, and what each kind of field sends.
use Prim.Native.String.{String}
use librtaio.Base.{
  ◌≢◌, ne→eq, ℕ, suc, ◌+◌, ◌%◌, ◌^◌, ◌≤◌, ◌≡◌, subst, true, List, ◌∷◌, ◌++◌, Option, some, length,
  drop, ◌==◌, if◌then◌else◌, Outcome, done, ◌>>=◌,
}
use librtaio.Stream.Host.{Host}
use librtaio.Stream.ByteOrder.{be_bytes}
use librtaio.Stream.Output.{OutputStream, write_char, write_short, write_long, write_llong}
use librtaio.Stream.Output.Words.{open_output, write_1_lem, write_2_lem, write_4_lem, write_8_lem}
use librtaio.Protocol.Field.{
  Field, type_char, type_short, type_long, type_longlong, is_field, field_hcrc, field_bmark,
  field_count, scalar,
}
use librtaio.Protocol.Encode.{write_field, fill_crc, serialize_loop}

-- What the loops do with their own field before the rest: it is put back in front.
abbrev pub keeping {ℓ} :
    {S : Type ℓ} → Field → Outcome (ℕ × List Field × S) → Outcome (ℕ × List Field × S)
keeping p m = m >>= λ rest. done (rest.0, p ∷ rest.1, rest.2)

module _ (h : Host) where
  abbrev pub count_after : ℕ → Option ℕ → Field → Option ℕ
  count_after n cnt p = if n == field_count then some p.ivalue else cnt

  abbrev pub base_after : ℕ → Option ℕ → OutputStream → Option ℕ
  base_after n base out = if n + 1 == field_bmark then some (length out.buf.written) else base

  module _ (len n : ℕ) (cnt : Option ℕ) (prev : Option Field) (base : Option ℕ) (p : Field)
      (ps : List Field) (out : OutputStream) (written target : List ℕ)
      (f : is_field p.type ≡ true) where
    -- The round with `q` as the field to send.
    abbrev Round : Field → Type 0
    Round q =
        write_field h (count_after n cnt q) prev q out ≡ done (some (open_output h written target))
        → serialize_loop h len n cnt prev base (p ∷ ps) out
          ≡ keeping q (
              serialize_loop h len (suc n) (count_after n cnt q) (some q)
                (base_after n base (open_output h written target)) ps
                (open_output h written target))

    serialize-Round : Round (fill_crc h len n base out p)
    unfolding serialize_loop
    serialize-Round w = rw (f, serialize_loop, w)

    pub serialize-step : {p' : Field} → fill_crc h len n base out p ≡ p' → Round p'
    serialize-step e = subst Round e serialize-Round

  pub fill_crc-plain :
      (len n : ℕ) (base : Option ℕ) (out : OutputStream) (p : Field)
      → n ≢ field_hcrc
      → n + 1 ≢ len
      → fill_crc h len n base out p ≡ p
  unfolding fill_crc
  fill_crc-plain len n base out p a b = rw (ne→eq n field_hcrc a, ne→eq (n + 1) len b)

  -- A field that appends `bs` to what is written, wherever it stands.
  abbrev pub Sends : Option ℕ → Option Field → Field → List ℕ → Type 0
  Sends cnt prev p bs =
      (written target : List ℕ)
      → length bs ≤ length target
      → write_field h cnt prev p (open_output h written target)
        ≡ done (some (open_output h (written ++ bs) (drop (length bs) target)))

  module _ (cnt : Option ℕ) (prev : Option Field) (v : ℕ) (n : String) where
    pub Sends-char : Sends cnt prev (scalar type_char v n) (be_bytes 1 (v % 2 ^ 8))
    unfolding write_field write_char be_bytes
    Sends-char written target fits = rw (write_1_lem h written target (v % 2 ^ 8) fits)

    pub Sends-short : Sends cnt prev (scalar type_short v n) (be_bytes 2 (v % 2 ^ 16))
    unfolding write_field write_short be_bytes
    Sends-short written target fits = rw (write_2_lem h written target (v % 2 ^ 16) fits)

    pub Sends-long : Sends cnt prev (scalar type_long v n) (be_bytes 4 (v % 2 ^ 32))
    unfolding write_field write_long be_bytes
    Sends-long written target fits = rw (write_4_lem h written target (v % 2 ^ 32) fits)

    pub Sends-longlong : Sends cnt prev (scalar type_longlong v n) (be_bytes 8 v)
    unfolding write_field write_llong be_bytes
    Sends-longlong written target fits = rw (write_8_lem h written target v fits)
