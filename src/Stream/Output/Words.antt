-- ===== src/Stream/Output/Words.antt =====
-- What one word written to an output stream does, on either host.
use librtaio.Base.{
  ℕ, ◌+◌, ◌-◌, ◌≤◌, ◌<◌, ◌≡◌, refl, Bool, true, false, List, [], ◌∷◌, ◌++◌, arith, length,
  length-drop, take, drop, take_all, done, aborted, le→leb, leb, ◌||◌, not, if◌then◌else◌,
  Bool-cases, inl, inr, ==_refl,
}
use librtaio.Stream.Host.{Host}
use librtaio.Stream.ByteOrder.{be_bytes, store}
use librtaio.Stream.ByteOrder.Swap.{
  swap_2_lem, swap_4_lem, swap_8_lem, length-be_bytes, is_little_endian_lem,
}
use librtaio.Stream.Buffer.{ostreambuf, sputn, spill, overflow}
use librtaio.Stream.Output.{OutputStream, output_stream, write, write_1, write_2, write_4, write_8}

module _ (h : Host) where
  -- A good stream at work on a buffer: what is written, and what is still to be overwritten.
  abbrev pub open_output : List ℕ → List ℕ → OutputStream
  open_output written target = record {
    buf = record { written = written; target = target; beyond = 0 };
    good = true;
    is_little_order = h.little;
  }

  pub output_stream-open :
      (base : List ℕ) → output_stream h (ostreambuf base (length base)) ≡ open_output [] base
  unfolding output_stream ostreambuf
  output_stream-open base =
      rw (is_little_endian_lem h.little, take_all (length base) base (omega arith)) (ground arith)

  spill_lem : h.asserts ≡ false → (bs : List ℕ) → spill h bs ≡ done (length bs)
  unfolding spill overflow
  spill_lem e [] = refl
  spill_lem e (b ∷ bs) = rw (e, spill_lem e bs)

  spill_abort : h.asserts ≡ true → (bs : List ℕ) → 0 < length bs → spill h bs ≡ aborted
  unfolding spill overflow
  spill_abort e [] p = absurd (omega arith)
  spill_abort e (b ∷ bs) p = rw e

  -- A write appends what fits. Bytes that do not fit abort the process where asserts are compiled
  -- in; where they are not, they are dropped and the write still reports success.
  pub write_lem :
      (written target bs : List ℕ)
      → write h (open_output written target) bs ≡ (
          if leb (length bs) (length target) || not h.asserts
          then done
              (true, open_output (written ++ take (length target) bs) (drop (length bs) target))
          else aborted)
  unfolding write sputn
  write_lem written target bs = elim (Bool-cases (leb (length bs) (length target))) [
    | inl fits ↦ rw (fits, ==_refl (length bs))
    | inr spills ↦ elim (Bool-cases h.asserts) [
      | inl on ↦ rw (
        spills,
        spill_abort on (drop (length target) bs) (ground (arith, length-drop (length target) bs)),
        on,
      )
      | inr off ↦
          let count : length target + (length bs - length target) ≡ length bs = ground arith in
          rw (
            spills,
            spill_lem off (drop (length target) bs),
            length-drop (length target) bs,
            count,
            ==_refl (length bs),
            off,
          )
    ]
  ]

  pub write-room :
      (written target bs : List ℕ)
      → length bs ≤ length target
      → write h (open_output written target) bs
        ≡ done (true, open_output (written ++ bs) (drop (length bs) target))
  write-room written target bs fits = rw (
    write_lem written target bs,
    le→leb (length bs) (length target) fits,
    take_all (length target) bs fits,
  )

  write_word :
      (w : ℕ) (written target : List ℕ) (x : ℕ) {stored : List ℕ}
      → stored ≡ be_bytes w x
      → w ≤ length target
      → write h (open_output written target) stored
        ≡ done (true, open_output (written ++ be_bytes w x) (drop w target))
  write_word w written target x e fits = rw (
    e,
    write-room written target (be_bytes w x) (omega (arith, length-be_bytes w x)),
    length-be_bytes w x,
  )

  pub write_1_lem :
      (written target : List ℕ) (x : ℕ)
      → 1 ≤ length target
      → write_1 h (open_output written target) x
        ≡ done (true, open_output (written ++ be_bytes 1 x) (drop 1 target))
  unfolding write_1 be_bytes
  write_1_lem written target x = write_word 1 written target x (store_1 h.little)
    where
      store_1 : (little : Bool) → store little 1 x ≡ be_bytes 1 x
      store_1 true = refl
      store_1 false = refl

  pub write_2_lem :
      (written target : List ℕ) (x : ℕ)
      → 2 ≤ length target
      → write_2 h (open_output written target) x
        ≡ done (true, open_output (written ++ be_bytes 2 x) (drop 2 target))
  unfolding write_2
  write_2_lem written target x = write_word 2 written target x (swap_2_lem h.little x).0

  pub write_4_lem :
      (written target : List ℕ) (x : ℕ)
      → 4 ≤ length target
      → write_4 h (open_output written target) x
        ≡ done (true, open_output (written ++ be_bytes 4 x) (drop 4 target))
  unfolding write_4
  write_4_lem written target x = write_word 4 written target x (swap_4_lem h.little x).0

  pub write_8_lem :
      (written target : List ℕ) (x : ℕ)
      → 8 ≤ length target
      → write_8 h (open_output written target) x
        ≡ done (true, open_output (written ++ be_bytes 8 x) (drop 8 target))
  unfolding write_8
  write_8_lem written target x = write_word 8 written target x (swap_8_lem h.little x).0
