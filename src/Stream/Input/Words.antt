-- ===== src/Stream/Input/Words.antt =====
-- What one word read from an input stream is, on either host.
use librtaio.Base.{
  ℕ, ◌-◌, ◌^◌, ◌≤◌, ◌<◌, ◌≡◌, refl, subst, sym, Bool, true, false, List, [], ◌∷◌, ◌++◌, arith,
  length, take, drop, take_all, drop_all, length-take-le, take-append, drop-append, overlay,
  overlay_same, length-append, Outcome, done, aborted, none, leb, ltb, ◌==◌, le→leb, lt→leb,
  ==_refl, if◌then◌else◌, Bool-cases, inl, inr,
}
use librtaio.Stream.Host.{Host}
use librtaio.Stream.ByteOrder.{of_be, store, load, swap_2, swap_4, swap_8}
use librtaio.Stream.ByteOrder.Swap.{
  to_net, IsBytes, swap_2-load, swap_4-load, swap_8-load, length-be_bytes, length-le_bytes,
  is_little_endian_lem,
}
use librtaio.Stream.Buffer.{istreambuf, sgetn, underflow}
use librtaio.Stream.Input.{
  InputStream, input_stream, read, read_word, read_1, read_2, read_4, read_8,
}

net_1 :
    (little : Bool) (bs : List ℕ)
    → length bs ≡ 1
    → to_net little (λ _ v. v) (load little bs) ≡ of_be bs
net_1 little [] e = absurd (omega arith)
net_1 true (b ∷ []) e = refl
net_1 false (b ∷ []) e = refl
net_1 little (b ∷ c ∷ bs) e = absurd (omega arith)

ltb-false : (a b : ℕ) → b ≤ a → ltb a b ≡ false
ltb-false a b h = ground arith

eq-false : (a b : ℕ) → a < b → (a == b) ≡ false
eq-false a b h = ground arith

-- A good stream at work on a buffer: what is read, and what is still to come. The buffer's end is
-- `beyond` bytes behind the end of its array.
abbrev pub past_input : Host → ℕ → List ℕ → List ℕ → InputStream
past_input h beyond consumed remaining = record {
  buf = record { consumed = consumed; remaining = remaining; beyond = beyond };
  good = true;
  is_little_order = h.little;
}

abbrev pub open_input : Host → List ℕ → List ℕ → InputStream
open_input h = past_input h 0

module _ (h : Host) where
  pub input_stream-open :
      (base : List ℕ) → input_stream h (istreambuf base (length base)) ≡ open_input h [] base
  unfolding input_stream istreambuf
  input_stream-open base =
      rw (is_little_endian_lem h.little, take_all (length base) base (omega arith)) (ground arith)

  -- The same where the buffer is said to be longer than its array.
  pub input_stream-past :
      (base : List ℕ) (n : ℕ)
      → length base ≤ n
      → input_stream h (istreambuf base n) ≡ past_input h (n - length base) [] base
  unfolding input_stream istreambuf
  input_stream-past base n long =
      rw (is_little_endian_lem h.little, take_all n base long) (ground arith)

  underflow_lem : underflow h ≡ (if h.asserts then aborted else done none)
  unfolding underflow
  underflow_lem = refl

  -- A read of less than 2^63 bytes into an array with room takes the next `n` bytes. Where fewer
  -- remain, it aborts the process where asserts are compiled in; where they are not, it takes
  -- those and the stream has failed.
  pub read_lem :
      (consumed remaining mem : List ℕ) (n : ℕ)
      → n < 2 ^ 63
      → n ≤ length mem
      → read h (open_input h consumed remaining) mem n ≡ (
          if leb n (length remaining)
          then done (
            true,
            overlay (take n remaining) mem,
            open_input h (consumed ++ take n remaining) (drop n remaining),
          )
          else if h.asserts
          then aborted
          else done (
            false,
            overlay remaining mem,
            record (open_input h (consumed ++ remaining) []) { good = false },
          ))
  unfolding read sgetn
  read_lem consumed remaining mem n small room = elim (Bool-cases (leb n (length remaining))) [
    | inl enough ↦ rw (
      lt→leb (2 ^ 63) n small,
      ltb-false (length mem) (length (take n remaining))
          (omega (arith, length-take-le n remaining)),
      enough,
      ==_refl n,
    )
    | inr short ↦
        let rest_short : length remaining < n = ground arith in
        rw
          (
            lt→leb (2 ^ 63) n small,
            ltb-false (length mem) (length (take n remaining))
                (omega (arith, length-take-le n remaining)),
            short,
            take_all n remaining (omega arith),
            drop_all n remaining (omega arith),
            underflow_lem,
          )
          (elim (Bool-cases h.asserts) [
            | inl on ↦ rw on
            | inr off ↦ rw (off, eq-false (length remaining) n rest_short)
          ])
  ]

module _ (h : Host) (beyond : ℕ) where
  pub read-append :
      (consumed bs rest mem : List ℕ)
      → length bs < 2 ^ 63
      → length bs ≤ length mem
      → read h (past_input h beyond consumed (bs ++ rest)) mem (length bs)
        ≡ done (true, overlay bs mem, past_input h beyond (consumed ++ bs) rest)
  unfolding read sgetn
  read-append consumed bs rest mem small room = rw (
    lt→leb (2 ^ 63) (length bs) small,
    le→leb (length bs) (length (bs ++ rest)) (omega (arith, length-append {0} bs rest)),
    take-append (length bs) bs rest refl,
    drop-append (length bs) bs rest refl,
    ltb-false (length mem) (length bs) room,
    ==_refl (length bs),
  )

  pub length-store : (little : Bool) (w x : ℕ) → length (store little w x) ≡ w
  length-store true w x = length-le_bytes w x
  length-store false w x = length-be_bytes w x

  read_word_lem :
      (swap_w : Bool → ℕ → ℕ) (consumed bs rest : List ℕ) (x : ℕ)
      → length bs < 2 ^ 63
      → to_net h.little swap_w (load h.little bs) ≡ of_be bs
      → read_word h swap_w (length bs) (past_input h beyond consumed (bs ++ rest)) x
        ≡ done (true, of_be bs, past_input h beyond (consumed ++ bs) rest)
  unfolding read_word
  read_word_lem swap_w consumed bs rest x small net = rw (
    read-append consumed bs rest (store h.little (length bs) x) small
        (omega (arith, length-store h.little (length bs) x)),
    overlay_same bs (store h.little (length bs) x) (sym (length-store h.little (length bs) x)),
    net,
  )

  -- Words that arrive whole are read by value, in network order.
  abbrev Receives : ℕ → (InputStream → ℕ → Outcome (Bool × ℕ × InputStream)) → Type 0
  Receives w read_w =
      (consumed bs rest : List ℕ) (x : ℕ)
      → length bs ≡ w
      → IsBytes bs
      → read_w (past_input h beyond consumed (bs ++ rest)) x
        ≡ done (true, of_be bs, past_input h beyond (consumed ++ bs) rest)

  received :
      (w : ℕ) (swap_w : Bool → ℕ → ℕ) (consumed bs rest : List ℕ) (x : ℕ)
      → length bs ≡ w
      → w < 2 ^ 63
      → to_net h.little swap_w (load h.little bs) ≡ of_be bs
      → read_word h swap_w w (past_input h beyond consumed (bs ++ rest)) x
        ≡ done (true, of_be bs, past_input h beyond (consumed ++ bs) rest)
  received w swap_w consumed bs rest x e small net =
      subst
        (λ k.
          read_word h swap_w k (past_input h beyond consumed (bs ++ rest)) x
          ≡ done (true, of_be bs, past_input h beyond (consumed ++ bs) rest))
        e (read_word_lem swap_w consumed bs rest x (omega arith) net)

  pub read_1_lem : Receives 1 (read_1 h)
  unfolding read_1
  read_1_lem consumed bs rest x e b =
      received 1 (λ _ v. v) consumed bs rest x e (omega arith) (net_1 h.little bs e)

  pub read_2_lem : Receives 2 (read_2 h)
  unfolding read_2
  read_2_lem consumed bs rest x e b =
      received 2 (swap_2) consumed bs rest x e (omega arith) (swap_2-load h.little bs b e)

  pub read_4_lem : Receives 4 (read_4 h)
  unfolding read_4
  read_4_lem consumed bs rest x e b =
      received 4 (swap_4) consumed bs rest x e (omega arith) (swap_4-load h.little bs b e)

  pub read_8_lem : Receives 8 (read_8 h)
  unfolding read_8
  read_8_lem consumed bs rest x e b =
      received 8 (swap_8) consumed bs rest x e (omega arith) (swap_8-load h.little bs b e)
