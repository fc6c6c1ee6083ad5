-- ===== src/Stream/Output/Arrays.antt =====
-- What an array written to an output stream becomes on the network.
use librtaio.Base.{
  ℕ, zero, suc, ◌+◌, ◌*◌, ◌≤◌, ◌≡◌, refl, Bool, true, List, [], ◌++◌, arith, length, length-drop,
  length-append, take, drop, drop-drop, le→leb, append_assoc, append-nil, Outcome, done,
  take-append_le, drop-append_le, ◌==◌,
}
use librtaio.Stream.Host.{Host}
use librtaio.Stream.ByteOrder.{be_bytes, load}
use librtaio.Stream.ByteOrder.Swap.{length-be_bytes}
use librtaio.Stream.Output.{
  OutputStream, write_1, write_2, write_4, write_8, write_elems, write_array, write_llong_array,
}
use librtaio.Stream.Output.Words.{open_output, write_1_lem, write_2_lem, write_4_lem, write_8_lem}

-- The first `n` elements of `w` bytes in a host's memory, each in network order.
unfoldable pub net_elems : Bool → ℕ → ℕ → List ℕ → List ℕ
net_elems little w zero mem = []
net_elems little w (suc n) mem =
    be_bytes w (load little (take w mem)) ++ net_elems little w n (drop w mem)

pub length-net_elems :
    (little : Bool) (w n : ℕ) (mem : List ℕ) → length (net_elems little w n mem) ≡ w * n
unfolding net_elems
length-net_elems little w zero mem = omega arith
length-net_elems little w (suc n) mem = omega (
  arith,
  length-append {0} (be_bytes w (load little (take w mem))) (net_elems little w n (drop w mem)),
  length-be_bytes w (load little (take w mem)),
  length-net_elems little w n (drop w mem),
)

-- Only the elements counted matter.
pub net_elems-append :
    (little : Bool) (w n : ℕ) (mem rest : List ℕ)
    → length mem ≡ w * n
    → net_elems little w n (mem ++ rest) ≡ net_elems little w n mem
unfolding net_elems
net_elems-append little w zero mem rest e = refl
net_elems-append little w (suc n) mem rest e = rw (
  take-append_le w mem rest (omega arith),
  drop-append_le w mem rest (omega arith),
  net_elems-append little w n (drop w mem) rest (omega (arith, length-drop w mem)),
)

module _ (h : Host) where
  write_elems_lem :
      (write_w : OutputStream → ℕ → Outcome (Bool × OutputStream)) (w : ℕ)
      → ((written target : List ℕ) (x : ℕ)
          → w ≤ length target
          → write_w (open_output h written target) x
            ≡ done (true, open_output h (written ++ be_bytes w x) (drop w target)))
      → (n : ℕ) (mem written target : List ℕ) (ret_count : ℕ) → w * n ≤ length mem
      → w * n ≤ length target
      → write_elems h write_w w n mem (open_output h written target) ret_count
        ≡ done (
          ret_count + n,
          open_output h (written ++ net_elems h.little w n mem) (drop (w * n) target),
        )
  unfolding write_elems net_elems
  write_elems_lem write_w w word zero mem written target ret_count p q =
      let none_written : w * 0 ≡ 0 = omega arith in
      let same_count : ret_count + 0 ≡ ret_count = omega arith in
      rw (none_written, same_count, append-nil)
  write_elems_lem write_w w word (suc n) mem written target ret_count p q =
      let all_written : w + w * n ≡ w * suc n = omega arith in
      let one_more : ret_count + 1 + n ≡ ret_count + suc n = omega arith in
      rw (
        le→leb w (length mem) (omega arith),
        write_elems,
        word written target (load h.little (take w mem)) (omega arith),
        write_elems_lem write_w w word n (drop w mem)
            (written ++ be_bytes w (load h.little (take w mem))) (drop w target) (ret_count + 1)
            (omega (arith, length-drop w mem)) (omega (arith, length-drop w target)),
        append_assoc,
        drop-drop w (w * n) target,
        all_written,
        one_more,
      )

  -- A whole array of one element size goes out element by element, each in network order.
  abbrev pub Sends : ℕ → Type 0
  Sends w =
      (n : ℕ) (mem written target : List ℕ)
      → w * n ≤ length mem
      → w * n ≤ length target
      → write_array h (open_output h written target) mem w n
        ≡ done (true, open_output h (written ++ net_elems h.little w n mem) (drop (w * n) target))

  count_lem : (n : ℕ) → (0 + n == n) ≡ true
  count_lem n = ground arith

  pub write_array_1 : Sends 1
  unfolding write_array
  write_array_1 n mem written target p q =
      rw (write_elems_lem (write_1 h) 1 (write_1_lem h) n mem written target 0 p q, count_lem n)

  pub write_array_2 : Sends 2
  unfolding write_array
  write_array_2 n mem written target p q =
      rw (write_elems_lem (write_2 h) 2 (write_2_lem h) n mem written target 0 p q, count_lem n)

  pub write_array_4 : Sends 4
  unfolding write_array
  write_array_4 n mem written target p q =
      rw (write_elems_lem (write_4 h) 4 (write_4_lem h) n mem written target 0 p q, count_lem n)

  pub write_array_8 : Sends 8
  unfolding write_array
  write_array_8 n mem written target p q =
      rw (write_elems_lem (write_8 h) 8 (write_8_lem h) n mem written target 0 p q, count_lem n)

  -- An array of `n` elements of 64 bits whose bytes are the halves `front` and `back`, and a
  -- stream with room: write_llong_array sends the front half alone, as `n` words of 32 bits, and
  -- reports success.
  pub write_llong_array_half :
      (n : ℕ) (front back written target : List ℕ)
      → length front ≡ 4 * n
      → length back ≡ 4 * n
      → 4 * n ≤ length target
      → write_llong_array h (open_output h written target) (front ++ back) n
        ≡ done (true, open_output h (written ++ net_elems h.little 4 n front) (drop (4 * n) target))
  unfolding write_llong_array
  write_llong_array_half n front back written target e e' q = rw (
    write_array_4 n (front ++ back) written target (omega (arith, length-append {0} front back)) q,
    net_elems-append h.little 4 n front back e,
  )
