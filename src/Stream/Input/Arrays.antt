-- ===== src/Stream/Input/Arrays.antt =====
-- An array read back from what `write_array` sent.
use librtaio.Base.{
  ◌≤◌, ℕ, zero, suc, ◌+◌, ◌*◌, ◌%◌, ◌^◌, ◌<◌, ◌≡◌, refl, ap₂, subst, sym, Bool, true, false, List,
  [], ◌∷◌, ◌++◌, arith, length, length-drop, length-append, length-take, take, drop, le→leb,
  if◌then◌else◌, take-append-drop, Outcome, fault, lt→leb, lt→ltb, overlay, done, ◌>>=◌,
  take-append, drop-append, overlay_same, Bool-cases, inl, inr,
}
use mathlib.Core.List.{reverse, reverse-reverse}
use librtaio.Stream.Host.{Host}
use librtaio.Stream.ByteOrder.{
  be_bytes, of_be, le_bytes, of_le, load, store, swap_2, swap_4, swap_8,
}
use librtaio.Stream.ByteOrder.Swap.{
  length-be_bytes, be_bytes-IsBytes, le_bytes-of_le, IsBytes, All-reverse_aux, length-reverse_aux,
  swap_2-reverse, swap_4-reverse, swap_8-reverse,
}
use librtaio.Stream.Output.Arrays.{net_elems, length-net_elems}
use librtaio.Stream.Input.{read_char_array, InputStream, read, swap_elems, read_array}
use librtaio.Stream.Input.Words.{open_input, past_input, read-append}

IsBytes-take : (n : ℕ) (bs : List ℕ) → IsBytes bs → IsBytes (take n bs)
IsBytes-take zero bs h = tt
IsBytes-take (suc n) [] h = tt
IsBytes-take (suc n) (b ∷ bs) h = (h.0, IsBytes-take n bs h.1)

IsBytes-drop : (n : ℕ) (bs : List ℕ) → IsBytes bs → IsBytes (drop n bs)
IsBytes-drop zero bs h = h
IsBytes-drop (suc n) [] h = tt
IsBytes-drop (suc n) (b ∷ bs) h = IsBytes-drop n bs h.1

pub le_bytes-round : (w : ℕ) (bs : List ℕ) → length bs ≡ w → IsBytes bs → le_bytes w (of_le bs) ≡ bs
le_bytes-round w bs e b = subst (λ k. le_bytes k (of_le bs) ≡ bs) e (le_bytes-of_le bs b)

-- A chunk of memory, sent by a little-endian host and swapped back by one, is the same chunk.
chunk_round :
    (w : ℕ) (swap_w : Bool → ℕ → ℕ)
    → ((b : Bool) (v : ℕ) → swap_w b v ≡ of_be (le_bytes w v))
    → (little : Bool) → little ≡ true
    → (chunk : List ℕ) → length chunk ≡ w
    → IsBytes chunk
    → store little w (swap_w little (load little (be_bytes w (load little chunk)))) ≡ chunk
unfolding be_bytes
chunk_round w swap_w h false big chunk e b = absurd (cc)
chunk_round w swap_w h true big chunk e b =
    rw
      (
        h,
        le_bytes-round w (be_bytes w (of_le chunk)) (length-be_bytes w (of_le chunk))
            (be_bytes-IsBytes w (of_le chunk)),
        reverse-reverse (le_bytes w (of_le chunk)),
        le_bytes-round w chunk e b,
      )
      (le_bytes-round w chunk e b)

-- A big-endian host's memory is in network order as it is.
pub net_elems-big :
    (w n : ℕ) (mem : List ℕ) → length mem ≡ w * n → IsBytes mem → net_elems false w n mem ≡ mem
unfolding net_elems be_bytes
net_elems-big w zero [] e b = refl
net_elems-big w zero (x ∷ mem) e b = absurd (omega arith)
net_elems-big w (suc n) mem e b = rw (
  le_bytes-round w (reverse (take w mem))
      (omega (arith, length-reverse_aux {0} (take w mem) [], length-take w mem (omega arith)))
      (All-reverse_aux (λ x. x < 256) (take w mem) [] (IsBytes-take w mem b) tt),
  reverse-reverse (take w mem),
  net_elems-big w n (drop w mem) (omega (arith, length-drop w mem)) (IsBytes-drop w mem b),
  take-append-drop w mem,
)

-- Single bytes have no order.
pub net_elems-bytes :
    (little : Bool) (n : ℕ) (mem : List ℕ)
    → length mem ≡ 1 * n
    → IsBytes mem
    → net_elems little 1 n mem ≡ mem
unfolding net_elems be_bytes
net_elems-bytes little zero [] e b = refl
net_elems-bytes little zero (x ∷ mem) e b = absurd (omega arith)
net_elems-bytes little (suc n) [] e b = absurd (omega arith)
net_elems-bytes true (suc n) (x ∷ mem) e b =
    let same : (x + 256 * 0) % 256 ≡ x = omega arith in
    ap₂ ◌∷◌ same (net_elems-bytes true n mem (omega arith) b.1)
net_elems-bytes false (suc n) (x ∷ mem) e b =
    let same : (x + 256 * 0) % 256 ≡ x = omega arith in
    ap₂ ◌∷◌ same (net_elems-bytes false n mem (omega arith) b.1)

-- The end of `read_array`, once all bytes came.
abbrev swapped_or_not :
    Bool → Outcome (List ℕ) → List ℕ → InputStream → Outcome (Bool × List ℕ × InputStream)
swapped_or_not little swapped net s =
    if little then (swapped >>= λ m. done (true, m, s)) else done (true, net, s)

swapped_or_not_lem :
    (little : Bool) (swapped : Outcome (List ℕ)) (net mem : List ℕ) (s : InputStream)
    → (little ≡ true → swapped ≡ done mem)
    → (little ≡ false → net ≡ mem)
    → swapped_or_not little swapped net s ≡ done (true, mem, s)
swapped_or_not_lem true swapped net mem s p q = rw (p refl)
swapped_or_not_lem false swapped net mem s p q = rw (q refl)

module _ (h : Host) where
  swap_elems-net :
      h.little ≡ true
      → (w : ℕ) (swap_w : Bool → ℕ → ℕ) → ((b : Bool) (v : ℕ) → swap_w b v ≡ of_be (le_bytes w v))
      → (n : ℕ) (mem : List ℕ) → length mem ≡ w * n
      → IsBytes mem
      → swap_elems h swap_w w n (net_elems h.little w n mem) ≡ done mem
  unfolding swap_elems net_elems
  swap_elems-net little w swap_w rev zero [] e b = refl
  swap_elems-net little w swap_w rev zero (x ∷ mem) e b = absurd (omega arith)
  swap_elems-net little w swap_w rev (suc n) mem e b =
      let sent = be_bytes w (load h.little (take w mem)) in
      let sent_rest = net_elems h.little w n (drop w mem) in
      let size : length sent ≡ w = length-be_bytes w (load h.little (take w mem)) in
      rw (
        le→leb w (length (sent ++ sent_rest)) (omega (arith, length-append {0} sent sent_rest)),
        swap_elems,
        take-append w sent sent_rest size,
        drop-append w sent sent_rest size,
        swap_elems-net little w swap_w rev n (drop w mem) (omega (arith, length-drop w mem))
            (IsBytes-drop w mem b),
        chunk_round w swap_w rev h.little little (take w mem) (length-take w mem (omega arith))
            (IsBytes-take w mem b),
        take-append-drop w mem,
      )

  -- Arrays of one element size that `write_array` sent are read back as they were.
  abbrev pub Restores : ℕ → ℕ → Type 0
  Restores w beyond =
      (n : ℕ) (mem dest consumed rest : List ℕ)
      → w * n < 2 ^ 63
      → length mem ≡ w * n
      → length dest ≡ w * n
      → IsBytes mem
      → read_array h (past_input h beyond consumed (net_elems h.little w n mem ++ rest)) dest w n
        ≡ done (true, mem, past_input h beyond (consumed ++ net_elems h.little w n mem) rest)

  read_net :
      (beyond w n : ℕ) (mem dest consumed rest : List ℕ)
      → w * n < 2 ^ 63
      → length dest ≡ w * n
      → read h
          (past_input h beyond consumed (net_elems h.little w n mem ++ rest))
          dest
          (w * n % 2 ^ 64)
        ≡ done (
          true,
          net_elems h.little w n mem,
          past_input h beyond (consumed ++ net_elems h.little w n mem) rest,
        )
  read_net beyond w n mem dest consumed rest small e =
      let sent = net_elems h.little w n mem in
      let size : length sent ≡ w * n % 2 ^ 64 = omega (arith, length-net_elems h.little w n mem) in
      rw (
        ← size,
        read-append h beyond consumed sent rest dest (omega arith) (omega arith),
        overlay_same sent dest (omega arith),
      )

  pub read_array_1 : (beyond : ℕ) → Restores 1 beyond
  unfolding read_array
  read_array_1 beyond n mem dest consumed rest small e e' b =
      rw (read_net beyond 1 n mem dest consumed rest small e', net_elems-bytes h.little n mem e b)
        (elim (Bool-cases h.little) [ inl l ↦ ground arith | inr l ↦ ground arith ])

  restored :
      (w : ℕ) (swap_w : Bool → ℕ → ℕ)
      → ((b : Bool) (v : ℕ) → swap_w b v ≡ of_be (le_bytes w v))
      → (n : ℕ) (mem : List ℕ) (s : InputStream) → length mem ≡ w * n
      → IsBytes mem
      → swapped_or_not h.little
          (swap_elems h swap_w w n (net_elems h.little w n mem))
          (net_elems h.little w n mem)
          s
        ≡ done (true, mem, s)
  restored w swap_w rev n mem s e b =
      swapped_or_not_lem h.little _ _ mem s (λ l. swap_elems-net l w swap_w rev n mem e b)
        (λ l. subst (λ k. net_elems k w n mem ≡ mem) (sym l) (net_elems-big w n mem e b))

  pub read_array_2 : (beyond : ℕ) → Restores 2 beyond
  unfolding read_array
  read_array_2 beyond n mem dest consumed rest small e e' b =
      rw (read_net beyond 2 n mem dest consumed rest small e')
        (restored 2 swap_2 swap_2-reverse n mem _ e b)

  pub read_array_4 : (beyond : ℕ) → Restores 4 beyond
  unfolding read_array
  read_array_4 beyond n mem dest consumed rest small e e' b =
      rw (read_net beyond 4 n mem dest consumed rest small e')
        (restored 4 swap_4 swap_4-reverse n mem _ e b)

  pub read_array_8 : (beyond : ℕ) → Restores 8 beyond
  unfolding read_array
  read_array_8 beyond n mem dest consumed rest small e e' b =
      rw (read_net beyond 8 n mem dest consumed rest small e')
        (restored 8 swap_8 swap_8-reverse n mem _ e b)

  -- More bytes than the char array holds are written behind its end.
  pub read_char_array-overrun :
      (consumed bs rest mem : List ℕ)
      → length bs < 2 ^ 31
      → length mem < length bs
      → read_char_array h (open_input h consumed (bs ++ rest)) mem (length bs) ≡ fault
  unfolding read_char_array read_array read
  read_char_array-overrun consumed bs rest mem small over =
      let size : 1 * length bs % 2 ^ 64 ≡ length bs = omega arith in
      rw (
        size,
        lt→leb (2 ^ 63) (length bs) (omega arith),
        take-append (length bs) bs rest refl,
        lt→ltb (length mem) (length bs) over,
      )

module _ (h : Host) (beyond : ℕ) where
  -- Bytes go to the front of a char array that has room for them.
  pub read_char_array-append :
      (consumed bs rest mem : List ℕ)
      → length bs < 2 ^ 31
      → length bs ≤ length mem
      → read_char_array h (past_input h beyond consumed (bs ++ rest)) mem (length bs)
        ≡ done (true, overlay bs mem, past_input h beyond (consumed ++ bs) rest)
  unfolding read_char_array read_array
  read_char_array-append consumed bs rest mem small room =
      let size : 1 * length bs % 2 ^ 64 ≡ length bs = omega arith in
      rw (size, read-append h beyond consumed bs rest mem (omega arith) room)
        (elim (Bool-cases h.little) [ inl l ↦ ground arith | inr l ↦ ground arith ])
