-- ===== src/Stream/ByteOrder/Swap.antt =====
-- The swaps of net_stream.cpp turn a host word into network order, and back.
use mathlib.Core.List.{reverse_aux}
use librtaio.Base.{
  ℕ, zero, suc, ◌+◌, ◌*◌, ◌/◌, ◌%◌, ◌^◌, ◌<◌, ◌≡◌, refl, ap, ap₂, subst, ◌∙◌, Bool, true, false,
  List, [], ◌∷◌, arith, if◌then◌else◌, length, All,
}
use librtaio.Stream.ByteOrder.{
  le_bytes, of_le, be_bytes, of_be, store, load, swap_2, swap_4, swap_8, is_little_endian,
}

abbrev pub IsBytes : List ℕ → Type 0
IsBytes = All (λ b. b < 256)

pub le_bytes-IsBytes : (w v : ℕ) → IsBytes (le_bytes w v)
le_bytes-IsBytes zero v = tt
le_bytes-IsBytes (suc w) v = (omega arith, le_bytes-IsBytes w (v / 256))

pub length-le_bytes : (w v : ℕ) → length (le_bytes w v) ≡ w
length-le_bytes zero v = refl
length-le_bytes (suc w) v = ap suc (length-le_bytes w (v / 256))

pub le_bytes-of_le : (bs : List ℕ) → IsBytes bs → le_bytes (length bs) (of_le bs) ≡ bs
le_bytes-of_le [] h = refl
le_bytes-of_le (b ∷ bs) h =
    let rest : ℕ = of_le bs in
    let low : (b + 256 * rest) % 256 ≡ b = omega arith in
    let high : (b + 256 * rest) / 256 ≡ rest = omega arith in
    ap₂ ◌∷◌ low (ap (le_bytes (length bs)) high ∙ le_bytes-of_le bs h.1)

pub swap_2-reverse : (little : Bool) (v : ℕ) → swap_2 little v ≡ of_be (le_bytes 2 v)
unfolding swap_2
swap_2-reverse true v = refl
swap_2-reverse false v = refl

pub swap_4-reverse : (little : Bool) (v : ℕ) → swap_4 little v ≡ of_be (le_bytes 4 v)
unfolding swap_4
swap_4-reverse true v = refl
swap_4-reverse false v = refl

pub swap_8-reverse : (little : Bool) (v : ℕ) → swap_8 little v ≡ of_be (le_bytes 8 v)
unfolding swap_8
swap_8-reverse true v = omega arith
swap_8-reverse false v = omega arith

pub All-reverse_aux {ℓ κ} :
    {A : Type ℓ} (P : A → Type κ) (xs ys : List A) → All P xs → All P ys → All P (reverse_aux xs ys)
All-reverse_aux P [] ys h k = k
All-reverse_aux P (x ∷ xs) ys h k = All-reverse_aux P xs (x ∷ ys) h.1 (h.0, k)

pub length-reverse_aux {ℓ} :
    {A : Type ℓ} (xs ys : List A) → length (reverse_aux xs ys) ≡ length xs + length ys
length-reverse_aux [] ys = omega arith
length-reverse_aux (x ∷ xs) ys = omega (arith, length-reverse_aux xs (x ∷ ys))

pub length-be_bytes : (w v : ℕ) → length (be_bytes w v) ≡ w
unfolding be_bytes
length-be_bytes w v = omega (arith, length-reverse_aux {0} (le_bytes w v) [], length-le_bytes w v)

pub be_bytes-IsBytes : (w v : ℕ) → IsBytes (be_bytes w v)
unfolding be_bytes
be_bytes-IsBytes w v = All-reverse_aux (λ b. b < 256) (le_bytes w v) [] (le_bytes-IsBytes w v) tt

-- A word whose value is the reversed bytes of `v` lies in memory as `v` goes over the network.
le_bytes-of_be : (w v : ℕ) → le_bytes w (of_be (le_bytes w v)) ≡ be_bytes w v
unfolding be_bytes
le_bytes-of_be w v =
    subst (λ k. le_bytes k (of_be (le_bytes w v)) ≡ be_bytes w v) (length-be_bytes w v)
      (le_bytes-of_le (be_bytes w v) (be_bytes-IsBytes w v))

-- What the streams' write_2, write_4 and write_8 do to a word before they send its memory.
abbrev pub to_net : Bool → (Bool → ℕ → ℕ) → ℕ → ℕ
to_net little swap v = if little then swap little v else v

net_store :
    (little : Bool) (w : ℕ) (swap : Bool → ℕ → ℕ)
    → ((b : Bool) (v : ℕ) → swap b v ≡ of_be (le_bytes w v))
    → (v : ℕ) → store little w (to_net little swap v) ≡ be_bytes w v
net_store true w swap h v = rw h (le_bytes-of_be w v)
net_store false w swap h v = refl

net_load :
    (little : Bool) (w : ℕ) (swap : Bool → ℕ → ℕ)
    → ((b : Bool) (v : ℕ) → swap b v ≡ of_be (le_bytes w v))
    → (bs : List ℕ) → length bs ≡ w
    → IsBytes bs
    → to_net little swap (load little bs) ≡ of_be bs
net_load true w swap h bs e k =
    rw h (ap of_be (subst (λ n. le_bytes n (of_le bs) ≡ bs) e (le_bytes-of_le bs k)))
net_load false w swap h bs e k = refl

pub is_little_endian_lem : (little : Bool) → is_little_endian little ≡ little
unfolding is_little_endian
is_little_endian_lem true = refl
is_little_endian_lem false = refl

-- What a word of 1, 2, 4 or 8 bytes reads as after the network.
pub of_be_1 : (v : ℕ) → of_be (be_bytes 1 v) ≡ v % 2 ^ 8
unfolding be_bytes
of_be_1 v = omega arith

pub of_be_2 : (v : ℕ) → of_be (be_bytes 2 v) ≡ v % 2 ^ 16
unfolding be_bytes
of_be_2 v = omega arith

pub of_be_4 : (v : ℕ) → of_be (be_bytes 4 v) ≡ v % 2 ^ 32
unfolding be_bytes
of_be_4 v = omega arith

pub of_be_8 : (v : ℕ) → of_be (be_bytes 8 v) ≡ v % 2 ^ 64
unfolding be_bytes
of_be_8 v = omega arith

swap_twice :
    (w : ℕ) (f : ℕ → ℕ)
    → ((v : ℕ) → f v ≡ of_be (le_bytes w v))
    → (v : ℕ) → f (f v) ≡ of_be (be_bytes w v)
swap_twice w f h v = h (f v) ∙ ap (λ t. of_be (le_bytes w t)) (h v) ∙ ap of_be (le_bytes-of_be w v)

module _ (little : Bool) (v : ℕ) where
  -- On a host of either byte order, a 16-bit word that is swapped on a little-endian host lies in
  -- memory in network order, and swap_2 undoes itself.
  pub swap_2_lem :
      (store little 2 (to_net little swap_2 v) ≡ be_bytes 2 v)
      × (swap_2 little (swap_2 little v) ≡ v % 2 ^ 16)
  swap_2_lem = (
    net_store little 2 swap_2 swap_2-reverse v,
    swap_twice 2 (swap_2 little) (swap_2-reverse little) v ∙ of_be_2 v,
  )

  -- On a host of either byte order, a 32-bit word that is swapped on a little-endian host lies in
  -- memory in network order, and swap_4 undoes itself.
  pub swap_4_lem :
      (store little 4 (to_net little swap_4 v) ≡ be_bytes 4 v)
      × (swap_4 little (swap_4 little v) ≡ v % 2 ^ 32)
  swap_4_lem = (
    net_store little 4 swap_4 swap_4-reverse v,
    swap_twice 4 (swap_4 little) (swap_4-reverse little) v ∙ of_be_4 v,
  )

  -- On a host of either byte order, a 64-bit word that is swapped on a little-endian host lies in
  -- memory in network order, and swap_8 undoes itself.
  pub swap_8_lem :
      (store little 8 (to_net little swap_8 v) ≡ be_bytes 8 v)
      × (swap_8 little (swap_8 little v) ≡ v % 2 ^ 64)
  swap_8_lem = (
    net_store little 8 swap_8 swap_8-reverse v,
    swap_twice 8 (swap_8 little) (swap_8-reverse little) v ∙ of_be_8 v,
  )

-- The same for a word that arrives: memory filled from the network reads as the value sent.
module _ (little : Bool) (bs : List ℕ) (bytes : IsBytes bs) where
  pub swap_2-load : length bs ≡ 2 → to_net little swap_2 (load little bs) ≡ of_be bs
  swap_2-load e = net_load little 2 swap_2 swap_2-reverse bs e bytes

  pub swap_4-load : length bs ≡ 4 → to_net little swap_4 (load little bs) ≡ of_be bs
  swap_4-load e = net_load little 4 swap_4 swap_4-reverse bs e bytes

  pub swap_8-load : length bs ≡ 8 → to_net little swap_8 (load little bs) ≡ of_be bs
  swap_8-load e = net_load little 8 swap_8 swap_8-reverse bs e bytes
