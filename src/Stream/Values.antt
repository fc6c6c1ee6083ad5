-- ===== src/Stream/Values.antt =====
-- Arrays of words in the memory of hosts of either byte order, and on the network between them.
use mathlib.Core.List.{reverse}
use librtaio.Base.{
  ℕ, ◌*◌, ◌≡◌, refl, ap, Bool, true, false, List, [], ◌∷◌, ◌++◌, length, arith, length-append,
  take-append, drop-append,
}
use librtaio.Stream.ByteOrder.{le_bytes, of_le, be_bytes, store}
use librtaio.Stream.ByteOrder.Swap.{
  IsBytes, le_bytes-IsBytes, length-le_bytes, length-be_bytes, be_bytes-IsBytes,
}
use librtaio.Stream.Output.Arrays.{net_elems}
use librtaio.Stream.Input.Arrays.{net_elems-big, le_bytes-round}

-- The memory of an array of words of `w` bytes.
abbrev pub memory_of : Bool → ℕ → List ℕ → List ℕ
memory_of little w [] = []
memory_of little w (v ∷ vs) = store little w v ++ memory_of little w vs

length-store : (little : Bool) (w v : ℕ) → length (store little w v) ≡ w
length-store true w v = length-le_bytes w v
length-store false w v = length-be_bytes w v

store-IsBytes : (little : Bool) (w v : ℕ) → IsBytes (store little w v)
store-IsBytes true w v = le_bytes-IsBytes w v
store-IsBytes false w v = be_bytes-IsBytes w v

pub length-memory_of :
    (little : Bool) (w : ℕ) (vs : List ℕ) → length (memory_of little w vs) ≡ w * length vs
length-memory_of little w [] = omega arith
length-memory_of little w (v ∷ vs) = omega (
  arith,
  length-append {0} (store little w v) (memory_of little w vs),
  length-store little w v,
  length-memory_of little w vs,
)

All-append : (xs ys : List ℕ) → IsBytes xs → IsBytes ys → IsBytes (xs ++ ys)
All-append [] ys h k = k
All-append (x ∷ xs) ys h k = (h.0, All-append xs ys h.1 k)

pub memory_of-IsBytes : (little : Bool) (w : ℕ) (vs : List ℕ) → IsBytes (memory_of little w vs)
memory_of-IsBytes little w [] = tt
memory_of-IsBytes little w (v ∷ vs) =
    All-append (store little w v) (memory_of little w vs) (store-IsBytes little w v)
      (memory_of-IsBytes little w vs)

-- On a little-endian host, a stored word is loaded as its low bytes.
be_bytes-of_le : (w v : ℕ) → be_bytes w (of_le (le_bytes w v)) ≡ be_bytes w v
unfolding be_bytes
be_bytes-of_le w v =
    ap reverse (le_bytes-round w (le_bytes w v) (length-le_bytes w v) (le_bytes-IsBytes w v))

-- An array goes over the network as it lies in the memory of a big-endian host.
pub net_elems-memory_of :
    (little : Bool) (w : ℕ) (vs : List ℕ)
    → net_elems little w (length vs) (memory_of little w vs) ≡ memory_of false w vs
unfolding net_elems
net_elems-memory_of false w vs =
    net_elems-big w (length vs) (memory_of false w vs) (length-memory_of false w vs)
      (memory_of-IsBytes false w vs)
net_elems-memory_of true w [] = refl
net_elems-memory_of true w (v ∷ vs) = rw (
  take-append w (le_bytes w v) (memory_of true w vs) (length-le_bytes w v),
  drop-append w (le_bytes w v) (memory_of true w vs) (length-le_bytes w v),
  be_bytes-of_le w v,
  net_elems-memory_of true w vs,
)
