-- ===== src/Stream/ByteOrder.antt =====
-- src/common/net_stream.cpp: byte swaps and the test of the host's byte order.
-- A w-byte word is a native number below 256 ^ w; in memory it is the list of its bytes, in the
-- order of the host.
pub mod Swap
use mathlib.Core.List.{reverse}
use librtaio.Base.{
  ℕ, zero, suc, ◌+◌, ◌*◌, ◌/◌, ◌%◌, ◌^◌, Bool, List, [], ◌∷◌, ◌==◌, if◌then◌else◌, get_or, set,
}

-- The low `w` bytes of a number, lowest first.
abbrev pub le_bytes : ℕ → ℕ → List ℕ
le_bytes zero v = []
le_bytes (suc w) v = (v % 256) ∷ le_bytes w (v / 256)

abbrev pub of_le : List ℕ → ℕ
of_le [] = 0
of_le (b ∷ bs) = b + 256 * of_le bs

-- Network order: highest byte first.
unfoldable pub be_bytes : ℕ → ℕ → List ℕ
be_bytes w v = reverse (le_bytes w v)

abbrev pub of_be : List ℕ → ℕ
of_be bs = of_le (reverse bs)

-- A word in the memory of a host, and back: `memcpy` and `*(uint32_t *)p`.
abbrev pub store : Bool → ℕ → ℕ → List ℕ
store little w v = if little then le_bytes w v else be_bytes w v

abbrev pub load : Bool → List ℕ → ℕ
load little bs = if little then of_le bs else of_be bs

-- `byte = arr[i]; arr[i] = arr[j]; arr[j] = byte;`
abbrev exchange : ℕ → ℕ → List ℕ → List ℕ
exchange i j arr = set (set arr i (get_or arr j 0)) j (get_or arr i 0)

unfoldable pub swap_2 : Bool → ℕ → ℕ
unfolding be_bytes
swap_2 little v = load little (exchange 0 1 (store little 2 v))

unfoldable pub swap_4 : Bool → ℕ → ℕ
unfolding be_bytes
swap_4 little v = load little (exchange 1 2 (exchange 0 3 (store little 4 v)))

-- The masks and the shift by 32 are a remainder and a quotient.
unfoldable pub swap_8 : Bool → ℕ → ℕ
unfolding swap_4
swap_8 little v =
    let low = swap_4 little (v % 2 ^ 32) in
    let high = swap_4 little (v / 2 ^ 32 % 2 ^ 32) in (high + low * 2 ^ 32 % 2 ^ 64) % 2 ^ 64

-- `((unsigned char *)&temp)[0]` with `int temp = 1`.
unfoldable pub is_little_endian : Bool → Bool
unfolding be_bytes
is_little_endian little = get_or (store little 4 1) 0 0 == 1
