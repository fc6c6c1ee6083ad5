-- ===== src/Stream/Buffer.antt =====
-- src/common/io_streambuf.h, and what std::streambuf does with it in `sgetn` and `sputn`.
use librtaio.Base.{
  ℕ, suc, ◌+◌, ◌-◌, List, [], ◌∷◌, ◌++◌, Option, none, some, length, take, drop, ltb, leb,
  if◌then◌else◌, Outcome, done, aborted, fault, ◌>>=◌,
}
use librtaio.Stream.Host.{Host}

-- `consumed` are the bytes from base_ptr() to read_ptr() and `remaining` those from there to
-- end_ptr(). `beyond` counts the bytes before end_ptr() that lie behind the array.
pub record InBuf : Type 0 where
  pub consumed : List ℕ
  pub remaining : List ℕ
  pub beyond : ℕ

unfoldable pub istreambuf : List ℕ → ℕ → InBuf
istreambuf base len = record {
  consumed = [];
  remaining = take len base;
  beyond = len - length base;
}

-- `none` is EOF.
unfoldable pub underflow : Host → Outcome (Option ℕ)
underflow h = if h.asserts then aborted else done none

-- `written` are the bytes from base_ptr() to write_ptr(), `target` the array's bytes from there to
-- end_ptr(), not yet written to.
pub record OutBuf : Type 0 where
  pub written : List ℕ
  pub target : List ℕ
  pub beyond : ℕ

unfoldable pub ostreambuf : List ℕ → ℕ → OutBuf
ostreambuf base len = record { written = []; target = take len base; beyond = len - length base }

unfoldable pub overflow : Host → ℕ → Outcome (Option ℕ)
overflow h ch = if h.asserts then aborted else done (some ch)

-- std::streambuf::sgetn: how many bytes came, the bytes, and the buffer behind them.
unfoldable pub sgetn : Host → InBuf → ℕ → Outcome (ℕ × List ℕ × InBuf)
unfolding underflow
sgetn h b n =
    let got = take n b.remaining in
    let b' = record b { consumed = b.consumed ++ got; remaining = drop n b.remaining } in
    if leb n (length b.remaining)
    then done (n, got, b')
    else if ltb 0 b.beyond
    then fault
    else (underflow h >>= λ c. done (length b.remaining, got, b'))

-- The bytes that find no room go to `overflow` one by one, until it answers EOF.
unfoldable pub spill : Host → List ℕ → Outcome ℕ
unfolding overflow
spill h [] = done 0
spill h (ch ∷ chs) =
    overflow h ch >>= λ c. elim c [ none ↦ done 0 | some _ ↦ spill h chs >>= λ n. done (suc n) ]

-- std::streambuf::sputn: how many bytes were taken, and the buffer behind them.
unfoldable pub sputn : Host → OutBuf → List ℕ → Outcome (ℕ × OutBuf)
unfolding spill
sputn h b bs =
    let room = length b.target in
    let b' = record b { written = b.written ++ take room bs; target = drop (length bs) b.target } in
    if leb (length bs) room
    then done (length bs, b')
    else if ltb 0 b.beyond
    then fault
    else (spill h (drop room bs) >>= λ n. done (room + n, b'))
