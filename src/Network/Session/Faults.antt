-- ===== src/Network/Session/Faults.antt =====
-- What a session does when a read or a write fails, comes in pieces, or does not fit its buffer.
use librtaio.Base.{
  ℕ, ◌+◌, ◌-◌, inl, inr, subst, ◌≤◌, ◌<◌, ◌≡◌, refl, ap, false, List, ◌++◌, length, take, drop,
  ne→eq, lt→ltb, done, ◌>>=◌, arith, append_assoc, length-append, take_all, take-length-append,
  drop-length-append, drop-drop, length-drop, length-take,
}
use librtaio.Stream.Host.{Host}
use librtaio.Protocol.Field.{Field}
use librtaio.Network.Acceptor.{Acceptor}
use librtaio.Network.Session.{
  Server, Pending, reading, writing, idle, packet_mark, handle_mark, handle_read, handle_write,
  complete_read, complete_write,
}
use librtaio.Network.Session.Receive.{working, le→ltb, Fits, Fits-has_room}

module _ (h : Host) (now address : ℕ) (fields : List Field) (sent : List ℕ)
    (acceptor : Acceptor) where
  abbrev at_work : List ℕ → Pending → Server
  at_work buffer pending = record {
    session = working address fields buffer sent pending;
    acceptor = acceptor;
  }

  -- The buffer with bytes stored from `at` on.
  abbrev pub stored : ℕ → List ℕ → List ℕ → List ℕ
  stored at bytes buffer = take at buffer ++ (bytes ++ drop (at + length bytes) buffer)

  Fits-stored :
      (n at : ℕ) (bytes buffer : List ℕ)
      → at + length bytes ≤ n
      → Fits n buffer
      → Fits n (stored at bytes buffer)
  Fits-stored n at bytes buffer small (inl fits) =
      inl (omega (arith, length-append {0}, length-drop {0}, length-take at buffer (omega arith)))
  Fits-stored n at bytes buffer small (inr short) = inr short

  module _ (n at size : ℕ) (buffer bytes : List ℕ) (inside : at + length bytes ≤ n)
      (room : Fits n buffer) where
    -- A read that gives less than was waited for: it is stored, and the rest is waited for.
    read_part :
        0 < length bytes
        → length bytes < size
        → let left = size - length bytes in
          complete_read h now bytes (at_work buffer (reading at size size))
          ≡ done (at_work (stored at bytes buffer) (reading (length bytes) left left))
    unfolding complete_read handle_read
    read_part some_bytes few = rw (
      take_all size bytes (omega arith),
      Fits-has_room (at + length bytes) n buffer inside room,
      ne→eq (length bytes) 0 (λ e. absurd (omega arith)),
      lt→ltb (length bytes) size few,
    )

    read_rest :
        0 < length bytes
        → length bytes ≡ size
        → complete_read h now bytes (at_work buffer (reading at size size)) ≡ (
            packet_mark h now (stored at bytes buffer) >>= λ mark.
            handle_mark h now mark (at_work (stored at bytes buffer) idle))
    unfolding complete_read handle_read
    read_rest some_bytes all = rw (
      take_all size bytes (omega arith),
      Fits-has_room (at + length bytes) n buffer inside room,
      ne→eq (length bytes) 0 (λ e. absurd (omega arith)),
      le→ltb (length bytes) size (omega arith),
    )

  -- A packet of `n` bytes that a session waits for, a body with a buffer of `n` bytes or more or a
  -- header with any buffer (Fits), and that comes in two nonempty pieces is handled exactly as one
  -- that comes whole.
  pub two_pieces :
      (n : ℕ) (buffer first second : List ℕ)
      → 0 < length first
      → 0 < length second
      → length first + length second ≡ n
      → Fits n buffer
      → (complete_read h now first (at_work buffer (reading 0 n n)) >>= complete_read h now second)
        ≡ complete_read h now (first ++ second) (at_work buffer (reading 0 n n))
  two_pieces n buffer first second a b all room =
      let left : n - length first ≡ length second = omega arith in
      let both : 0 + length first + length second ≡ 0 + length (first ++ second) =
        omega (arith, length-append {0}) in
      let l : List ℕ = stored 0 first buffer in
      let room_l : Fits n l = Fits-stored n 0 first buffer (omega arith) room in
      let one : stored (length first) second l ≡ stored 0 (first ++ second) buffer =
        rw
          (
            take-length-append first (drop (0 + length first) buffer),
            ← drop-drop (length first) (length second) l,
            drop-length-append first (drop (0 + length first) buffer),
            drop-drop (0 + length first) (length second) buffer,
            both,
          )
          (simp append_assoc) in
      rw (
        read_part n 0 n buffer first (omega arith) room a (omega arith),
        left,
        read_rest n (length first) (length second) l second (omega arith) room_l b refl,
        read_rest n 0 n buffer (first ++ second) (omega (arith, length-append {0})) room
            (omega (arith, length-append {0})) (omega (arith, length-append {0})),
        one,
      )

  -- A packet of `n` bytes that a session waits for, a body with a buffer of `n` bytes or more or a
  -- header with any buffer (Fits), and that comes in three nonempty pieces is not put together:
  -- the third piece is stored behind as many bytes as the second piece has, over a part of the
  -- packet, and what is then handled is that broken buffer.
  pub third_piece_misplaced :
      (n : ℕ) (buffer first second third : List ℕ)
      → 0 < length first
      → 0 < length second
      → 0 < length third
      → length first + length second + length third ≡ n
      → Fits n buffer
      → let whole = first ++ (second ++ drop (length first + length second) buffer) in
        let broken =
          take (length second) whole ++ (third ++ drop (length second + length third) whole) in
        (complete_read h now first (at_work buffer (reading 0 n n))
          >>= complete_read h now second
          >>= complete_read h now third)
        ≡ (packet_mark h now broken >>= λ mark. handle_mark h now mark (at_work broken idle))
  third_piece_misplaced n buffer first second third a b c all room =
      let plus : 0 + length first + length second ≡ length first + length second = omega arith in
      let left : n - length first - length second ≡ length third = omega arith in
      let l : List ℕ = stored 0 first buffer in
      let room_l : Fits n l = Fits-stored n 0 first buffer (omega arith) room in
      let one : stored (length first) second l
          ≡ first ++ (second ++ drop (length first + length second) buffer) =
        rw
          (
            take-length-append first (drop (0 + length first) buffer),
            ← drop-drop (length first) (length second) l,
            drop-length-append first (drop (0 + length first) buffer),
            drop-drop (0 + length first) (length second) buffer,
          )
          (ap (λ k. first ++ (second ++ drop k buffer)) plus) in
      rw (
        read_part n 0 n buffer first (omega arith) room a (omega arith),
        read_part n (length first) (n - length first) l second (omega arith) room_l b (omega arith),
        one,
        left,
        read_rest n (length second) (length third)
            (first ++ (second ++ drop (length first + length second) buffer)) third (omega arith)
            (subst (Fits n) one (Fits-stored n (length first) second l (omega arith) room_l)) c
            refl,
      )

  -- After an answer is written, the next header of 32 bytes may come in one read, whatever the last
  -- body was.
  pub next_header :
      (body next : List ℕ)
      → length next ≡ 32
      → (complete_write h now false (at_work body (writing sent)) >>= λ r.
          complete_read h now next r.1)
        ≡ (packet_mark h now (next ++ drop (0 + length next) body) >>= λ mark.
            handle_mark h now mark (at_work (next ++ drop (0 + length next) body) idle))
  unfolding complete_write handle_write
  next_header body next size =
      read_rest 32 0 32 body next (omega arith) (inr (omega arith)) (omega arith) size
