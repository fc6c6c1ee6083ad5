-- ===== src/Network/Session/Receive.antt =====
-- What a session does when a read completes with all the bytes that were waited for.
use librtaio.Base.{
  ℕ, ◌+◌, ◌-◌, ◌%◌, ◌^◌, ◌≤◌, ◌<◌, ◌≡◌, refl, ap, subst, ◌∙◌, drop, Bool, true, false, List, [],
  ◌++◌, length, ltb, leb, ◌==◌, ◌||◌, ◌⊎◌, inl, inr, Bool-cases, ne→eq, le→leb, done, ◌>>=◌, arith,
  append-nil, append_assoc, length-append, take_all, drop_all, take-append,
}
use librtaio.Stream.Host.{Host}
use librtaio.Stream.Buffer.{istreambuf}
use librtaio.Stream.ByteOrder.{load, of_be, be_bytes}
use librtaio.Stream.ByteOrder.Swap.{length-be_bytes}
use librtaio.Protocol.Field.{Field, head_mark, body_mark}
use librtaio.Protocol.Wire.{word, Header, header_words, header_wire, body_wire}
use librtaio.Network.Acceptor.{Acceptor}
use librtaio.Network.Session.{
  Session, Pending, reading, idle, packet_mark, handle_mark, handle_read, complete_read,
}

-- A live session at work, with a header of 32 bytes.
abbrev pub working : ℕ → List Field → List ℕ → List ℕ → Pending → Session
working address fields buffer sent pending = record {
  address = address;
  live = true;
  peer = true;
  header_size = 32;
  packet_header = fields;
  recv_buffer = buffer;
  send_buffer = sent;
  pending = pending;
}

-- A read of `n` bytes from the front on stays in the buffer's storage: it fits the buffer, or it is
-- no longer than a header.
abbrev pub Fits : ℕ → List ℕ → Type 0
Fits n buffer = (n ≤ length buffer) ⊎ (n ≤ 32)

pub Fits-has_room :
    (k n : ℕ) (buffer : List ℕ) → k ≤ n → Fits n buffer → (leb k (length buffer) || leb k 32) ≡ true
Fits-has_room k n buffer small (inl fits) = rw (le→leb k (length buffer) (omega arith))
Fits-has_room k n buffer small (inr short) = elim (Bool-cases (leb k (length buffer))) [
  | inl e ↦ rw e
  | inr e ↦ rw (e, le→leb k 32 (omega arith))
]

pub le→ltb : (a b : ℕ) → b ≤ a → ltb a b ≡ false
le→ltb a b h = ground arith

pub load_head : (little : Bool) → load little (word head_mark) ≡ head_mark
unfolding be_bytes
load_head true = refl
load_head false = refl

pub load_body : (little : Bool) → load little (word body_mark) ≡ body_mark
unfolding be_bytes
load_body true = refl
load_body false = refl

module _ (h : Host) (now : ℕ) where
  pub mark_lem :
      (v : ℕ) (bytes rest : List ℕ)
      → load h.little (word v) ≡ v
      → bytes ≡ word v ++ rest
      → packet_mark h now bytes ≡ done v
  unfolding packet_mark
  mark_lem v bytes rest e whole =
      let four = length-be_bytes 4 (v % 2 ^ 32) in
      rw (
        whole,
        le→leb 4 (length (word v ++ rest)) (omega (arith, length-append {0} (word v) rest, four)),
        take-append 4 (word v) rest four,
        e,
      )

  pub head_mark_over :
      (h0 : Host) (m : Header) (after : List ℕ)
      → packet_mark h now (header_wire h0 m ++ after) ≡ done head_mark
  head_mark_over h0 m after =
      let rest = word m.method ++ (word m.bsize ++ (word m.ret ++ (word m.time ++ word m.count))) in
      let crc = be_bytes 8 (h0.crc32 (header_words m)) in
      mark_lem head_mark (header_wire h0 m ++ after) ((rest ++ crc) ++ after) (load_head h.little) (
        ap (λ bytes. bytes ++ after) (append_assoc (word head_mark) rest crc)
        ∙ append_assoc (word head_mark) (rest ++ crc) after)

  pub head_mark_lem :
      (h0 : Host) (m : Header) → packet_mark h now (header_wire h0 m) ≡ done head_mark
  head_mark_lem h0 m =
      subst (λ bytes. packet_mark h now bytes ≡ done head_mark) (append-nil (header_wire h0 m))
        (head_mark_over h0 m [])

  pub body_mark_lem :
      (h0 : Host) (bs : List ℕ) → packet_mark h now (body_wire h0 bs) ≡ done body_mark
  body_mark_lem h0 bs =
      let crc = be_bytes 8 (h0.crc32 (word body_mark ++ bs)) in
      mark_lem body_mark (body_wire h0 bs) (bs ++ crc) (load_body h.little)
        (append_assoc (word body_mark) bs crc)

  -- All bytes that were waited for come in one read, and there is room for them: they are
  -- stored in front, and the packet's mark says what is done with the buffer.
  pub complete_read_over :
      (n address : ℕ) (fields : List Field) (buffer bytes sent : List ℕ) (acceptor : Acceptor)
      → 0 < n
      → Fits n buffer
      → length bytes ≡ n
      → let filled = bytes ++ drop (0 + length bytes) buffer in
        complete_read h now bytes (record {
          session = working address fields buffer sent (reading 0 n n);
          acceptor = acceptor;
        })
        ≡ (packet_mark h now filled >>= λ mark.
            handle_mark h now mark
              (record { session = working address fields filled sent idle; acceptor = acceptor }))
  unfolding complete_read handle_read
  complete_read_over n address fields buffer bytes sent acceptor some_bytes room got =
      let fits = Fits-has_room (0 + length bytes) n buffer (omega arith) room in
      let all : ltb (length bytes) n ≡ false = le→ltb (length bytes) n (omega arith) in
      let some : (length bytes == 0) ≡ false = ne→eq (length bytes) 0 (λ e. absurd (omega arith)) in
      rw (take_all n bytes (omega arith), fits, some, all)

  -- The same where the buffer is just as long.
  pub complete_read_all :
      (n address : ℕ) (fields : List Field) (buffer bytes sent : List ℕ) (acceptor : Acceptor)
      → 0 < n
      → length buffer ≡ n
      → length bytes ≡ n
      → complete_read h now bytes (record {
        session = working address fields buffer sent (reading 0 n n);
        acceptor = acceptor;
      })
        ≡ (packet_mark h now bytes >>= λ mark.
            handle_mark h now mark
              (record { session = working address fields bytes sent idle; acceptor = acceptor }))
  complete_read_all n address fields buffer bytes sent acceptor some_bytes size got = rw (
    complete_read_over n address fields buffer bytes sent acceptor some_bytes (inl (omega arith))
        got,
    drop_all (0 + length bytes) buffer (omega arith),
    append-nil bytes,
  )

pub length-header_wire : (h0 : Host) (m : Header) → length (header_wire h0 m) ≡ 32
length-header_wire h0 m = omega (arith, length-append {0}, length-be_bytes)

pub length-body_wire : (h0 : Host) (bs : List ℕ) → length (body_wire h0 bs) ≡ length bs + 12
length-body_wire h0 bs = omega (arith, length-append {0}, length-be_bytes)

-- A stream buffer of `n` bytes sees the first `n` only.
pub istreambuf-append :
    (bytes after : List ℕ) (n : ℕ)
    → length bytes ≡ n
    → istreambuf (bytes ++ after) n ≡ istreambuf bytes n
unfolding istreambuf
istreambuf-append bytes after n e =
    let long : n - length (bytes ++ after) ≡ n - length bytes =
      omega (arith, length-append {0} bytes after) in
    rw (take-append n bytes after e, take_all n bytes (omega arith), long)

pub of_be-head_mark : of_be (word head_mark) ≡ head_mark
unfolding be_bytes
of_be-head_mark = refl
