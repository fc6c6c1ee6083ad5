-- ===== src/Protocol/Encode/Packet.antt =====
-- serialize_packet against the layout of a packet.
use Prim.Native.String.{String}
use librtaio.Base.{
  Outcome, ℕ, suc, ◌+◌, ◌%◌, ◌^◌, ◌≤◌, ◌<◌, ◌≡◌, ◌≢◌, refl, ◌∙◌, List, [], ◌∷◌, ◌++◌, Option, none,
  some, length, drop, done, arith, length-append, append_assoc, drop-drop, lt→ltb, length-drop,
  drop-length-append,
}
use librtaio.Stream.Host.{Host}
use librtaio.Stream.ByteOrder.{be_bytes}
use librtaio.Stream.ByteOrder.Swap.{length-be_bytes}
use librtaio.Stream.Output.{OutputStream}
use librtaio.Stream.Output.Words.{open_output}
use librtaio.Protocol.Field.{
  Field, type_long, type_longlong, field_hcrc, scalar, head_mark, body_mark, msg_tail,
}
use librtaio.Protocol.Encode.{fill_crc, serialize_loop, serialize_packet}
use librtaio.Protocol.Encode.Steps.{
  keeping, Sends-long, Sends-longlong, serialize-step, fill_crc-plain, count_after, base_after,
}
use librtaio.Protocol.Encode.Body.{Body, serialize-Body, bcrc}
use librtaio.Protocol.Wire.{word, Header, message, header_words, header_wire, body_wire}

module _ (h : Host) where
  long-step :
      (len n : ℕ) (cnt : Option ℕ) (prev : Option Field) (base : Option ℕ) (v : ℕ) (name : String)
      (ps : List Field) (written target : List ℕ)
      → n ≢ field_hcrc
      → n + 1 ≢ len
      → 4 ≤ length target
      → let p = scalar type_long v name in
        let out = open_output h (written ++ word v) (drop 4 target) in
        serialize_loop h len n cnt prev base (p ∷ ps) (open_output h written target)
        ≡ keeping p (
            serialize_loop h len
              (suc n)
              (count_after h n cnt p)
              (some p)
              (base_after h n base out)
              ps
              out)
  long-step len n cnt prev base v name ps written target a b fits =
      let p = scalar type_long v name in
      serialize-step h len n cnt prev base p ps (open_output h written target) (written ++ word v)
        (drop 4 target) refl (fill_crc-plain h len n base (open_output h written target) p a b)
        (Sends-long h (count_after h n cnt p) prev v name written target
            (omega (arith, length-be_bytes 4 (v % 2 ^ 32)))
          ∙ rw (length-be_bytes 4 (v % 2 ^ 32)))

  hcrc-step :
      (len : ℕ) (cnt : Option ℕ) (prev : Option Field) (base : Option ℕ) (ps : List Field)
      (written target : List ℕ)
      → 0 < length written
      → 8 ≤ length target
      → let crc = h.crc32 written in
        let p = scalar type_longlong crc "hcrc" in
        let out = open_output h (written ++ be_bytes 8 crc) (drop 8 target) in
        serialize_loop h len field_hcrc cnt prev base
          (scalar type_longlong 0 "hcrc" ∷ ps)
          (open_output h written target)
        ≡ keeping p
            (serialize_loop h len 7 cnt (some p) (some (length (written ++ be_bytes 8 crc))) ps out)
  unfolding fill_crc
  hcrc-step len cnt prev base ps written target some_header fits =
      let crc = h.crc32 written in
      let p = scalar type_longlong crc "hcrc" in
      serialize-step h len field_hcrc cnt prev base (scalar type_longlong 0 "hcrc") ps
        (open_output h written target) (written ++ be_bytes 8 crc) (drop 8 target) refl
        (rw (lt→ltb 0 (length written) some_header))
        (Sends-longlong h cnt prev crc "hcrc" written target (omega (arith, length-be_bytes 8 crc))
          ∙ rw (length-be_bytes 8 crc))

  -- The fields in front of the checksum of the header.
  abbrev kept :
      Header → ℕ → Outcome (ℕ × List Field × OutputStream) → Outcome (ℕ × List Field × OutputStream)
  kept m crc run = keeping (scalar type_long head_mark "hmark") (
      keeping (scalar type_long m.method "method") (
        keeping (scalar type_long m.bsize "bsize") (
          keeping (scalar type_long m.ret "ret") (
            keeping (scalar type_long m.time "time") (
              keeping (scalar type_long m.count "count")
                (keeping (scalar type_longlong crc "hcrc") run))))))

  -- The header's words as the loop appends them.
  abbrev appended : Header → List ℕ
  appended m =
      ((((([] ++ word head_mark) ++ word m.method) ++ word m.bsize) ++ word m.ret) ++ word m.time)
      ++ word m.count

  serialize_loop_front :
      (m : Header) (len : ℕ) (rest : List Field) (target : List ℕ)
      → 9 ≤ len
      → 44 ≤ length target
      → let crc = h.crc32 (appended m) in
        let sent = appended m ++ be_bytes 8 crc in
        serialize_loop h len 0 (some m.count) none none (message m 0 rest) (open_output h [] target)
        ≡ kept m crc (
            serialize_loop h len 7
              (some m.count)
              (some (scalar type_longlong crc "hcrc"))
              (some (length sent))
              (scalar type_long body_mark "bmark" ∷ rest)
              (open_output h sent
                (drop 8 (drop 4 (drop 4 (drop 4 (drop 4 (drop 4 (drop 4 target)))))))))
  serialize_loop_front m len rest target long room =
      let cnt = some m.count in
      let w0 : List ℕ = [] in
      let t0 : List ℕ = target in
      let w1 : List ℕ = w0 ++ word head_mark in
      let t1 : List ℕ = drop 4 t0 in
      let f0 : Option Field = some (scalar type_long head_mark "hmark") in
      let w2 : List ℕ = w1 ++ word m.method in
      let t2 : List ℕ = drop 4 t1 in
      let f1 : Option Field = some (scalar type_long m.method "method") in
      let w3 : List ℕ = w2 ++ word m.bsize in
      let t3 : List ℕ = drop 4 t2 in
      let f2 : Option Field = some (scalar type_long m.bsize "bsize") in
      let w4 : List ℕ = w3 ++ word m.ret in
      let t4 : List ℕ = drop 4 t3 in
      let f3 : Option Field = some (scalar type_long m.ret "ret") in
      let w5 : List ℕ = w4 ++ word m.time in
      let t5 : List ℕ = drop 4 t4 in
      let f4 : Option Field = some (scalar type_long m.time "time") in
      let w6 : List ℕ = w5 ++ word m.count in
      let t6 : List ℕ = drop 4 t5 in
      let f5 : Option Field = some (scalar type_long m.count "count") in
      let rest6 : List Field = scalar type_long body_mark "bmark" ∷ rest in
      let rest5 : List Field = scalar type_longlong 0 "hcrc" ∷ rest6 in
      let rest4 : List Field = scalar type_long m.count "count" ∷ rest5 in
      let rest3 : List Field = scalar type_long m.time "time" ∷ rest4 in
      let rest2 : List Field = scalar type_long m.ret "ret" ∷ rest3 in
      let rest1 : List Field = scalar type_long m.bsize "bsize" ∷ rest2 in
      let rest0 : List Field = scalar type_long m.method "method" ∷ rest1 in
      rw (
        long-step len 0 cnt none none head_mark "hmark" (rest0) w0 t0 (λ e. absurd (omega arith))
            (λ e. absurd (omega arith)) (omega arith),
        long-step len 1 cnt f0 none m.method "method" (rest1) w1 t1 (λ e. absurd (omega arith))
            (λ e. absurd (omega arith)) (omega (arith, length-drop {0})),
        long-step len 2 cnt f1 none m.bsize "bsize" (rest2) w2 t2 (λ e. absurd (omega arith))
            (λ e. absurd (omega arith)) (omega (arith, length-drop {0})),
        long-step len 3 cnt f2 none m.ret "ret" (rest3) w3 t3 (λ e. absurd (omega arith))
            (λ e. absurd (omega arith)) (omega (arith, length-drop {0})),
        long-step len 4 cnt f3 none m.time "time" (rest4) w4 t4 (λ e. absurd (omega arith))
            (λ e. absurd (omega arith)) (omega (arith, length-drop {0})),
        long-step len 5 cnt f4 none m.count "count" (rest5) w5 t5 (λ e. absurd (omega arith))
            (λ e. absurd (omega arith)) (omega (arith, length-drop {0})),
        hcrc-step len cnt f5 none rest6 w6 t6 (omega (arith, length-append {0}, length-be_bytes))
            (omega (arith, length-drop {0})),
      )

  -- A message whose fields behind the body's mark send `bs` (Body), written to a stream with room
  -- for 44 bytes more than those: serialize_packet returns ERR_OK, what it wrote is the header and
  -- the body in network order with their two checksums, and the checksums are left in the fields
  -- `hcrc` and `bcrc`.
  pub serialize_packet_lem :
      (m : Header) (ps : List Field) (bs target : List ℕ)
      → Body h (some m.count) (scalar type_long body_mark "bmark") ps bs
      → length bs + 44 ≤ length target
      → let hcrc = h.crc32 (header_words m) in
        let crc = h.crc32 (word body_mark ++ bs) in
        serialize_packet h (open_output h [] target) (message m 0 (ps ++ msg_tail)) (length ps + 9)
        ≡ done (
          0,
          message m hcrc (ps ++ bcrc crc),
          open_output h (header_wire h m ++ body_wire h bs) (drop (length bs + 44) target),
        )
  unfolding serialize_packet
  serialize_packet_lem m ps bs target body fits =
      let len = length ps + 9 in
      let cnt = some m.count in
      let w6 = appended m in
      let t6 = drop 4 (drop 4 (drop 4 (drop 4 (drop 4 (drop 4 target))))) in
      let crc = h.crc32 w6 in
      let w7 : List ℕ = w6 ++ be_bytes 8 crc in
      let t7 : List ℕ = drop 8 t6 in
      let w8 : List ℕ = w7 ++ word body_mark in
      let t8 : List ℕ = drop 4 t7 in
      let f6 : Option Field = some (scalar type_longlong crc "hcrc") in
      let rest7 : List Field = ps ++ msg_tail in
      let body_at : drop (length w7) (w8 ++ bs) ≡ word body_mark ++ bs =
        rw (append_assoc w7 (word body_mark) bs) (drop-length-append w7 (word body_mark ++ bs)) in
      let tail_at : 36 + (length bs + 8) ≡ length bs + 44 = omega arith in
      rw
        (
          serialize_loop_front m len rest7 target (omega arith) (omega arith),
          long-step len 7 cnt f6 (some (length w7)) body_mark "bmark" rest7 w7 t7
              (λ e. absurd (omega arith)) (λ e. absurd (omega arith))
              (omega (arith, length-drop {0})),
          serialize-Body h cnt len (length w7) 8 w8 t8 body (omega arith) (omega arith)
              (omega (arith, length-append {0}, length-be_bytes)) (omega (arith, length-drop {0})),
          body_at,
        )
        (simp (append_assoc, drop-drop, tail_at))
