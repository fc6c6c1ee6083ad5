-- ===== src/Network/Service/CutShort.antt =====
-- How one client ends the server's process with a request that is too short.
use librtaio.Base.{
  ℕ, ◌+◌, ◌^◌, ◌≤◌, ◌<◌, ◌≡◌, refl, ap, ◌∙◌, true, List, ◌∷◌, some, length, take, replicate,
  aborted, done, ◌>>=◌, arith, length-replicate,
}
use librtaio.Stream.Host.{Host}
use librtaio.Protocol.Field.{Field, to_int, msg_value}
use librtaio.Protocol.Messages.{header_with, connect_bytes, length-connect_bytes}
use librtaio.Protocol.Wire.{Header, header_words, header_wire, body_wire}
use librtaio.Protocol.RoundTrip.{SameCrc, IsHeader}
use librtaio.Network.Session.{reading, complete_read}
use librtaio.Network.Session.Receive.{working}
use librtaio.Network.Session.ReceiveHeader.{receive_header}
use librtaio.Network.Session.ShortBody.{receive_cut_connect}
use librtaio.Network.Exchange.{small-IsInt}
use librtaio.Network.Service.Work.{busy-has_work, serve-event}
use librtaio.Network.Service.{
  World, find, put, received, event, Call, ended, after_handler, for_session, handle_event, serve,
}
use librtaio.Network.Service.Isolation.{find-put-live}
use librtaio.Network.Service.Client.{after, own_lem, has_header}

-- The header of a connection request that announces a body of `k` bytes.
abbrev pub cut_header : ℕ → ℕ → Header
cut_header now k = header_with 2 k 0 now

cut_header-IsHeader : (now k : ℕ) → k < 2 ^ 31 → now < 2 ^ 31 → IsHeader (cut_header now k)
cut_header-IsHeader now k small time = record {
  method = refl;
  bsize = small-IsInt k small;
  ret = refl;
  time = small-IsInt now time;
  count = refl;
}

module _ (h0 h : Host) (same : SameCrc h0 h) (on : h.asserts ≡ true) (now0 now : ℕ) where
  -- In any state of the service a session waits for a header. Its client, of either byte order and
  -- with the same checksum, sends a valid header of a connection request at a time below 2^31 that
  -- announces `k` bytes, and then the first `k` bytes, four or more, of the body of a request with
  -- two names, each shorter than 1024, but not all of them. Where asserts are compiled in, the
  -- server's process ends in the second handler, whatever other clients are there.
  pub cut_request_ends_service :
      (c p : List ℕ) (k a : ℕ) (o0 o1 o2 o3 o4 o5 o6 : Field) (rest : List Field)
      (buffer sent : List ℕ) (w : World) (calls : List Call) (n : ℕ)
      → length c < 1024
      → length p < 1024
      → 4 ≤ k
      → k < length (connect_bytes c p) + 12
      → now0 < 2 ^ 31
      → find a w.sessions
        ≡ some (working a (o0 ∷ o1 ∷ o2 ∷ o3 ∷ o4 ∷ o5 ∷ o6 ∷ rest) buffer sent (reading 0 32 32))
      → let body = take k (body_wire h0 (connect_bytes c p)) in
        serve h now
          (event (received a (header_wire h0 (cut_header now0 k)))
            ∷ event (received a body)
            ∷ calls)
          n
          w
        ≡ ended (n + 1)
  unfolding handle_event msg_value
  cut_request_ends_service c p k a o0 o1 o2 o3 o4 o5 o6 rest buffer sent w calls n cshort pshort
        some_bytes cut time found =
      let m = cut_header now0 k in
      let bytes = length-connect_bytes c p in
      let body = take k (body_wire h0 (connect_bytes c p)) in
      let s1 = has_header h a m rest sent in
      let size : to_int k ≡ k = omega arith in
      let first : handle_event h now (received a (header_wire h0 m)) w ≡ done (after a s1 w) =
        own_lem a (complete_read h now (header_wire h0 m))
          (working a (o0 ∷ o1 ∷ o2 ∷ o3 ∷ o4 ∷ o5 ∷ o6 ∷ rest) buffer sent (reading 0 32 32)) s1 w
          found
          (receive_header h0 h same now m a o0 o1 o2 o3 o4 o5 o6 rest buffer sent w.acceptor
            (cut_header-IsHeader now0 k (omega arith) time) (omega arith)) in
      let second : handle_event h now (received a body) (after a s1 w) ≡ aborted =
        ap (for_session a (complete_read h now body) (after a s1 w))
          (find-put-live a s1 w.sessions refl refl)
        ∙ ap
            (λ o. o >>= λ r. done (record {
              acceptor = r.acceptor;
              sessions = put a r.session (after a s1 w).sessions;
            }))
            (receive_cut_connect h0 h on now m (h.crc32 (header_words m)) a k rest sent w.acceptor c
              p (replicate k 0) cshort pshort refl size some_bytes cut (length-replicate k 0)) in
      serve-event h now n w (received a (header_wire h0 m)) (event (received a body) ∷ calls)
        (busy-has_work a _ w found refl)
      ∙ ap (after_handler n (serve h now (event (received a body) ∷ calls) (n + 1))) first
      ∙ serve-event h now (n + 1) (after a s1 w) (received a body) calls
          (busy-has_work a s1 (after a s1 w) (find-put-live a s1 w.sessions refl refl) refl)
      ∙ ap (after_handler (n + 1) (serve h now calls (n + 1 + 1))) second
