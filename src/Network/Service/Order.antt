-- ===== src/Network/Service/Order.antt =====
-- The order in which the events of two clients are handled.
use librtaio.Base.{
  ℕ, ◌≡◌, ◌≢◌, refl, sym, ap, fun_ext, ◌∙◌, Bool, false, List, Option, none, some, ◌==◌, ne→eq,
  Bool-cases, inl, inr, Outcome, done, ◌>>=◌, >>=-eq-done, >>=-assoc, done-inj,
}
use librtaio.Stream.Host.{Host}
use librtaio.Network.Acceptor.Handlers.{no_handlers}
use librtaio.Network.Session.{Session, Server, complete_read, fail_read, complete_write}
use librtaio.Network.Session.Alone.{beside}
use librtaio.Network.Service.{
  World, Event, received, read_failed, written, reset, lose_peer, handle_event,
}
use librtaio.Network.Service.Isolation.{eq→≡}
use librtaio.Network.Service.Registry.{Registry, registry, store, alive, at_address, registry_event}
use librtaio.Network.Service.Registry.Refines.{registered, handle_event-registry}

-- The events of the client at `a`.
pub data ByClient (a : ℕ) : Event → Type 0 where
  reads : {bytes : List ℕ} → ByClient a (received a bytes)
  fails : ByClient a (read_failed a)
  writes : {error : Bool} → ByClient a (written a error)
  resets : ByClient a (reset a)

-- The handler of such an event.
abbrev handler_of :
    (h : Host) (now : ℕ) {a : ℕ} {e : Event} → ByClient a e → Server → Outcome Server
handler_of h now (reads {bytes}) = complete_read h now bytes
handler_of h now fails = fail_read h now
handler_of h now (writes {error}) = λ s. complete_write h now error s >>= λ r. done r.1
handler_of h now resets = lose_peer

handler_of-event :
    (h : Host) (now : ℕ) {a : ℕ} {e : Event} (c : ByClient a e) (v : Registry)
    → registry_event h now e v ≡ at_address a (handler_of h now c) v (v.session_at a)
handler_of-event h now reads v = refl
handler_of-event h now fails v = refl
handler_of-event h now writes v = refl
handler_of-event h now resets v = refl

-- What a handler makes of a session, or of none.
abbrev effect : (Server → Outcome Server) → Option Session → Outcome (Option Session)
effect handler none = done none
effect handler (some s) = handler (beside s no_handlers) >>= λ r. done (alive r.session)

abbrev stored : ℕ → Option Session → Registry → Registry
stored a o v = record v { session_at = store a o v.session_at }

store-same : (a : ℕ) (at : ℕ → Option Session) → store a (at a) at ≡ at
store-same a at =
    fun_ext λ b. elim (Bool-cases (b == a)) [ inl e ↦ rw (e, eq→≡ b a e) | inr e ↦ rw e ]

store-store :
    (a b : ℕ) (o o' : Option Session) (at : ℕ → Option Session)
    → a ≢ b
    → store a o (store b o' at) ≡ store b o' (store a o at)
store-store a b o o' at ne = fun_ext λ c. elim (Bool-cases (c == a)) [
  | inl e ↦
      let off : (c == b) ≡ false = ne→eq c b (λ same. ne (sym (eq→≡ c a e) ∙ same)) in simp (e, off)
  | inr e ↦ simp e
]

at_address-effect :
    (a : ℕ) (handler : Server → Outcome Server) (v : Registry) (o : Option Session)
    → v.session_at a ≡ o
    → at_address a handler v o ≡ (effect handler o >>= λ o'. done (stored a o' v))
at_address-effect a handler v none found =
    ap (λ at. done (record v { session_at = at }))
      (sym (store-same a v.session_at) ∙ ap (λ o. store a o v.session_at) found)
at_address-effect a handler v (some s) found = sym (>>=-assoc (handler (beside s no_handlers)) _ _)

module _ (a b : ℕ) (ne : a ≢ b) where
  registry_order :
      (f g : Server → Outcome Server) (v v1 v12 : Registry)
      → at_address a f v (v.session_at a) ≡ done v1
      → at_address b g v1 (v1.session_at b) ≡ done v12
      → (v2 : Registry) × (at_address b g v (v.session_at b) ≡ done v2)
        × (at_address a f v2 (v2.session_at a) ≡ done v12)
  registry_order f g v v1 v12 run1 run12 =
      let (oa, done_a, is_1) =
        >>=-eq-done (effect f (v.session_at a)) _
          (sym (at_address-effect a f v (v.session_at a) refl) ∙ run1) in
      let (ob, done_b, is_12) =
        >>=-eq-done (effect g (v1.session_at b)) _
          (sym (at_address-effect b g v1 (v1.session_at b) refl) ∙ run12) in
      let at_b : v1.session_at b ≡ v.session_at b =
        ap (λ x. x.session_at b) (sym (done-inj is_1)) ∙ rw (ne→eq b a (λ e. ne (sym e))) in
      let at_a : (stored b ob v).session_at a ≡ v.session_at a = rw (ne→eq a b ne) in
      (
        stored b ob v,
        at_address-effect b g v (v.session_at b) refl
            ∙ ap (λ o. effect g o >>= λ o'. done (stored b o' v)) (sym at_b)
            ∙ ap (λ o. o >>= λ o'. done (stored b o' v)) done_b,
        at_address-effect a f (stored b ob v) ((stored b ob v).session_at a) refl
            ∙ ap (λ o. effect f o >>= λ o'. done (stored a o' (stored b ob v))) at_a
            ∙ ap (λ o. o >>= λ o'. done (stored a o' (stored b ob v))) done_a
            ∙ ap (λ at. done (record v { session_at = at })) (store-store a b oa ob v.session_at ne)
            ∙ ap (λ x. done (stored b ob x)) (done-inj is_1)
            ∙ is_12,
      )

  module _ (h : Host) (n m : ℕ) where
    -- An event of one client is handled and then one of another client, and both handlers are
    -- done. Then they are done in the other order too, and the service is in the same state: the
    -- same session at each address, and the same accept that waits (registry).
    pub client_order :
        (e1 e2 : Event) (w w1 w12 : World)
        → ByClient a e1
        → ByClient b e2
        → handle_event h n e1 w ≡ done w1
        → handle_event h m e2 w1 ≡ done w12
        → (w2 : World) × (w21 : World) × (handle_event h m e2 w ≡ done w2)
          × (handle_event h n e1 w2 ≡ done w21)
          × (registry w21 ≡ registry w12)
    client_order e1 e2 w w1 w12 c1 c2 run1 run12 =
        let at_1 =
          sym (handler_of-event h n c1 (registry w))
          ∙ sym (handle_event-registry h n e1 w)
          ∙ ap registered run1 in
        let at_12 =
          sym (handler_of-event h m c2 (registry w1))
          ∙ sym (handle_event-registry h m e2 w1)
          ∙ ap registered run12 in
        let (v2, v_run2, v_run21) =
          registry_order (handler_of h n c1) (handler_of h m c2) (registry w) (registry w1)
            (registry w12) at_1 at_12 in
        let (w2, run2, same2) =
          >>=-eq-done (handle_event h m e2 w) _
            (handle_event-registry h m e2 w ∙ handler_of-event h m c2 (registry w) ∙ v_run2) in
        let (w21, run21, same21) = >>=-eq-done (handle_event h n e1 w2) _ (
          handle_event-registry h n e1 w2
          ∙ ap (registry_event h n e1) (done-inj same2)
          ∙ handler_of-event h n c1 v2
          ∙ v_run21) in
        (w2, w21, run2, run21, done-inj same21)
