-- ===== src/Network/Service/Work.antt =====
-- When the io_service of src/core/network/network_server.cpp has work.
use librtaio.Base.{
  ℕ, ◌+◌, ◌≡◌, refl, sym, ap, ◌∙◌, Bool, true, false, List, [], ◌∷◌, none, some, Option, ◌==◌,
  Bool-cases, inl, inr,
}
use librtaio.Stream.Host.{Host}
use librtaio.Network.Session.{Session}
use librtaio.Network.Service.{
  World, Event, Call, event, Served, waits, returns, after_handler, handle_event, serve, find,
  is_busy, busy_at, some_busy, has_work,
}
use librtaio.Network.Service.Isolation.{eq→≡}

some_busy_lem :
    (all ss : List Session) (a : ℕ) (s : Session)
    → find a all ≡ some s
    → is_busy s.pending ≡ true
    → find a ss ≡ some s
    → some_busy all ss ≡ true
some_busy_lem all [] a s found busy here = cc
some_busy_lem all (t ∷ ss) a s found busy here = elim (Bool-cases (a == t.address)) [
  | inl same ↦
      let at : busy_at (find t.address all) ≡ true =
        ap (λ b. busy_at (find b all)) (sym (eq→≡ a t.address same)) ∙ ap busy_at found ∙ busy in
      rw at
  | inr other ↦
      let rest = some_busy_lem all ss a s found busy (simp other at here) in
      elim (Bool-cases (busy_at (find t.address all))) [ inl e ↦ rw e | inr e ↦ rw (e, rest) ]
]

-- Where an operation of a session is under way, there is work.
pub busy-has_work :
    (a : ℕ) (s : Session) (w : World)
    → find a w.sessions ≡ some s
    → is_busy s.pending ≡ true
    → has_work w ≡ true
unfolding has_work
busy-has_work a s w found busy =
    let some_one = some_busy_lem w.sessions w.sessions a s found busy found in
    elim w.acceptor.accepting
      as (λ o.
        elim o as (λ x. Bool) [ none ↦ some_busy w.sessions w.sessions | some b ↦ true ] ≡ true) [
          | none ↦ some_one
          | some b ↦ refl
        ]

pub busy_at-some :
    (o : Option Session)
    → busy_at o ≡ true
    → (s : Session) × (o ≡ some s) × (is_busy s.pending ≡ true)
busy_at-some none e = cc
busy_at-some (some s) e = (s, refl, e)

pub some_busy-found :
    (all ss : List Session)
    → some_busy all ss ≡ true
    → (a : ℕ) × (s : Session) × (find a all ≡ some s) × (is_busy s.pending ≡ true)
some_busy-found all [] e = cc
some_busy-found all (t ∷ ss) e = elim (Bool-cases (busy_at (find t.address all))) [
  | inl at ↦
      let (s, found, busy) = busy_at-some (find t.address all) at in (t.address, s, found, busy)
  | inr off ↦ some_busy-found all ss (simp off at e)
]

module _ (h : Host) (now n : ℕ) (w : World) where
  pub serve-waits : has_work w ≡ true → serve h now [] n w ≡ waits w
  unfolding serve
  serve-waits e = ap (λ b. elim b as (λ x. Served) [ true ↦ waits w | false ↦ returns w ]) e

  pub serve-idle : has_work w ≡ false → serve h now [] n w ≡ returns w
  unfolding serve
  serve-idle e = ap (λ b. elim b as (λ x. Served) [ true ↦ waits w | false ↦ returns w ]) e

  module _ (e : Event) (calls : List Call) where
    abbrev next_call : Bool → Served
    next_call b = elim b [
      | true ↦ after_handler n (serve h now calls (n + 1)) (handle_event h now e w)
      | false ↦ returns w
    ]

    pub serve-event :
        has_work w ≡ true
        → serve h now (event e ∷ calls) n w
          ≡ after_handler n (serve h now calls (n + 1)) (handle_event h now e w)
    unfolding serve
    serve-event k = ap next_call k

    pub serve-no_event : has_work w ≡ false → serve h now (event e ∷ calls) n w ≡ returns w
    unfolding serve
    serve-no_event k = ap next_call k
