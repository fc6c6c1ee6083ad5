-- ===== src/Network/Service/Refusal.antt =====
-- What becomes of the service after a failed accept (async_acceptor::handle_accept).
use librtaio.Base.{
  ℕ, ◌≡◌, refl, sym, ap, ◌∙◌, subst, true, false, List, [], ◌∷◌, none, some, Outcome, done,
  >>=-eq-done, done-inj, ◌==◌, Bool-cases, inl, inr, arith, Always, always, Always-done, Always-map,
}
use librtaio.Stream.Host.{Host}
use librtaio.Network.Acceptor.{remove_session_handler, handle_accept}
use librtaio.Network.Service.{
  World, find, forget, Event, accepted, refused, received, read_failed, written, reset,
  accept_session, refuse_session, for_accepting, handle_event,
}
use librtaio.Network.Service.Isolation.{
  is_live, IsSound, Apart, client-Apart, eq→≡, find-forget-same, find-forget-other,
}
use librtaio.Network.Service.Soundness.{handle_event-IsSound}
use librtaio.Network.Service.Ending.{handle_all}

-- No accept waits, and whoever lives lived before.
record Shrinks (w w' : World) : Type 0 where
  pub accepting : w'.acceptor.accepting ≡ none
  pub lived : (b : ℕ) → is_live (find b w'.sessions) ≡ true → is_live (find b w.sessions) ≡ true

Apart-Shrinks :
    (a : ℕ) (w : World) → w.acceptor.accepting ≡ none → (w' : World) → Apart a w w' → Shrinks w w'
Apart-Shrinks a w closed w' p = record {
  accepting = p.accepting ∙ closed;
  lived = λ b live. elim (Bool-cases (b == a)) [
    | inl e ↦
        let same = eq→≡ b a e in
        subst (λ k. is_live (find k w.sessions) ≡ true) (sym same)
          (p.lived (subst (λ k. is_live (find k w'.sessions) ≡ true) same live))
    | inr e ↦ ap is_live (sym (p.sessions b (λ same. absurd (ground arith)))) ∙ live
  ];
}

none_waits :
    (handler : ℕ → World → Outcome World) (w : World)
    → w.acceptor.accepting ≡ none
    → Always (Shrinks w) (for_accepting handler w w.acceptor.accepting)
none_waits handler w closed =
    subst (λ o. Always (Shrinks w) (for_accepting handler w o)) (sym closed)
      (always (record { accepting = closed; lived = λ b live. live }))

module _ (h : Host) (now : ℕ) where
  event-Shrinks :
      (e : Event) (w : World)
      → IsSound w
      → w.acceptor.accepting ≡ none
      → Always (Shrinks w) (handle_event h now e w)
  unfolding handle_event
  event-Shrinks (accepted fresh there) w sound closed =
      none_waits (accept_session now fresh there) w closed
  event-Shrinks refused w sound closed = none_waits refuse_session w closed
  event-Shrinks (received a bytes) w sound closed =
      Always-map (Apart-Shrinks a w closed) (client-Apart h now a bytes true w sound).0
  event-Shrinks (read_failed a) w sound closed =
      Always-map (Apart-Shrinks a w closed) (client-Apart h now a [] true w sound).1
  event-Shrinks (written a error) w sound closed =
      Always-map (Apart-Shrinks a w closed) (client-Apart h now a [] error w sound).2
  event-Shrinks (reset a) w sound closed =
      Always-map (Apart-Shrinks a w closed) (client-Apart h now a [] true w sound).3

  events-Shrinks :
      (es : List Event) (w w' : World)
      → IsSound w
      → w.acceptor.accepting ≡ none
      → handle_all h now es w ≡ done w'
      → Shrinks w w'
  events-Shrinks [] w w' sound closed run =
      subst (Shrinks w) (done-inj run) (record { accepting = closed; lived = λ b live. live })
  events-Shrinks (e ∷ es) w w' sound closed run =
      let (v, first, rest) = >>=-eq-done (handle_event h now e w) (handle_all h now es) run in
      let step = Always-done (event-Shrinks e w sound closed) first in
      let later =
        events-Shrinks es v w' (Always-done (handle_event-IsSound h now e w sound) first)
          step.accepting rest in
      record { accepting = later.accepting; lived = λ b live. step.lived b (later.lived b live) }

  refused_lem :
      (a : ℕ) (w : World)
      → w.acceptor.accepting ≡ some a
      → Always (Shrinks w) (handle_event h now refused w)
  unfolding handle_event refuse_session handle_accept remove_session_handler
  refused_lem a w waits =
      subst (λ o. Always (Shrinks w) (for_accepting refuse_session w o)) (sym waits)
        (always (record {
          accepting = refl;
          lived = λ b live. elim (Bool-cases (b == a)) [
            | inl e ↦
                let gone : is_live (find b (forget a w.sessions)) ≡ false =
                  subst (λ k. is_live (find k (forget a w.sessions)) ≡ false) (sym (eq→≡ b a e))
                    (ap is_live (find-forget-same a w.sessions)) in
                absurd (ground arith)
            | inr e ↦
                ap is_live (sym (find-forget-other a b w.sessions (λ same. absurd (ground arith))))
                ∙ live
          ];
        }))

  -- In a state where the acceptor's set holds exactly the live sessions, the accept that waits
  -- fails, and then the handlers of any events are done. No accept waits afterwards, and whoever
  -- has a live session then had one before: the service takes no client any more.
  pub no_more_accepts :
      (a b : ℕ) (es : List Event) (w w' : World)
      → IsSound w
      → w.acceptor.accepting ≡ some a
      → handle_all h now (refused ∷ es) w ≡ done w'
      → is_live (find b w'.sessions) ≡ true
      → (w'.acceptor.accepting ≡ none) × (is_live (find b w.sessions) ≡ true)
  no_more_accepts a b es w w' sound waits run live =
      let (v, first, rest) = >>=-eq-done (handle_event h now refused w) (handle_all h now es) run in
      let step = Always-done (refused_lem a w waits) first in
      let later =
        events-Shrinks es v w' (Always-done (handle_event-IsSound h now refused w sound) first)
          step.accepting rest in
      (later.accepting, step.lived b (later.lived b live))
