-- ===== src/Network/Service/Registry/Run.antt =====
-- network_server::run from its start to its end, as its registry shows it.
use librtaio.Base.{
  ◌≢◌, Option, sym, subst, true, false, Bool, Bool-cases, inl, inr, ℕ, ◌+◌, ◌≡◌, refl, ap, ◌∙◌,
  List, [], ◌∷◌, none, some, Outcome, done, aborted, thrown, fault, >>=-agree, >>=-assoc,
}
use librtaio.Stream.Host.{Host}
use librtaio.Network.Acceptor.{start_acceptor}
use librtaio.Network.Session.{session_handler}
use librtaio.Network.Service.{
  World, Fresh, Call, event, stop, Served, has_work, some_busy, construct, after_handler,
  start_service, handle_event, serve, run_server,
}
use librtaio.Network.Service.Soundness.{IsNew, session_handler-IsNew}
use librtaio.Network.Service.Registry.{
  Registry, registry, next_session, empty, Observed, observed, HasWork, Handles, Serves, Runs,
}
use librtaio.Network.Service.Work.{
  busy-has_work, some_busy-found, serve-waits, serve-idle, serve-event, serve-no_event,
}
use librtaio.Network.Service.Registry.Refines.{
  registered, construct_registry, handle_event-registry,
}

true≢false : true ≢ false
true≢false e = cc

work_of :
    (w : World) (o : Option ℕ)
    → w.acceptor.accepting ≡ o
    → elim o as (λ x. Bool) [ none ↦ some_busy w.sessions w.sessions | some a ↦ true ] ≡ true
    → HasWork (registry w)
work_of w none at e =
    let (a, s, found, busy) = some_busy-found w.sessions w.sessions e in
    HasWork.session_waits a s found busy
work_of w (some a) at e = HasWork.accept_waits a at

accepting-has_work : (w : World) (a : ℕ) → w.acceptor.accepting ≡ some a → has_work w ≡ true
unfolding has_work
accepting-has_work w a at = rw at

has_work-HasWork : (w : World) → has_work w ≡ true → HasWork (registry w)
unfolding has_work
has_work-HasWork w e = work_of w w.acceptor.accepting refl e

has_work-idle : (w : World) → has_work w ≡ false → ¬ (HasWork (registry w))
has_work-idle w e (HasWork.accept_waits a at) =
    absurd (true≢false (sym (accepting-has_work w a at) ∙ e))
has_work-idle w e (HasWork.session_waits a s at busy) =
    absurd (true≢false (sym (busy-has_work a s w at busy) ∙ e))

module _ (h : Host) where
  after_handler-Handles :
      (n : ℕ) (next : World → Served) (Next : Registry → Observed → Type 0) (o : Outcome World)
      → ((w : World) → Next (registry w) (observed (next w)))
      → Handles n Next (registered o) (observed (after_handler n next o))
  after_handler-Handles n next Next (done w) e =
      Handles.goes_on (registry w) (observed (next w)) (e w)
  after_handler-Handles n next Next aborted e = Handles.ends
  after_handler-Handles n next Next thrown e = Handles.catches
  after_handler-Handles n next Next fault e = Handles.breaks

  serve-Serves :
      (now : ℕ) (calls : List Call) (n : ℕ) (w : World)
      → Serves h now calls n (registry w) (observed (serve h now calls n w))
  unfolding serve
  serve-Serves now [] n w =
      let seen = λ (x : Served). Serves h now [] n (registry w) (observed x) in
      elim (Bool-cases (has_work w)) [
        | inl e ↦ subst seen (sym (serve-waits h now n w e)) (inl (has_work-HasWork w e, refl))
        | inr e ↦ subst seen (sym (serve-idle h now n w e)) (inr (has_work-idle w e, refl))
      ]
  serve-Serves now (stop ∷ calls) n w = refl
  serve-Serves now (event x ∷ calls) n w =
      let seen = λ (y : Served). Serves h now (event x ∷ calls) n (registry w) (observed y) in
      let then_serve = serve h now calls (n + 1) in
      elim (Bool-cases (has_work w)) [
        | inl e ↦ subst seen (sym (serve-event h now n w x calls e)) (
            inl (
              has_work-HasWork w e,
              subst
                  (λ o.
                    Handles n (Serves h now calls (n + 1)) o
                      (observed (after_handler n then_serve (handle_event h now x w))))
                  (handle_event-registry h now x w)
                  (after_handler-Handles n then_serve (Serves h now calls (n + 1))
                    (handle_event h now x w) (serve-Serves now calls (n + 1))),
            ))
        | inr e ↦
            subst seen (sym (serve-no_event h now n w x calls e)) (inr (has_work-idle w e, refl))
      ]

  start-registry :
      (now : ℕ) (fresh : Fresh)
      → registered (start_service now fresh) ≡ next_session now fresh empty
  unfolding start_service start_acceptor construct IsNew
  start-registry now none = refl
  start-registry now (some (f, raw)) =
      let m = session_handler now f raw in
      ap registered (>>=-assoc m _ _)
      ∙ >>=-assoc m _ _
      ∙ >>=-agree m _ _ (session_handler-IsNew now f raw)
          λ s new. ap done (construct_registry f (f ∷ []) [] [] [] empty (λ b. refl) s new.0)

  -- network_server::run with any events and calls of stop, from its start to its end, refines the
  -- registry: what can be seen of it, whether it waits, has returned, has caught an exception of
  -- which handler, or the process has ended or its behaviour is undefined from which handler on,
  -- and in the first two cases with which session at each address and which accept that waits, is
  -- what the rules of the registry say (Runs). The registry knows neither the acceptor's set nor
  -- objects in memory, its handlers run beside an empty set, it returns as soon as there is no
  -- work, which is an accept that waits or an operation under way of some session (HasWork), and
  -- waits only where there is work.
  pub run_server-Runs :
      (now : ℕ) (fresh : Fresh) (calls : List Call)
      → Runs h now fresh calls (observed (run_server h now fresh calls))
  unfolding run_server
  run_server-Runs now fresh calls =
      subst
        (λ o.
          Handles 0 (Serves h now calls 1) o
            (observed (after_handler 0 (serve h now calls 1) (start_service now fresh))))
        (start-registry now fresh)
        (after_handler-Handles 0 (serve h now calls 1) (Serves h now calls 1)
          (start_service now fresh) (serve-Serves now calls 1))
