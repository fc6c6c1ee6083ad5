-- ===== src/App/Daemon/Ends.antt =====
-- How daemonize (src/libs/daemon.h) may end, whatever the operating system answers.
use librtaio.Base.{ℕ, ◌≡◌, ◌∙◌, ap, refl, sym, true, List, Option, none, some, subst, ◌&&◌}
use librtaio.Protocol.Field.{minus_one}
use librtaio.App.Args.{Run, running, exited}
use librtaio.App.Daemon.{
  Os, Fork, no_fork, in_child, in_parent, Descriptors, null_device, with_descriptor, or_exit,
  is_open, close_descriptor, dup_descriptor, opened, change_dir, null_descriptors, daemon_child,
  after_fork, daemonize,
}
use librtaio.App.Daemon.Calls.{
  exited≢running, run_then-running, exited_zero, or_exit-running, or_exit-true, and-parts,
  opened-some, IsNull, opened_lem, dup_lem, child-IsQuiet, child_lem, IsQuiet,
}

module _ (os : Os) where
  -- The descriptors without 0, 1 and 2.
  abbrev pub without_standard : Descriptors → Descriptors
  without_standard ds = with_descriptor 2 none (with_descriptor 1 none (with_descriptor 0 none ds))

  -- All calls that the child makes go well.
  pub record GoesWell (dir : Option (List ℕ)) (ds : Descriptors) : Type 0 where
    pub session : os.setsid ≡ true
    pub directory : change_dir os dir ≡ true
    pub standard : (is_open (ds 0) ≡ true) × (is_open (ds 1) ≡ true) × (is_open (ds 2) ≡ true)
    pub closed : (os.can_close 0 ≡ true) × (os.can_close 1 ≡ true) × (os.can_close 2 ≡ true)
    pub null : ℕ
    pub null_opened : os.open_at null_device (without_standard ds) ≡ some null
    pub copied :
        (os.can_dup null 0 ≡ true) × (os.can_dup null 1 ≡ true) × (os.can_dup null 2 ≡ true)

  close-parts :
      (fd : ℕ) (ds ds' : Descriptors)
      → close_descriptor os fd ds ≡ running ds'
      → (is_open (ds fd) ≡ true) × (os.can_close fd ≡ true) × (with_descriptor fd none ds ≡ ds')
  unfolding close_descriptor
  close-parts fd ds ds' e =
      let ok =
        and-parts (is_open (ds fd)) (os.can_close fd)
          (or_exit-true (is_open (ds fd) && os.can_close fd) (with_descriptor fd none ds) e) in
      (ok.0, ok.1, or_exit-running (is_open (ds fd) && os.can_close fd) _ ds' e)

  dup-part :
      (fd target : ℕ) (ds ds' : Descriptors)
      → dup_descriptor os fd target ds ≡ running ds'
      → os.can_dup fd target ≡ true
  unfolding dup_descriptor
  dup-part fd target ds ds' e =
      (and-parts (is_open (ds fd)) (os.can_dup fd target) (
        or_exit-true (is_open (ds fd) && os.can_dup fd target) (with_descriptor target (ds fd) ds)
          e)).1

  null-parts :
      (fd : ℕ) (ds : Descriptors) (r : ℕ × Descriptors)
      → null_descriptors os fd ds ≡ running r
      → (os.can_dup fd 0 ≡ true) × (os.can_dup fd 1 ≡ true) × (os.can_dup fd 2 ≡ true)
  unfolding null_descriptors
  null-parts fd ds r e =
      let (ds1, e1, rest1) = run_then-running (dup_descriptor os fd 0 ds) _ e in
      let (ds2, e2, rest2) = run_then-running (dup_descriptor os fd 1 ds1) _ rest1 in
      let (ds3, e3, rest3) = run_then-running (dup_descriptor os fd 2 ds2) _ rest2 in
      (dup-part fd 0 ds ds1 e1, dup-part fd 1 ds1 ds2 e2, dup-part fd 2 ds2 ds3 e3)

  child-GoesWell :
      (dir : Option (List ℕ)) (ds : Descriptors) (r : ℕ × Descriptors)
      → daemon_child os dir ds ≡ running r
      → GoesWell dir ds
  unfolding daemon_child
  child-GoesWell dir ds r e =
      let (ds0, e0, rest0) = run_then-running (or_exit os.setsid ds) _ e in
      let (ds1, e1, rest1) = run_then-running (or_exit (change_dir os dir) ds0) _ rest0 in
      let (ds2, e2, rest2) = run_then-running (close_descriptor os 0 ds1) _ rest1 in
      let (ds3, e3, rest3) = run_then-running (close_descriptor os 1 ds2) _ rest2 in
      let (ds4, e4, rest4) = run_then-running (close_descriptor os 2 ds3) _ rest3 in
      let (p, e5, rest5) = run_then-running (opened (os.open_at null_device ds4) ds4) _ rest4 in
      let same : ds ≡ ds1 =
        or_exit-running os.setsid ds ds0 e0 ∙ or_exit-running (change_dir os dir) ds0 ds1 e1 in
      let (open0, close0, d2) = close-parts 0 ds1 ds2 e2 in
      let (open1, close1, d3) = close-parts 1 ds2 ds3 e3 in
      let (open2, close2, d4) = close-parts 2 ds3 ds4 e4 in
      let s2 : with_descriptor 0 none ds ≡ ds2 = ap (with_descriptor 0 none) same ∙ d2 in
      let s3 : with_descriptor 1 none (with_descriptor 0 none ds) ≡ ds3 =
        ap (with_descriptor 1 none) s2 ∙ d3 in
      let s4 : without_standard ds ≡ ds4 = ap (with_descriptor 2 none) s3 ∙ d4 in
      let (fd, at, r5) = opened-some (os.open_at null_device ds4) ds4 e5 in
      record {
        session = or_exit-true os.setsid ds e0;
        directory = or_exit-true (change_dir os dir) ds0 e1;
        standard = (
          ap (λ d. is_open (d 0)) same ∙ open0,
          ap (λ d. is_open (d 1)) s2 ∙ open1,
          ap (λ d. is_open (d 2)) s3 ∙ open2,
        );
        closed = (close0, close1, close2);
        null = fd;
        null_opened = ap (os.open_at null_device) s4 ∙ at;
        copied =
            subst (λ k. (os.can_dup k 0 ≡ true) × (os.can_dup k 1 ≡ true) × (os.can_dup k 2 ≡ true))
              (sym (ap (λ q. q.0) r5)) (null-parts p.0 p.1 r rest5);
      }

  dup-runs :
      (fd target : ℕ) (ds : Descriptors)
      → IsNull ds fd
      → os.can_dup fd target ≡ true
      → (ds' : Descriptors) × (dup_descriptor os fd target ds ≡ running ds') × IsNull ds' fd
  unfolding dup_descriptor IsNull
  dup-runs fd target ds null can =
      let run : or_exit (is_open (ds fd) && os.can_dup fd target)
            (with_descriptor target (ds fd) ds)
          ≡ running (with_descriptor target (ds fd) ds) =
        rw (ap is_open null, can) in
      (
        with_descriptor target (ds fd) ds,
        run,
        (dup_lem os fd target ds (with_descriptor target (ds fd) ds) null run).1 fd null,
      )

  null-runs :
      (fd : ℕ) (ds : Descriptors)
      → IsNull ds fd
      → (os.can_dup fd 0 ≡ true) × (os.can_dup fd 1 ≡ true) × (os.can_dup fd 2 ≡ true)
      → (r : ℕ × Descriptors) × (null_descriptors os fd ds ≡ running r)
  unfolding null_descriptors
  null-runs fd ds null can =
      let (ds1, e1, null1) = dup-runs fd 0 ds null can.0 in
      let (ds2, e2, null2) = dup-runs fd 1 ds1 null1 can.1 in
      let (ds3, e3, null3) = dup-runs fd 2 ds2 null2 can.2 in ((0, ds3), rw (e1, e2, e3))

  GoesWell-child :
      (dir : Option (List ℕ)) (ds : Descriptors)
      → GoesWell dir ds
      → (r : ℕ × Descriptors) × (daemon_child os dir ds ≡ running r)
  unfolding daemon_child close_descriptor
  GoesWell-child dir ds w =
      let here : IsNull (with_descriptor w.null (some null_device) (without_standard ds)) w.null =
        opened_lem (some w.null) (without_standard ds) _ refl in
      let (r, e) =
        null-runs w.null (with_descriptor w.null (some null_device) (without_standard ds)) here
          w.copied in
      (
        r,
        simp (
          w.session, w.directory, w.standard.0, w.closed.0, w.standard.1, w.closed.1, w.standard.2,
          w.closed.2, w.null_opened, e,
        ),
      )

  child_exits :
      (dir : Option (List ℕ)) (ds : Descriptors) (code : ℕ)
      → daemon_child os dir ds ≡ exited code
      → ¬ (GoesWell dir ds)
  child_exits dir ds code e w =
      let (r, runs) = GoesWell-child dir ds w in absurd (exited≢running (sym e ∙ runs))

  -- How daemonize() may end: the parent exits, fork() fails, a call in the child fails, or all go
  -- well (GoesWell) and the child goes on with the three standard descriptors on the null device.
  pub data Daemonized (dir : Option (List ℕ)) (ds : Descriptors)
      : Run (ℕ × Descriptors) → Type 0 where
    parent : (child : ℕ) → os.fork ≡ in_parent child → Daemonized dir ds (exited 0)
    unforked : os.fork ≡ no_fork → Daemonized dir ds (running (minus_one, ds))
    failed : os.fork ≡ in_child → ¬ (GoesWell dir ds) → Daemonized dir ds (exited 0)
    goes_on :
        (ds' : Descriptors)
        → os.fork ≡ in_child
        → GoesWell dir ds
        → IsNull ds' 0
        → IsNull ds' 1
        → IsNull ds' 2
        → Daemonized dir ds (running (0, ds'))

  child_ends :
      (dir : Option (List ℕ)) (ds : Descriptors) (x : Run (ℕ × Descriptors))
      → os.fork ≡ in_child
      → daemon_child os dir ds ≡ x
      → Daemonized dir ds x
  child_ends dir ds (running (result, ds')) forked e =
      let (zero, in_null, out_null, err_null) = child_lem os dir ds (result, ds') e in
      subst (λ n. Daemonized dir ds (running (n, ds'))) (sym zero)
        (Daemonized.goes_on ds' forked (child-GoesWell dir ds (result, ds') e) in_null out_null
          err_null)
  child_ends dir ds (exited code) forked e =
      subst (λ n. Daemonized dir ds (exited n))
        (sym (exited_zero code (subst IsQuiet e (child-IsQuiet os dir ds))))
        (Daemonized.failed forked (child_exits dir ds code e))

  fork_ends :
      (dir : Option (List ℕ)) (ds : Descriptors) (k : Fork)
      → os.fork ≡ k
      → Daemonized dir ds (after_fork os dir ds k)
  fork_ends dir ds no_fork e = Daemonized.unforked e
  fork_ends dir ds in_child e = child_ends dir ds (daemon_child os dir ds) e refl
  fork_ends dir ds (in_parent child) e = Daemonized.parent child e

  -- Whatever the operating system answers, daemonize ends in one of these ways (Daemonized). The
  -- parent exits with 0. Where fork fails, the process goes on with the result -1 and its
  -- descriptors unchanged. The child goes on exactly if all its calls go well (GoesWell: setsid,
  -- chdir where a directory is given, close of 0, 1 and 2, open of /dev/null, dup2 to 0, 1 and 2),
  -- with the result 0 and the descriptors 0, 1 and 2 all open on /dev/null; and it exits with 0
  -- exactly if one of them fails.
  pub daemonize_lem :
      (dir : Option (List ℕ)) (ds : Descriptors) → Daemonized dir ds (daemonize os dir ds)
  unfolding daemonize
  daemonize_lem dir ds = fork_ends dir ds os.fork refl
