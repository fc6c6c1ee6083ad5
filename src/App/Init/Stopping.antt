-- ===== src/App/Init/Stopping.antt =====
-- Two processes of src/libs/app.cpp: a daemon, and a second one that is started with `-s stop`.
mod Tests
use librtaio.Base.{
  ℕ, zero, suc, ◌+◌, ◌-◌, ◌≤◌, ◌<◌, ◌≡◌, ◌≢◌, refl, sym, ap, subst, ◌∙◌, Bool, true, false, List,
  [], ◌∷◌, ◌++◌, none, some, length, take, ltb, if◌then◌else◌, done, arith, take-append-more,
}
use librtaio.Protocol.Field.{minus_one}
use librtaio.App.Args.{AppArgs, running, is_empty, start_text, stop_text, parse_args}
use librtaio.App.PidFile.{
  Files, regular, file_exists, with_file, read_pid, contents_lem, exists_lem, file_get_contents,
}
use librtaio.App.Signals.{Signal, deadly_signal, is_deadly, asks_to_quit, Calm}
use librtaio.App.Config.{PropertyTree, IniConfig}
use librtaio.App.Process.{
  Process, goes, exits, fails, dies, waits, and_then, Machine, killed, no_process,
}
use librtaio.App.Stop.{kill_process, kill_process-ends}
use librtaio.App.Daemon.{Os, Descriptors, daemonize}
use librtaio.App.Init.{ServerThread, runs, main}
use librtaio.App.Init.Life.{IsConfigured, init_configured, daemon_life, with_pid}
use librtaio.App.Init.Refused.{option_stop}

-- The files as a run leaves them, or as they are while it waits.
abbrev pub files_of {ℓ} : {A : Type ℓ} → Process A → Files
files_of (goes a fs) = fs
files_of (exits code fs) = fs
files_of (fails fs) = fs
files_of (dies fs) = fs
files_of (waits fs) = fs

take-append-less {ℓ} :
    {A : Type ℓ} (k : ℕ) (xs ys : List A) → k ≤ length xs → take k (xs ++ ys) ≡ take k xs
take-append-less zero xs ys short = refl
take-append-less (suc k) [] ys short = absurd (omega arith)
take-append-less (suc k) (x ∷ xs) ys short =
    ap (λ l. x ∷ l) (take-append-less k xs ys (omega arith))

Calm-take : (k : ℕ) (sleeps : List (List Signal)) → Calm sleeps → Calm (take k sleeps)
Calm-take zero sleeps calm = tt
Calm-take (suc k) [] calm = tt
Calm-take (suc k) (sigs ∷ sleeps) (quiet, calm) = (quiet, Calm-take k sleeps calm)

take-suc {ℓ} :
    {A : Type ℓ} (k : ℕ) (x : A) (xs : List A) → 0 < k → take k (x ∷ xs) ≡ x ∷ take (k - 1) xs
take-suc zero x xs positive = absurd (omega arith)
take-suc (suc k) x xs positive = let same : suc k - 1 ≡ k = omega arith in rw same

module _ {Tree : Type 0} (pt : PropertyTree Tree) (m : Machine) (os : Os) (polls : ℕ)
    (ds : Descriptors) (argv : List (List ℕ)) (a : AppArgs) (fs : Files) (conf : IniConfig Tree)
    (path log : List ℕ) (r : ℕ × Descriptors) (line : parse_args argv ≡ running a)
    (daemon : a.is_daemon ≡ true) (start : a.start_opt ≡ start_text)
    (ready : IsConfigured pt m os a fs conf path log) (fresh : fs path ≡ none)
    (forked : daemonize os none ds ≡ running r) (opens : m.writable path ≡ true)
    (goes_away : m.removable path ≡ true) (before rest : List (List Signal))
    (sigs late : List Signal) (calm : Calm before) (asked : asks_to_quit sigs ≡ true)
    (alive : is_deadly sigs ≡ false) (late_alive : is_deadly late ≡ false) where
  -- The daemon after `k` of its sleeps.
  abbrev pub daemon_after : ℕ → Process ℕ
  daemon_after k = main pt m os polls ds (runs late) (take k (before ++ (sigs ∷ rest))) argv fs

  abbrev pub no_pid : Files
  no_pid = with_file (with_pid pt m os path fs) path none

  life :
      (before rest : List (List Signal))
      → Calm before
      → (main pt m os polls ds (runs late) before argv fs ≡ waits (with_pid pt m os path fs))
        × (main pt m os polls ds (runs late) (before ++ (sigs ∷ rest)) argv fs ≡ goes 0 no_pid)
  life before rest calm =
      let (a, b, _, _, _) =
        daemon_life pt m os polls ds argv a fs conf path log r line daemon start ready fresh forked
          opens before rest sigs (deadly_signal 9 ∷ []) late goes_away calm asked alive refl
          late_alive in
      (a, b)

  daemon_runs : (k : ℕ) → k ≤ length before → daemon_after k ≡ waits (with_pid pt m os path fs)
  daemon_runs k early =
      rw (take-append-less k before (sigs ∷ rest) early)
        (life (take k before) rest (Calm-take k before calm)).0

  daemon_ends : (k : ℕ) → length before < k → daemon_after k ≡ goes 0 no_pid
  daemon_ends k late =
      rw
        (
          take-append-more k before (sigs ∷ rest) (omega arith),
          take-suc (k - length before) sigs rest (omega arith),
        )
        (life before (take (k - length before - 1) rest) calm).1

  -- The process that stops it: another machine record, since another process sees the same system.
  module _ (m' : Machine) (os' : Os) (ds' : Descriptors) (srv : ServerThread)
      (sleeps : List (List Signal)) (argv' : List (List ℕ)) (b : AppArgs)
      (line' : parse_args argv' ≡ running b) (stop : b.start_opt ≡ stop_text)
      (ready' : IsConfigured pt m' os' b (with_pid pt m os path fs) conf path log)
      (text : is_empty (m.to_text m.pid) ≡ false) (back : m'.to_pid (m.to_text m.pid) ≡ done m.pid)
      (some_pid : m.pid ≢ minus_one) (there : m'.probe m.pid ≢ no_process)
      (term : m'.terminate m.pid ≡ killed) where
    pid_read :
        read_pid m'.to_pid (record b { pidfile = path }) (with_pid pt m os path fs) ≡ done m.pid
    unfolding read_pid
    pid_read = rw (ready'.named, contents_lem fs path (m.to_text m.pid), text) back

    stopped :
        (last polls' : ℕ)
        → ((i : ℕ) → i < last → file_exists (m'.later i) path ≡ true)
        → file_exists (m'.later last) path ≡ false
        → last < polls'
        → main pt m' os' polls' ds' srv sleeps argv' (with_pid pt m os path fs)
          ≡ exits 0 (m'.later last)
    unfolding main
    stopped last polls' before_last gone enough =
        let more : ltb last polls' ≡ true = ground arith in
        rw (
          line',
          init_configured pt m' os' polls' ds' b (with_pid pt m os path fs) conf path log ready',
          option_stop pt m' os' polls' ds' srv sleeps (with_pid pt m os path fs) conf path log
              (record b { pidfile = path }) stop,
          kill_process-ends m' (record b { pidfile = path }) (with_pid pt m os path fs) m.pid last
              polls' pid_read some_pid there term before_last gone,
          more,
        )

    -- Two processes. A daemon as in daemon_life, whose pid file can be written and removed and
    -- whose port is free, gets a SIGTERM or SIGINT in one of its sleeps and none before (Calm,
    -- asks_to_quit), and no signal that ends it up to its end (Calm, is_deadly). A second process
    -- is started with -s stop while the daemon waits; its configuration names the same pid file
    -- (IsConfigured), it reads the daemon's id from it, may send it SIGTERM, and at its `i`th test
    -- of the pid file sees the files as the daemon has left them after some number of sleeps
    -- (clock), which is up to that sleep at all tests before one, and behind it at that one. Then
    -- the daemon has returned 0 by then, the second process, followed for more tests, exits with
    -- 0, and for both the pid file is gone.
    pub stop_ends_daemon :
        (last polls' : ℕ) (clock : ℕ → ℕ)
        → ((i : ℕ) → m'.later i ≡ files_of (daemon_after (clock i)))
        → ((i : ℕ) → i < last → clock i ≤ length before)
        → length before < clock last
        → last < polls'
        → (daemon_after (clock last) ≡ goes 0 no_pid)
          × (main pt m' os' polls' ds' srv sleeps argv' (with_pid pt m os path fs) ≡ exits 0 no_pid)
    stop_ends_daemon last polls' clock seen early late enough =
        let ended = daemon_ends (clock last) late in
        let last_files : m'.later last ≡ no_pid = seen last ∙ ap files_of ended in
        let there : (i : ℕ) → i < last → file_exists (m'.later i) path ≡ true = λ i low.
          ap (λ x. file_exists x path) (seen i ∙ ap files_of (daemon_runs (clock i) (early i low)))
          ∙ exists_lem fs path (some (regular (m.to_text m.pid))) in
        let gone : file_exists (m'.later last) path ≡ false =
          ap (λ x. file_exists x path) last_files
          ∙ exists_lem (with_pid pt m os path fs) path none in
        (ended, stopped last polls' there gone enough ∙ ap (exits 0) last_files)
