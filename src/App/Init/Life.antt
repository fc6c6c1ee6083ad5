-- ===== src/App/Init/Life.antt =====
-- A daemon from its start to its end, and what is left of it when something fails.
use librtaio.Base.{ℕ, ◌≡◌, refl, ap, ◌∙◌, true, false, List, [], ◌∷◌, ◌++◌, none, some, done}
use librtaio.App.Args.{AppArgs, running, is_empty, start_text, parse_args}
use librtaio.App.PidFile.{
  Files, is_there, regular, is_file, file_exists, with_file, file_put_contents, check_pidfile,
  write_pid, remove_pidfile,
}
use librtaio.App.Signals.{
  Signal, start_flags, run_loop_lem, asks_to_quit, is_deadly, Calm, deliver_lem, flags_after,
  flags_all,
}
use librtaio.App.Config.{PropertyTree, IniConfig, ini_config, read_profile_string}
use librtaio.App.Process.{goes, fails, dies, waits, and_then, Machine}
use librtaio.App.Daemon.{Os, Descriptors, daemonize}
use librtaio.App.Init.{
  application_text, pidfile_text, logconf_text, go_daemon, init_start, init_option, init,
  ServerThread, runs, no_port, run, serve, main,
}

module _ {Tree : Type 0} (pt : PropertyTree Tree) (m : Machine) (os : Os) where
  -- The configuration file can be read and names a pid file and a log configuration that is there.
  pub record IsConfigured (a : AppArgs) (fs : Files) (conf : IniConfig Tree) (path log : List ℕ)
      : Type 0 where
    pub conf_there : is_file fs a.conf_file ≡ true
    pub read : ini_config pt fs a.conf_file ≡ done conf
    pub pidfile : read_profile_string pt application_text pidfile_text [] conf ≡ done path
    pub named : is_empty path ≡ false
    pub logconf : read_profile_string pt application_text logconf_text [] conf ≡ done log
    pub log_there : is_file fs log ≡ true

  pub init_configured :
      (polls : ℕ) (ds : Descriptors) (a : AppArgs) (fs : Files) (conf : IniConfig Tree)
      (path log : List ℕ)
      → IsConfigured a fs conf path log
      → init pt m os polls ds a fs
        ≡ init_option pt m os polls conf ds (record a { pidfile = path }) fs
  unfolding init
  init_configured polls ds a fs conf path log ready =
      rw (ready.conf_there, ready.read, ready.pidfile)

  start_daemon :
      (ds : Descriptors) (a : AppArgs) (fs : Files) (conf : IniConfig Tree) (path log : List ℕ)
      (r : ℕ × Descriptors)
      → IsConfigured a fs conf path log
      → a.is_daemon ≡ true
      → file_exists fs path ≡ false
      → daemonize os none ds ≡ running r
      → init_start pt m os conf ds (record a { pidfile = path }) fs
        ≡ goes (record a { pidfile = path }) fs
  unfolding init_start go_daemon check_pidfile
  start_daemon ds a fs conf path log r ready daemon fresh forked =
      rw (daemon, ready.named, fresh, ready.logconf, ready.log_there, forked)

  pub option_start :
      (polls : ℕ) (ds : Descriptors) (a : AppArgs) (fs : Files) (conf : IniConfig Tree)
      → a.start_opt ≡ start_text
      → init_option pt m os polls conf ds a fs ≡ init_start pt m os conf ds a fs
  unfolding init_option
  option_start polls ds a fs conf start = rw start

  -- The files while the daemon runs.
  abbrev pub with_pid : List ℕ → Files → Files
  with_pid path fs = with_file fs path (some (regular (m.to_text m.pid)))

  module _ (polls : ℕ) (ds : Descriptors) (argv : List (List ℕ)) (a : AppArgs) (fs : Files)
      (conf : IniConfig Tree) (path log : List ℕ) (r : ℕ × Descriptors)
      (line : parse_args argv ≡ running a) (daemon : a.is_daemon ≡ true)
      (start : a.start_opt ≡ start_text) (ready : IsConfigured a fs conf path log)
      (fresh : fs path ≡ none) (forked : daemonize os none ds ≡ running r)
      (opens : m.writable path ≡ true) where
    main_serves :
        (srv : ServerThread) (sleeps : List (List Signal))
        → main pt m os polls ds srv sleeps argv fs
          ≡ serve m srv sleeps (record a { pidfile = path }) fs
    unfolding main
    main_serves srv sleeps = rw (
      line,
      init_configured polls ds a fs conf path log ready,
      option_start polls ds (record a { pidfile = path }) fs conf start,
      start_daemon ds a fs conf path log r ready daemon (ap is_there fresh) forked,
    )

    serve_lem :
        (srv : ServerThread) (sleeps : List (List Signal))
        → serve m srv sleeps (record a { pidfile = path }) fs
          ≡ and_then
              (run srv sleeps (with_pid path fs))
              λ _ fs'. goes 0 (remove_pidfile m.removable (record a { pidfile = path }) fs')
    unfolding serve write_pid file_put_contents
    serve_lem srv sleeps = rw (daemon, ready.named, opens, fresh)

    no_port_fails :
        (sleeps : List (List Signal))
        → main pt m os polls ds no_port sleeps argv fs ≡ fails (with_pid path fs)
    unfolding run
    no_port_fails sleeps = main_serves no_port sleeps ∙ serve_lem no_port sleeps

    -- A daemon is started by a command line that parse_args accepts, with a configuration that
    -- names a pid file and a log configuration that is there (IsConfigured), no pid file there
    -- yet, where daemonize lets the process go on, the pid file can be written and removed. Where
    -- the server's port is free: as long as no SIGTERM or SIGINT comes and no signal that ends the
    -- process, like SIGHUP or the SIGABRT of the server's thread (Calm), main has not returned and
    -- the pid file holds the process's id. After the first sleep in which SIGTERM or SIGINT comes,
    -- and no signal that ends the process then (is_deadly) or while the server's thread is joined,
    -- whatever would have come in later sleeps, main returns 0, and the pid file is gone. Where a
    -- signal that ends the process comes in a sleep, or while the thread is joined, or where the
    -- port cannot be opened, so that the exception leaves main, the pid file stays behind.
    pub daemon_life :
        (before rest : List (List Signal)) (sigs deadly late : List Signal)
        → m.removable path ≡ true
        → Calm before
        → asks_to_quit sigs ≡ true
        → is_deadly sigs ≡ false
        → is_deadly deadly ≡ true
        → is_deadly late ≡ false
        → (main pt m os polls ds (runs late) before argv fs ≡ waits (with_pid path fs))
          × (main pt m os polls ds (runs late) (before ++ (sigs ∷ rest)) argv fs
              ≡ goes 0 (with_file (with_pid path fs) path none))
          × (main pt m os polls ds (runs late) (before ++ (deadly ∷ rest)) argv fs
              ≡ dies (with_pid path fs))
          × (main pt m os polls ds (runs deadly) (before ++ (sigs ∷ rest)) argv fs
              ≡ dies (with_pid path fs))
          × (main pt m os polls ds no_port rest argv fs ≡ fails (with_pid path fs))
    unfolding run remove_pidfile
    daemon_life before rest sigs deadly late goes_away calm asked alive dead late_alive =
        let (loop, ends, breaks) = run_loop_lem before rest start_flags calm refl in
        let flags = flags_after sigs (flags_all before start_flags) in
        (
          main_serves (runs late) before ∙ serve_lem (runs late) before ∙ rw loop,
          main_serves (runs late) (before ++ (sigs ∷ rest))
              ∙ serve_lem (runs late) (before ++ (sigs ∷ rest))
              ∙ rw (
                ends sigs asked alive,
                deliver_lem late flags,
                late_alive,
                daemon,
                ready.named,
                goes_away,
              ),
          main_serves (runs late) (before ++ (deadly ∷ rest))
              ∙ serve_lem (runs late) (before ++ (deadly ∷ rest))
              ∙ rw (breaks deadly dead),
          main_serves (runs deadly) (before ++ (sigs ∷ rest))
              ∙ serve_lem (runs deadly) (before ++ (sigs ∷ rest))
              ∙ rw (ends sigs asked alive, deliver_lem deadly flags, dead),
          no_port_fails rest,
        )
