-- ===== src/App/Init/Stopping/Tests.antt =====
-- A daemon that is stopped in its second sleep.
use librtaio.Base.{ℕ, ◌≡◌, ◌≢◌, refl, List, [], ◌∷◌, ◌++◌, take, ◌+◌, none, some, arith}
use librtaio.App.Args.{parse_args, parse_loop}
use librtaio.App.PidFile.{Files, regular, with_file}
use librtaio.App.Signals.{Signal, sigterm, sigalrm}
use librtaio.App.Config.{ini_config, read_profile_string}
use librtaio.App.Config.Sample.{trees}
use librtaio.App.Process.{Process, goes, exits, killed, no_process, Machine}
use librtaio.App.Daemon.{
  daemonize, daemon_child, close_descriptor, null_descriptors, dup_descriptor,
}
use librtaio.App.Init.{runs, main}
use librtaio.App.Init.Life.{IsConfigured}
use librtaio.App.Init.Sample.{
  daemon_line, daemon_args, stop_line, stop_args, settings, conf, before_start, machine, os,
  terminal, ready, result_of,
}
use librtaio.App.Init.Stopping.{files_of, stop_ends_daemon}

abbrev daemon_sleeps : List (List Signal)
daemon_sleeps = ((sigalrm ∷ []) ∷ []) ++ ((sigterm ∷ []) ∷ [])

-- The daemon, and its files while process 81 waits: the first test comes after its first sleep.
abbrev daemon_at : ℕ → Process ℕ
daemon_at k =
    main (trees settings) machine os 5 terminal (runs []) (take k daemon_sleeps) daemon_line
      before_start

abbrev stopper : Machine
stopper = record machine { pid = 81; later = λ i. files_of (daemon_at (i + 1)) }

abbrev pid_files : Files
pid_files = with_file before_start (112 ∷ []) (some (regular (80 ∷ [])))

stop_ready : IsConfigured (trees settings) stopper os stop_args pid_files conf (112 ∷ []) (108 ∷ [])
unfolding ini_config read_profile_string
stop_ready = record {
  conf_there = refl;
  read = refl;
  pidfile = refl;
  named = refl;
  logconf = refl;
  log_there = refl;
}

alive : killed ≢ no_process
alive e = cc

stop_example :
    (daemon_at (1 + 1) ≡ goes 0 (with_file pid_files (112 ∷ []) none))
    × (main (trees settings) stopper os 5 terminal (runs []) [] stop_line pid_files
        ≡ exits 0 (with_file pid_files (112 ∷ []) none))
unfolding parse_args parse_loop daemonize daemon_child close_descriptor null_descriptors
    dup_descriptor
stop_example =
    stop_ends_daemon (trees settings) machine os 5 terminal daemon_line daemon_args before_start
      conf (112 ∷ []) (108 ∷ []) (result_of (daemonize os none terminal)) refl refl refl ready refl
      refl refl refl ((sigalrm ∷ []) ∷ []) [] (sigterm ∷ []) [] ((refl, refl), tt) refl refl refl
      stopper os terminal (runs []) [] stop_line stop_args refl refl stop_ready refl refl
      (λ e. absurd (omega arith)) alive refl 1 5 (λ i. i + 1) (λ i. refl) (λ i low. omega arith)
      (omega arith) (omega arith)
