-- ===== src/App/Init/Tests.antt =====
-- The theorems about the application's life, at concrete inputs.
use librtaio.Base.{
  ℕ, ◌≡◌, ◌≢◌, refl, true, [], ◌∷◌, ◌++◌, none, some, if◌then◌else◌, ltb, arith, ◌<◌,
}
use librtaio.App.Args.{AppArgs, parse_args, parse_loop}
use librtaio.App.PidFile.{Files, regular, with_file, file_exists, read_pid}
use librtaio.App.Signals.{sigterm, sigalrm, deadly_signal}
use librtaio.App.Config.{ini_config, read_profile_string}
use librtaio.App.Config.Sample.{trees}
use librtaio.App.Process.{goes, exits, fails, dies, waits, killed, no_process}
use librtaio.App.Stop.{kill_process, kill_process-ends}
use librtaio.App.Daemon.{
  daemonize, daemon_child, close_descriptor, null_descriptors, dup_descriptor,
}
use librtaio.App.Daemon.Ends.{Daemonized, daemonize_lem}
use librtaio.App.Init.{runs, no_port, main}
use librtaio.App.Init.Life.{IsConfigured, daemon_life}
use librtaio.App.Init.Refused.{stale_pidfile}
use librtaio.App.Init.Sample.{
  daemon_line, daemon_args, stop_line, stop_args, settings, conf, before_start, with_old_pid,
  machine, os, terminal, ready, result_of,
}

life_example :
    (main
        (trees settings)
        machine
        os
        5
        terminal
        (runs [])
        ((sigalrm ∷ []) ∷ [])
        daemon_line
        before_start
      ≡ waits (with_file before_start (112 ∷ []) (some (regular (80 ∷ [])))))
    × (main
          (trees settings)
          machine
          os
          5
          terminal
          (runs [])
          (((sigalrm ∷ []) ∷ []) ++ ((sigterm ∷ []) ∷ []))
          daemon_line
          before_start
        ≡ goes 0 (
            with_file
              (with_file before_start (112 ∷ []) (some (regular (80 ∷ []))))
              (112 ∷ [])
              none))
    × (main
          (trees settings)
          machine
          os
          5
          terminal
          (runs [])
          (((sigalrm ∷ []) ∷ []) ++ ((deadly_signal 1 ∷ []) ∷ []))
          daemon_line
          before_start
        ≡ dies (with_file before_start (112 ∷ []) (some (regular (80 ∷ [])))))
    × (main
          (trees settings)
          machine
          os
          5
          terminal
          (runs (deadly_signal 1 ∷ []))
          (((sigalrm ∷ []) ∷ []) ++ ((sigterm ∷ []) ∷ []))
          daemon_line
          before_start
        ≡ dies (with_file before_start (112 ∷ []) (some (regular (80 ∷ [])))))
    × (main (trees settings) machine os 5 terminal no_port [] daemon_line before_start
        ≡ fails (with_file before_start (112 ∷ []) (some (regular (80 ∷ [])))))
unfolding parse_args parse_loop daemonize daemon_child close_descriptor null_descriptors
    dup_descriptor
life_example =
    daemon_life (trees settings) machine os 5 terminal daemon_line daemon_args before_start conf
      (112 ∷ []) (108 ∷ []) (result_of (daemonize os none terminal)) refl refl refl ready refl refl
      refl ((sigalrm ∷ []) ∷ []) [] (sigterm ∷ []) (deadly_signal 1 ∷ []) [] refl ((refl, refl), tt)
      refl refl refl refl

-- The files when process 77 died without removing its file.
stale_ready :
    (a : AppArgs)
    → a.conf_file ≡ 97 ∷ []
    → IsConfigured (trees settings) machine os a with_old_pid conf (112 ∷ []) (108 ∷ [])
unfolding ini_config read_profile_string
stale_ready a e = record {
  conf_there = rw e;
  read = rw e;
  pidfile = refl;
  named = refl;
  logconf = refl;
  log_there = refl;
}

stale_example :
    (main (trees settings) machine os 5 terminal (runs []) [] stop_line with_old_pid
      ≡ exits 0 with_old_pid)
    × (main (trees settings) machine os 5 terminal (runs []) [] daemon_line with_old_pid
        ≡ exits 1 with_old_pid)
unfolding parse_args parse_loop read_pid
stale_example =
    stale_pidfile (trees settings) machine os 5 terminal (runs []) [] with_old_pid conf (112 ∷ [])
      (108 ∷ []) stop_line daemon_line stop_args daemon_args 77 refl refl refl
      (stale_ready stop_args refl) refl refl refl (stale_ready daemon_args refl) refl refl
      (λ e. absurd (omega arith)) refl

abbrev with_pidfile : AppArgs
with_pidfile = record daemon_args { pidfile = 112 ∷ [] }

-- A live process's pid file, seen in two tests.
abbrev with_pid_78 : Files
with_pid_78 = with_file before_start (112 ∷ []) (some (regular (78 ∷ [])))

alive : killed ≢ no_process
alive e = cc

seen_twice : (i : ℕ) → i < 2 → file_exists (machine.later i) (112 ∷ []) ≡ true
seen_twice i low = let e : ltb i 2 ≡ true = ground arith in rw e

kill_example :
    kill_process machine 5 with_pidfile with_pid_78
    ≡ (if ltb 2 5 then goes tt (machine.later 2) else waits (machine.later 5))
unfolding read_pid
kill_example =
    kill_process-ends machine with_pidfile with_pid_78 78 2 5 refl (λ e. absurd (omega arith)) alive
      refl seen_twice refl

daemonize_example : Daemonized os none terminal (daemonize os none terminal)
daemonize_example = daemonize_lem os none terminal
