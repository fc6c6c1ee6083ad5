-- ===== src/App/Init/Refused.antt =====
-- A daemon that is not started because of a pid file, and how such a file stays behind.
use librtaio.Base.{ℕ, ◌≡◌, ◌≢◌, true, false, List, done}
use librtaio.Protocol.Field.{minus_one}
use librtaio.App.Args.{AppArgs, running, start_text, stop_text, text_eq, parse_args}
use librtaio.App.PidFile.{Files, file_exists, check_pidfile, remove_pidfile, read_pid}
use librtaio.App.Signals.{Signal}
use librtaio.App.Config.{PropertyTree, IniConfig}
use librtaio.App.Process.{exits, and_then, Machine, no_process}
use librtaio.App.Stop.{kill_process, kill_process-dead}
use librtaio.App.Daemon.{Os, Descriptors}
use librtaio.App.Init.{init_start, init_option, ServerThread, main}
use librtaio.App.Init.Life.{IsConfigured, init_configured, option_start}

module _ {Tree : Type 0} (pt : PropertyTree Tree) (m : Machine) (os : Os) (polls : ℕ)
    (ds : Descriptors) (srv : ServerThread) (sleeps : List (List Signal)) (fs : Files)
    (conf : IniConfig Tree) (path log : List ℕ) where
  -- A daemon that is started while its pid file is there exits with 1.
  pub start_refused :
      (argv : List (List ℕ)) (a : AppArgs)
      → parse_args argv ≡ running a
      → a.is_daemon ≡ true
      → a.start_opt ≡ start_text
      → IsConfigured pt m os a fs conf path log
      → file_exists fs path ≡ true
      → main pt m os polls ds srv sleeps argv fs ≡ exits 1 fs
  unfolding main init_start check_pidfile
  start_refused argv a line daemon start ready there = rw (
    line,
    init_configured pt m os polls ds a fs conf path log ready,
    option_start pt m os polls ds (record a { pidfile = path }) fs conf start,
    daemon,
    ready.named,
    there,
  )

  pub option_stop :
      (a : AppArgs)
      → a.start_opt ≡ stop_text
      → init_option pt m os polls conf ds a fs
        ≡ and_then (kill_process m polls a fs) λ _ fs'. exits 0 fs'
  unfolding init_option
  option_stop a stop = let is_stop : text_eq a.start_opt stop_text ≡ true = rw stop in rw is_stop

  stop_dead :
      (argv : List (List ℕ)) (a : AppArgs) (pid : ℕ)
      → parse_args argv ≡ running a
      → a.is_daemon ≡ false
      → a.start_opt ≡ stop_text
      → IsConfigured pt m os a fs conf path log
      → read_pid m.to_pid (record a { pidfile = path }) fs ≡ done pid
      → pid ≢ minus_one
      → m.probe pid ≡ no_process
      → main pt m os polls ds srv sleeps argv fs ≡ exits 0 fs
  unfolding main remove_pidfile
  stop_dead argv a pid line front stop ready read some_pid dead = rw (
    line,
    init_configured pt m os polls ds a fs conf path log ready,
    option_stop (record a { pidfile = path }) stop,
    kill_process-dead m (record a { pidfile = path }) fs pid polls read some_pid dead,
    front,
  )

  -- A pid file names a process that does not run, and the configuration names that file
  -- (IsConfigured). Stopping it without -d exits with 0 and leaves the file where it is; and
  -- starting a daemon after that exits with 1.
  pub stale_pidfile :
      (stop_line start_line : List (List ℕ)) (a b : AppArgs) (pid : ℕ)
      → parse_args stop_line ≡ running a
      → a.is_daemon ≡ false
      → a.start_opt ≡ stop_text
      → IsConfigured pt m os a fs conf path log
      → parse_args start_line ≡ running b
      → b.is_daemon ≡ true
      → b.start_opt ≡ start_text
      → IsConfigured pt m os b fs conf path log
      → file_exists fs path ≡ true
      → read_pid m.to_pid (record a { pidfile = path }) fs ≡ done pid
      → pid ≢ minus_one
      → m.probe pid ≡ no_process
      → (main pt m os polls ds srv sleeps stop_line fs ≡ exits 0 fs)
        × (main pt m os polls ds srv sleeps start_line fs ≡ exits 1 fs)
  stale_pidfile stop_line start_line a b pid la fa sa ra lb db sb rb there read some_pid dead = (
    stop_dead stop_line a pid la fa sa ra read some_pid dead,
    start_refused start_line b lb db sb rb there,
  )
