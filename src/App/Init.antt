-- ===== src/App/Init.antt =====
-- src/libs/app.cpp: init and main; src/main.cpp: MyApp::run. The answers of the machine, of the
-- operating system and of boost::property_tree are parameters.
pub mod Life
pub mod Refused
pub mod Stopping
pub mod Sample
mod Tests
use librtaio.Base.{
  ℕ, Bool, true, false, List, [], ◌∷◌, Option, none, some, not, if◌then◌else◌, Outcome,
}
use librtaio.App.Args.{AppArgs, Run, text_eq, stop_text, restart_text, parse_args}
use librtaio.App.PidFile.{Files, is_file, file_exists, check_pidfile, write_pid, remove_pidfile}
use librtaio.App.Signals.{
  Signal, Flags, start_flags, deliver, Loop, goes_on, left, ended_in, run_loop,
}
use librtaio.App.Config.{PropertyTree, IniConfig, ini_config, read_profile_string}
use librtaio.App.Process.{
  Process, goes, exits, fails, dies, waits, and_then, from_run, from_files, from_outcome, Machine,
}
use librtaio.App.Stop.{kill_process}
use librtaio.App.Daemon.{Os, Descriptors, daemonize}

-- The section "Application" and its keys "pidfile" and "logconf".
abbrev pub application_text : List ℕ
application_text = 65 ∷ 112 ∷ 112 ∷ 108 ∷ 105 ∷ 99 ∷ 97 ∷ 116 ∷ 105 ∷ 111 ∷ 110 ∷ []

abbrev pub pidfile_text : List ℕ
pidfile_text = 112 ∷ 105 ∷ 100 ∷ 102 ∷ 105 ∷ 108 ∷ 101 ∷ []

abbrev pub logconf_text : List ℕ
logconf_text = 108 ∷ 111 ∷ 103 ∷ 99 ∷ 111 ∷ 110 ∷ 102 ∷ []

-- network_server in its thread: its port cannot be opened, which is done when network_server is made
-- and throws; or it runs, and these signals come while it is joined, after stop(). A handler of a
-- session that fails an assert in that thread is SIGABRT among the signals, there and in the sleeps.
pub data ServerThread : Type 0 where
  no_port : ServerThread
  runs : List Signal → ServerThread

-- t.join() returns when the handler that runs is over, or at once if run() had returned.
abbrev pub joined : Files → Option Flags → Process (Unit {0})
joined fs none = dies fs
joined fs (some f) = goes tt fs

-- How the loop that waits for a signal stands, and what follows it.
abbrev pub waited : Files → List Signal → Loop → Process (Unit {0})
waited fs late goes_on = waits fs
waited fs late (left n f) = joined fs (deliver late f)
waited fs late (ended_in n) = dies fs

-- MyApp::run.
unfoldable pub run : ServerThread → List (List Signal) → Files → Process (Unit {0})
run no_port sleeps fs = fails fs
run (runs late) sleeps fs = waited fs late (run_loop sleeps 0 start_flags)

-- Application::main after init().
unfoldable pub serve : Machine → ServerThread → List (List Signal) → AppArgs → Files → Process ℕ
serve m srv sleeps a fs =
    and_then (from_files fs (write_pid m.to_text m.writable m.pid a fs))
      λ _ fs'. and_then (run srv sleeps fs') λ _ fs''. goes 0 (remove_pidfile m.removable a fs'')

module _ {Tree : Type 0} (pt : PropertyTree Tree) (m : Machine) (os : Os) where
  -- daemonize() for a daemon; its result is not looked at.
  unfoldable pub go_daemon : Descriptors → AppArgs → Files → Process AppArgs
  go_daemon ds a fs =
      if a.is_daemon
      then and_then (from_run fs (daemonize os none ds)) (λ r fs'. goes a fs')
      else goes a fs

  -- init() from the check of the pid file on.
  unfoldable pub init_start : IniConfig Tree → Descriptors → AppArgs → Files → Process AppArgs
  init_start conf ds a fs = and_then (from_files fs (check_pidfile a fs)) λ _ fs'.
      and_then (from_outcome fs' (read_profile_string pt application_text logconf_text [] conf))
        λ logconf fs''. if not (is_file fs'' logconf) then exits 1 fs'' else go_daemon ds a fs''

  -- init() from the start option on, after the pid file's name is known.
  unfoldable pub init_option : ℕ → IniConfig Tree → Descriptors → AppArgs → Files → Process AppArgs
  init_option polls conf ds a fs =
      if text_eq a.start_opt stop_text
      then and_then (kill_process m polls a fs) (λ _ fs'. exits 0 fs')
      else if text_eq a.start_opt restart_text
      then (if file_exists fs a.pidfile
          then and_then (kill_process m polls a fs) (λ _ fs'. init_start conf ds a fs')
          else init_start conf ds a fs)
      else init_start conf ds a fs

  unfoldable pub init : ℕ → Descriptors → AppArgs → Files → Process AppArgs
  init polls ds a fs =
      if not (is_file fs a.conf_file)
      then exits 1 fs
      else and_then (from_outcome fs (ini_config pt fs a.conf_file)) λ conf fs'.
        and_then (from_outcome fs' (read_profile_string pt application_text pidfile_text [] conf))
          λ pidfile fs''. init_option polls conf ds (record a { pidfile = pidfile }) fs''

  -- Application::main on the words after the program's name; the result is the exit code.
  unfoldable pub main :
      ℕ → Descriptors → ServerThread → List (List Signal) → List (List ℕ) → Files → Process ℕ
  main polls ds srv sleeps argv fs =
      and_then (from_run fs (parse_args argv))
        λ a fs'. and_then (init polls ds a fs') λ a' fs''. serve m srv sleeps a' fs''
