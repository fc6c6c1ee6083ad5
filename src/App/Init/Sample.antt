-- ===== src/App/Init/Sample.antt =====
-- A machine, a configuration and command lines for tests.
use librtaio.Base.{
  ℕ, refl, true, List, [], ◌∷◌, Option, none, some, done, thrown, if◌then◌else◌, Outcome, ltb,
}
use librtaio.App.Args.{AppArgs, app_args, Run, running, exited, text_eq, stop_text}
use librtaio.App.PidFile.{Files, regular, with_file}
use librtaio.App.Config.{IniConfig, ini_config, read_profile_string}
use librtaio.App.Config.Sample.{IniTree, leaf, node, trees}
use librtaio.App.Process.{killed, no_process, Machine}
use librtaio.App.Daemon.{Os, in_child, Descriptors}
use librtaio.App.Init.{application_text, pidfile_text}
use librtaio.App.Init.Life.{IsConfigured}

-- -d a, and a -s stop
abbrev pub daemon_line : List (List ℕ)
daemon_line = (45 ∷ 100 ∷ []) ∷ (97 ∷ []) ∷ []

abbrev pub daemon_args : AppArgs
daemon_args = record app_args { is_daemon = true; conf_file = 97 ∷ [] }

abbrev pub stop_line : List (List ℕ)
stop_line = (97 ∷ []) ∷ (45 ∷ 115 ∷ []) ∷ stop_text ∷ []

abbrev pub stop_args : AppArgs
stop_args = record app_args { start_opt = stop_text; conf_file = 97 ∷ [] }

-- The pid file is "p", the log configuration "l".
abbrev pub application : IniTree
application =
    node (λ key. true)
      (λ key. if text_eq key pidfile_text then leaf (112 ∷ []) else leaf (108 ∷ []))

abbrev pub settings : IniTree
settings = node (λ s. text_eq s application_text) (λ s. application)

abbrev pub conf : IniConfig IniTree
conf = record { ini_filename = 97 ∷ []; tree = settings }

abbrev pub before_start : Files
before_start path =
    if text_eq path (97 ∷ [])
    then some (regular (91 ∷ []))
    else if text_eq path (108 ∷ [])
    then some (regular [])
    else none

abbrev pub with_old_pid : Files
with_old_pid = with_file before_start (112 ∷ []) (some (regular (77 ∷ [])))

abbrev pub to_pid : List ℕ → Outcome ℕ
to_pid [] = thrown
to_pid (c ∷ cs) = done c

-- Process 77 is dead, any other one takes SIGTERM and removes its file within two sleeps.
abbrev pub machine : Machine
machine = record {
  to_pid = to_pid;
  to_text = λ pid. pid ∷ [];
  writable = λ path. true;
  removable = λ path. true;
  pid = 80;
  probe = λ pid. if ltb pid 78 then no_process else killed;
  terminate = λ pid. killed;
  later = λ n. if ltb n 2 then with_old_pid else before_start;
}

-- The lowest of three descriptors that is free.
abbrev pub lowest : List ℕ → Descriptors → Option ℕ
lowest path ds = elim (ds 0) [
  | none ↦ some 0
  | some p ↦ elim (ds 1) [ none ↦ some 1 | some q ↦ some 2 ]
]

abbrev pub os : Os
os = record {
  fork = in_child;
  setsid = true;
  chdir = λ dir. true;
  open_at = lowest;
  can_close = λ fd. true;
  can_dup = λ fd target. true;
}

abbrev pub terminal : Descriptors
terminal fd = some (116 ∷ [])

pub ready :
    IsConfigured (trees settings) machine os daemon_args before_start conf (112 ∷ []) (108 ∷ [])
unfolding ini_config read_profile_string
ready = record {
  conf_there = refl;
  read = refl;
  pidfile = refl;
  named = refl;
  logconf = refl;
  log_there = refl;
}

abbrev pub result_of : Run (ℕ × Descriptors) → ℕ × Descriptors
result_of (running r) = r
result_of (exited code) = (code, terminal)
