-- ===== src/App/Process.antt =====
-- How a part of the application (src/libs/app.cpp) ends, and the machine that it runs on.
use librtaio.Base.{ℕ, Bool, List, Outcome, done, aborted, thrown, fault}
use librtaio.App.Args.{Run, running, exited}
use librtaio.App.PidFile.{Files}

-- It goes on with a value, exits with a code, ends the process by an exception, is ended by a signal,
-- or still waits when the time that a run is followed is over; each with the files as they then are.
pub data Process {ℓ} (A : Type ℓ) : Type ℓ where
  goes : A → Files → Process A
  exits : ℕ → Files → Process A
  fails : Files → Process A
  dies : Files → Process A
  waits : Files → Process A

abbrev pub and_then {ℓ κ} :
    {A : Type ℓ} {B : Type κ} → Process A → (A → Files → Process B) → Process B
and_then (goes a fs) f = f a fs
and_then (exits code fs) f = exits code fs
and_then (fails fs) f = fails fs
and_then (dies fs) f = dies fs
and_then (waits fs) f = waits fs

-- A part that changes no files; `abort` and an array access outside are not met here.
abbrev pub from_run {ℓ} : {A : Type ℓ} → Files → Run A → Process A
from_run fs (running a) = goes a fs
from_run fs (exited code) = exits code fs

abbrev pub from_files : Files → Run Files → Process (Unit {0})
from_files fs (running fs') = goes tt fs'
from_files fs (exited code) = exits code fs

abbrev pub from_outcome {ℓ} : {A : Type ℓ} → Files → Outcome A → Process A
from_outcome fs (done a) = goes a fs
from_outcome fs aborted = fails fs
from_outcome fs thrown = fails fs
from_outcome fs fault = fails fs

-- What kill() answers: 0, or -1 with errno ESRCH or another one.
pub data KillAnswer : Type 0 where
  killed no_process not_allowed : KillAnswer

-- `to_pid` and `to_text` are boost::lexical_cast; `probe` and `terminate` are kill() with 0 and with
-- SIGTERM; `later n` are the files when a waiting loop looks at them after `n` sleeps.
pub record Machine : Type 0 where
  pub to_pid : List ℕ → Outcome ℕ
  pub to_text : ℕ → List ℕ
  pub writable : List ℕ → Bool
  pub removable : List ℕ → Bool
  pub pid : ℕ
  pub probe : ℕ → KillAnswer
  pub terminate : ℕ → KillAnswer
  pub later : ℕ → Files
