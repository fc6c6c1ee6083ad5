-- ===== src/App/PidFile.antt =====
-- src/libs/app.cpp and file.h: the pid file. The file system maps a path to what lies there, and
-- every file that is there can be read; `writable` says which paths fopen opens for writing,
-- `removable` which ones remove() deletes, and the two casts are boost::lexical_cast.
use librtaio.Base.{
  ℕ, ◌≡◌, refl, ap, Bool, true, false, List, [], ◌∷◌, Option, none, some, not, ==_refl,
  if◌then◌else◌, Outcome, done,
}
use librtaio.Protocol.Field.{minus_one}
use librtaio.App.Args.{AppArgs, Run, running, exited, text_eq, is_empty}

-- A regular file and another file with the bytes that reading gives, or a directory.
pub data Node : Type 0 where
  regular special : List ℕ → Node
  directory : Node

abbrev pub Files : Type 0
Files = List ℕ → Option Node

abbrev pub is_there : Option Node → Bool
is_there none = false
is_there (some node) = true

-- fopen opens a directory for reading, and the first fread fails.
abbrev pub contents_of : Option Node → List ℕ
contents_of none = []
contents_of (some (regular s)) = s
contents_of (some (special s)) = s
contents_of (some directory) = []

abbrev pub is_directory : Option Node → Bool
is_directory (some directory) = true
is_directory (some (regular s)) = false
is_directory (some (special s)) = false
is_directory none = false

abbrev pub is_regular : Option Node → Bool
is_regular (some (regular s)) = true
is_regular (some (special s)) = false
is_regular (some directory) = false
is_regular none = false

abbrev pub file_exists : Files → List ℕ → Bool
file_exists fs path = is_there (fs path)

abbrev pub is_dir : Files → List ℕ → Bool
is_dir fs path = is_directory (fs path)

abbrev pub is_file : Files → List ℕ → Bool
is_file fs path = is_regular (fs path)

-- file_get_contents into an empty string, which a file that cannot be opened leaves empty.
abbrev pub file_get_contents : Files → List ℕ → List ℕ
file_get_contents fs path = contents_of (fs path)

abbrev pub with_file : Files → List ℕ → Option Node → Files
with_file fs path contents p = if text_eq p path then contents else fs p

-- What lies at a path after fopen for writing and fwrite.
abbrev pub written : Option Node → List ℕ → Node
written (some (special s)) bytes = special s
written (some (regular s)) bytes = regular bytes
written (some directory) bytes = directory
written none bytes = regular bytes

-- `none` is the result -1.
unfoldable pub file_put_contents : (List ℕ → Bool) → Files → List ℕ → List ℕ → Option Files
file_put_contents writable fs path s =
    if writable path then some (with_file fs path (some (written (fs path) s))) else none

unfoldable pub read_pid : (List ℕ → Outcome ℕ) → AppArgs → Files → Outcome ℕ
read_pid to_pid a fs =
    if is_empty a.pidfile
    then done minus_one
    else (let s = file_get_contents fs a.pidfile in if is_empty s then done minus_one else to_pid s)

unfoldable pub write_pid : (ℕ → List ℕ) → (List ℕ → Bool) → ℕ → AppArgs → Files → Run Files
unfolding file_put_contents
write_pid to_text writable pid a fs =
    if not a.is_daemon
    then running fs
    else if is_empty a.pidfile
    then running fs
    else elim (file_put_contents writable fs a.pidfile (to_text pid)) [
      | none ↦ exited 1
      | some fs' ↦ running fs'
    ]

unfoldable pub check_pidfile : AppArgs → Files → Run Files
check_pidfile a fs =
    if not a.is_daemon
    then running fs
    else if is_empty a.pidfile
    then running fs
    else if file_exists fs a.pidfile
    then exited 1
    else running fs

unfoldable pub remove_pidfile : (List ℕ → Bool) → AppArgs → Files → Files
remove_pidfile removable a fs =
    if not a.is_daemon
    then fs
    else if is_empty a.pidfile
    then fs
    else if removable a.pidfile
    then with_file fs a.pidfile none
    else fs

pub text_eq_refl : (s : List ℕ) → text_eq s s ≡ true
text_eq_refl [] = refl
text_eq_refl (c ∷ s) = rw (==_refl c, text_eq_refl s)

pub with_file-same : (fs : Files) (path : List ℕ) (o : Option Node) → with_file fs path o path ≡ o
with_file-same fs path o = rw (text_eq_refl path)

pub contents_lem :
    (fs : Files) (path s : List ℕ)
    → file_get_contents (with_file fs path (some (regular s))) path ≡ s
contents_lem fs path s = ap contents_of (with_file-same fs path (some (regular s)))

pub exists_lem :
    (fs : Files) (path : List ℕ) (o : Option Node)
    → file_exists (with_file fs path o) path ≡ is_there o
exists_lem fs path o = ap is_there (with_file-same fs path o)

-- What lies at a path can be written as a file.
abbrev pub IsFree : Option Node → Type 0
IsFree none = Unit
IsFree (some (regular s)) = Unit
IsFree (some (special s)) = ⊥
IsFree (some directory) = ⊥

pub written-IsFree : (o : Option Node) (s : List ℕ) → IsFree o → written o s ≡ regular s
written-IsFree none s free = refl
written-IsFree (some (regular t)) s free = refl
written-IsFree (some (special t)) s free = absurd free
written-IsFree (some directory) s free = absurd free

module _ (to_pid : List ℕ → Outcome ℕ) (to_text : ℕ → List ℕ)
    (writable removable : List ℕ → Bool) where
  -- A daemon with a pid file that can be written, where lexical_cast gives a nonempty text for the
  -- process's id and the id back from it: write_pid leaves a file that read_pid reads the id from,
  -- check_pidfile exits with 1 while it is there, and passes after remove_pidfile.
  pid_file_life :
      (pid : ℕ) (a : AppArgs) (fs : Files)
      → a.is_daemon ≡ true
      → is_empty a.pidfile ≡ false
      → IsFree (fs a.pidfile)
      → writable a.pidfile ≡ true
      → removable a.pidfile ≡ true
      → is_empty (to_text pid) ≡ false
      → to_pid (to_text pid) ≡ done pid
      → (fs' : Files) × (write_pid to_text writable pid a fs ≡ running fs')
        × (read_pid to_pid a fs' ≡ done pid)
        × (check_pidfile a fs' ≡ exited 1)
        × (check_pidfile a (remove_pidfile removable a fs')
            ≡ running (remove_pidfile removable a fs'))
  unfolding write_pid read_pid check_pidfile remove_pidfile file_put_contents
  pid_file_life pid a fs daemon path free opens goes some_text back = (
    with_file fs a.pidfile (some (regular (to_text pid))),
    rw (daemon, path, opens, written-IsFree (fs a.pidfile) (to_text pid) free),
    rw (path, contents_lem fs a.pidfile (to_text pid), some_text) back,
    rw (daemon, path, exists_lem fs a.pidfile (some (regular (to_text pid)))),
    rw (
      daemon,
      path,
      goes,
      exists_lem (with_file fs a.pidfile (some (regular (to_text pid)))) a.pidfile none,
    ),
  )
