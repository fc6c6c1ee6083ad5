-- ===== src/App/Daemon.antt =====
-- src/libs/daemon.h: daemonize. What the operating system answers is a parameter.
pub mod Calls
pub mod Ends
use librtaio.Base.{
  ℕ, ◌≡◌, refl, sym, inl, inr, Bool, true, false, List, [], ◌∷◌, Option, none, some, ◌==◌, ==_refl,
  subst, ◌&&◌, Bool-cases, if◌then◌else◌,
}
use librtaio.Protocol.Field.{minus_one}
use librtaio.App.Args.{Run, running, exited}

-- What fork() returns: -1, 0 in the child, the child's id in the parent.
pub data Fork : Type 0 where
  no_fork in_child : Fork
  in_parent : ℕ → Fork

-- The descriptors that are open, with the paths of their files.
abbrev pub Descriptors : Type 0
Descriptors = ℕ → Option (List ℕ)

-- `open_at` is the descriptor that open() would give, `can_close` and `can_dup` say whether close()
-- and dup2() of an open descriptor succeed.
pub record Os : Type 0 where
  pub fork : Fork
  pub setsid : Bool
  pub chdir : List ℕ → Bool
  pub open_at : List ℕ → Descriptors → Option ℕ
  pub can_close : ℕ → Bool
  pub can_dup : ℕ → ℕ → Bool

abbrev pub null_device : List ℕ
null_device = 47 ∷ 100 ∷ 101 ∷ 118 ∷ 47 ∷ 110 ∷ 117 ∷ 108 ∷ 108 ∷ []

abbrev pub with_descriptor : ℕ → Option (List ℕ) → Descriptors → Descriptors
with_descriptor fd file ds n = if n == fd then file else ds n

-- A part that goes on, followed by the next one.
abbrev pub run_then {ℓ κ} : {A : Type ℓ} {B : Type κ} → Run A → (A → Run B) → Run B
run_then (running a) f = f a
run_then (exited code) f = exited code

-- A call that ends the process if it fails.
abbrev pub or_exit {ℓ} : {A : Type ℓ} → Bool → A → Run A
or_exit true a = running a
or_exit false a = exited 0

abbrev pub is_open : Option (List ℕ) → Bool
is_open none = false
is_open (some path) = true

unfoldable pub close_descriptor : Os → ℕ → Descriptors → Run Descriptors
close_descriptor os fd ds =
    or_exit (is_open (ds fd) && os.can_close fd) (with_descriptor fd none ds)

unfoldable pub dup_descriptor : Os → ℕ → ℕ → Descriptors → Run Descriptors
dup_descriptor os fd target ds =
    or_exit (is_open (ds fd) && os.can_dup fd target) (with_descriptor target (ds fd) ds)

abbrev pub opened : Option ℕ → Descriptors → Run (ℕ × Descriptors)
opened none ds = exited 0
opened (some fd) ds = running (fd, with_descriptor fd (some null_device) ds)

-- `dir` is the null pointer where there is none.
abbrev pub change_dir : Os → Option (List ℕ) → Bool
change_dir os none = true
change_dir os (some dir) = os.chdir dir

unfoldable pub null_descriptors : Os → ℕ → Descriptors → Run (ℕ × Descriptors)
null_descriptors os fd ds = run_then (dup_descriptor os fd 0 ds) λ ds1.
    run_then (dup_descriptor os fd 1 ds1)
      λ ds2. run_then (dup_descriptor os fd 2 ds2) λ ds3. running (0, ds3)

-- What follows fork() in the child.
unfoldable pub daemon_child : Os → Option (List ℕ) → Descriptors → Run (ℕ × Descriptors)
daemon_child os dir ds = run_then (or_exit os.setsid ds) λ ds0.
    run_then (or_exit (change_dir os dir) ds0) λ ds1. run_then (close_descriptor os 0 ds1) λ ds2.
      run_then (close_descriptor os 1 ds2) λ ds3.
        run_then (close_descriptor os 2 ds3)
          λ ds4. run_then (opened (os.open_at null_device ds4) ds4) λ r. null_descriptors os r.0 r.1

abbrev pub after_fork : Os → Option (List ℕ) → Descriptors → Fork → Run (ℕ × Descriptors)
after_fork os dir ds no_fork = running (minus_one, ds)
after_fork os dir ds in_child = daemon_child os dir ds
after_fork os dir ds (in_parent child) = exited 0

-- The result, and the descriptors of the process that goes on.
unfoldable pub daemonize : Os → Option (List ℕ) → Descriptors → Run (ℕ × Descriptors)
daemonize os dir ds = after_fork os dir ds os.fork
