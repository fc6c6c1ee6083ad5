-- ===== src/App/Daemon/Calls.antt =====
-- The calls that daemonize (src/libs/daemon.h) makes, one by one: how each may end.
use librtaio.Base.{
  ℕ, ◌≡◌, refl, ◌≢◌, inl, inr, Bool, true, false, List, Option, none, some, ◌==◌, ==_refl, subst,
  ◌&&◌, Bool-cases,
}
use librtaio.App.Args.{Run, running, exited}
use librtaio.App.Daemon.{
  Os, Descriptors, null_device, with_descriptor, run_then, or_exit, is_open, close_descriptor,
  dup_descriptor, opened, change_dir, null_descriptors, daemon_child,
}

running-inj {ℓ} : {A : Type ℓ} {a b : A} → running a ≡ running b → a ≡ b
running-inj e = cc

pub exited≢running {ℓ} : {A : Type ℓ} {code : ℕ} {a : A} → exited code ≢ running a
exited≢running e = cc

pub run_then-running {ℓ κ} :
    {A : Type ℓ} {B : Type κ} (m : Run A) (f : A → Run B) {b : B}
    → run_then m f ≡ running b
    → (a : A) × (m ≡ running a) × (f a ≡ running b)
run_then-running (running a) f e = (a, refl, e)
run_then-running (exited code) f e = cc

-- A part that, where it ends the process, ends it with 0.
pub data IsQuiet {ℓ} {A : Type ℓ} : Run A → Type ℓ where
  quiet : (a : A) → IsQuiet (running a)
  ends : IsQuiet (exited 0)

pub exited_zero {ℓ} : {A : Type ℓ} (code : ℕ) → IsQuiet {A = A} (exited code) → code ≡ 0
exited_zero _ ends = refl

pub or_exit-running {ℓ} : {A : Type ℓ} (ok : Bool) (a b : A) → or_exit ok a ≡ running b → a ≡ b
or_exit-running true a b e = running-inj e
or_exit-running false a b e = cc

pub or_exit-true {ℓ} :
    {A : Type ℓ} (ok : Bool) (a : A) {b : A} → or_exit ok a ≡ running b → ok ≡ true
or_exit-true true a e = refl
or_exit-true false a e = cc

pub and-parts : (a b : Bool) → (a && b) ≡ true → (a ≡ true) × (b ≡ true)
and-parts true b e = (refl, e)
and-parts false b e = cc

pub opened-some :
    (o : Option ℕ) (ds : Descriptors) {r : ℕ × Descriptors}
    → opened o ds ≡ running r
    → (fd : ℕ) × (o ≡ some fd) × ((fd, with_descriptor fd (some null_device) ds) ≡ r)
opened-some none ds e = cc
opened-some (some fd) ds e = (fd, refl, running-inj e)

or_exit-IsQuiet {ℓ} : {A : Type ℓ} (ok : Bool) (a : A) → IsQuiet (or_exit ok a)
or_exit-IsQuiet true a = quiet a
or_exit-IsQuiet false a = ends

run_then-IsQuiet {ℓ κ} :
    {A : Type ℓ} {B : Type κ} (m : Run A) (f : A → Run B)
    → IsQuiet m
    → ((a : A) → IsQuiet (f a))
    → IsQuiet (run_then m f)
run_then-IsQuiet (running a) f (quiet _) rest = rest a
run_then-IsQuiet (exited _) f ends rest = ends

opened-IsQuiet : (o : Option ℕ) (ds : Descriptors) → IsQuiet (opened o ds)
opened-IsQuiet none ds = ends
opened-IsQuiet (some fd) ds = quiet _

unfoldable pub IsNull : Descriptors → ℕ → Type 0
IsNull ds n = ds n ≡ some null_device

pub opened_lem :
    (o : Option ℕ) (ds : Descriptors) (r : ℕ × Descriptors)
    → opened o ds ≡ running r
    → IsNull r.1 r.0
unfolding IsNull
opened_lem none ds r e = cc
opened_lem (some fd) ds r e = subst (λ r. IsNull r.1 r.0) (running-inj e) (rw (==_refl fd))

module _ (os : Os) where
  -- dup2() of a descriptor of the null device makes another one of it, and loses none.
  pub dup_lem :
      (fd target : ℕ) (ds ds' : Descriptors)
      → IsNull ds fd
      → dup_descriptor os fd target ds ≡ running ds'
      → IsNull ds' target × ((n : ℕ) → IsNull ds n → IsNull ds' n)
  unfolding dup_descriptor IsNull
  dup_lem fd target ds ds' null e =
      let same : with_descriptor target (ds fd) ds ≡ ds' =
        or_exit-running (is_open (ds fd) && os.can_dup fd target)
          (with_descriptor target (ds fd) ds) ds' e in
      subst (λ d. IsNull d target × ((n : ℕ) → IsNull ds n → IsNull d n)) same
        (
          rw (==_refl target) null,
          λ n old. elim (Bool-cases (n == target)) [ inl at ↦ rw at null | inr off ↦ rw off old ],
        )

  nulls :
      (fd : ℕ) (ds : Descriptors) (r : ℕ × Descriptors)
      → IsNull ds fd
      → null_descriptors os fd ds ≡ running r
      → (r.0 ≡ 0) × IsNull r.1 0 × IsNull r.1 1 × IsNull r.1 2
  unfolding null_descriptors
  nulls fd ds r null e =
      let (ds1, e1, rest1) =
        run_then-running (dup_descriptor os fd 0 ds)
          (λ ds1.
            run_then (dup_descriptor os fd 1 ds1)
              λ ds2. run_then (dup_descriptor os fd 2 ds2) λ ds3. running (0, ds3))
          e in
      let (ds2, e2, rest2) =
        run_then-running (dup_descriptor os fd 1 ds1)
          (λ ds2. run_then (dup_descriptor os fd 2 ds2) λ ds3. running (0, ds3)) rest1 in
      let (ds3, e3, rest3) =
        run_then-running (dup_descriptor os fd 2 ds2) (λ ds3. running (0, ds3)) rest2 in
      let d1 = dup_lem fd 0 ds ds1 null e1 in
      let d2 = dup_lem fd 1 ds1 ds2 (d1.1 fd null) e2 in
      let d3 = dup_lem fd 2 ds2 ds3 (d2.1 fd (d1.1 fd null)) e3 in
      subst (λ r. (r.0 ≡ 0) × IsNull r.1 0 × IsNull r.1 1 × IsNull r.1 2) (running-inj rest3)
        (refl, d3.1 0 (d2.1 0 d1.0), d3.1 1 d2.0, d3.0)

  close-IsQuiet : (fd : ℕ) (ds : Descriptors) → IsQuiet (close_descriptor os fd ds)
  unfolding close_descriptor
  close-IsQuiet fd ds = or_exit-IsQuiet (is_open (ds fd) && os.can_close fd) _

  dup-IsQuiet : (fd target : ℕ) (ds : Descriptors) → IsQuiet (dup_descriptor os fd target ds)
  unfolding dup_descriptor
  dup-IsQuiet fd target ds = or_exit-IsQuiet (is_open (ds fd) && os.can_dup fd target) _

  nulls-IsQuiet : (fd : ℕ) (ds : Descriptors) → IsQuiet (null_descriptors os fd ds)
  unfolding null_descriptors
  nulls-IsQuiet fd ds = run_then-IsQuiet (dup_descriptor os fd 0 ds) _ (dup-IsQuiet fd 0 ds) λ ds1.
      run_then-IsQuiet (dup_descriptor os fd 1 ds1) _ (dup-IsQuiet fd 1 ds1) λ ds2.
        run_then-IsQuiet (dup_descriptor os fd 2 ds2) _ (dup-IsQuiet fd 2 ds2) λ ds3. quiet (0, ds3)

  pub child-IsQuiet : (dir : Option (List ℕ)) (ds : Descriptors) → IsQuiet (daemon_child os dir ds)
  unfolding daemon_child
  child-IsQuiet dir ds =
      run_then-IsQuiet (or_exit os.setsid ds) _ (or_exit-IsQuiet os.setsid ds) λ ds0.
        run_then-IsQuiet (or_exit (change_dir os dir) ds0) _
          (or_exit-IsQuiet (change_dir os dir) ds0)
          λ ds1. run_then-IsQuiet (close_descriptor os 0 ds1) _ (close-IsQuiet 0 ds1) λ ds2.
            run_then-IsQuiet (close_descriptor os 1 ds2) _ (close-IsQuiet 1 ds2) λ ds3.
              run_then-IsQuiet (close_descriptor os 2 ds3) _ (close-IsQuiet 2 ds3) λ ds4.
                run_then-IsQuiet (opened (os.open_at null_device ds4) ds4) _
                  (opened-IsQuiet (os.open_at null_device ds4) ds4) λ r. nulls-IsQuiet r.0 r.1

  pub child_lem :
      (dir : Option (List ℕ)) (ds : Descriptors) (r : ℕ × Descriptors)
      → daemon_child os dir ds ≡ running r
      → (r.0 ≡ 0) × IsNull r.1 0 × IsNull r.1 1 × IsNull r.1 2
  unfolding daemon_child IsNull
  child_lem dir ds r e =
      let (ds0, e0, rest0) = run_then-running (or_exit os.setsid ds) _ e in
      let (ds1, e1, rest1) = run_then-running (or_exit (change_dir os dir) ds0) _ rest0 in
      let (ds2, e2, rest2) = run_then-running (close_descriptor os 0 ds1) _ rest1 in
      let (ds3, e3, rest3) = run_then-running (close_descriptor os 1 ds2) _ rest2 in
      let (ds4, e4, rest4) = run_then-running (close_descriptor os 2 ds3) _ rest3 in
      let (p, e5, rest5) = run_then-running (opened (os.open_at null_device ds4) ds4) _ rest4 in
      nulls p.0 p.1 r (opened_lem (os.open_at null_device ds4) ds4 p e5) rest5
