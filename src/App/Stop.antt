-- ===== src/App/Stop.antt =====
-- src/libs/app.cpp: kill_process, which stops the process that the pid file names.
use librtaio.Base.{
  ℕ, zero, suc, ◌+◌, ◌<◌, ◌≤◌, ◌≡◌, ◌≢◌, subst, ne→eq, refl, sym, ap, ◌∙◌, ◌⊎◌, inl, inr, true,
  false, ltb, List, ◌==◌, if◌then◌else◌, done, arith, Bool-cases,
}
use librtaio.Protocol.Field.{minus_one}
use librtaio.App.Args.{AppArgs}
use librtaio.App.PidFile.{Files, file_exists, read_pid, remove_pidfile}
use librtaio.App.Process.{
  Process, goes, exits, waits, and_then, from_outcome, KillAnswer, killed, no_process, not_allowed,
  Machine,
}

-- while(file_exists(pidfile)) usleep(...), from the `n`th test on, followed for `polls` more tests.
unfoldable pub wait_removed : Machine → ℕ → ℕ → List ℕ → Process (Unit {0})
wait_removed m zero n path = waits (m.later n)
wait_removed m (suc polls) n path = elim (file_exists (m.later n) path) [
  | true ↦ wait_removed m polls (n + 1) path
  | false ↦ goes tt (m.later n)
]

-- kill_process() after the second call of kill().
unfoldable pub await_end : Machine → ℕ → AppArgs → Files → KillAnswer → Process (Unit {0})
await_end m polls a fs killed = wait_removed m polls 0 a.pidfile
await_end m polls a fs no_process = exits 1 fs
await_end m polls a fs not_allowed = exits 1 fs

-- kill_process() after the first call of kill().
unfoldable pub terminate_process :
    Machine → ℕ → ℕ → AppArgs → Files → KillAnswer → Process (Unit {0})
terminate_process m polls pid a fs no_process = goes tt (remove_pidfile m.removable a fs)
terminate_process m polls pid a fs killed = await_end m polls a fs (m.terminate pid)
terminate_process m polls pid a fs not_allowed = await_end m polls a fs (m.terminate pid)

unfoldable pub kill_process : Machine → ℕ → AppArgs → Files → Process (Unit {0})
kill_process m polls a fs = and_then (from_outcome fs (read_pid m.to_pid a fs)) λ pid fs'.
    if pid == minus_one then exits 1 fs' else terminate_process m polls pid a fs' (m.probe pid)

KillAnswer-cases : (k : KillAnswer) → (k ≡ no_process) ⊎ ((k ≡ killed) ⊎ (k ≡ not_allowed))
KillAnswer-cases no_process = inl refl
KillAnswer-cases killed = inr (inl refl)
KillAnswer-cases not_allowed = inr (inr refl)

module _ (m : Machine) (path : List ℕ) where
  wait_goes :
      (polls n : ℕ)
      → file_exists (m.later n) path ≡ true
      → wait_removed m (suc polls) n path ≡ wait_removed m polls (n + 1) path
  unfolding wait_removed
  wait_goes polls n there = rw (there, wait_removed)

  wait_removed-ends :
      (polls n last : ℕ)
      → n ≤ last
      → last < n + polls
      → ((i : ℕ) → i < last → file_exists (m.later i) path ≡ true)
      → file_exists (m.later last) path ≡ false
      → wait_removed m polls n path ≡ goes tt (m.later last)
  unfolding wait_removed
  wait_removed-ends zero n last low high there gone = absurd (omega arith)
  wait_removed-ends (suc polls) n last low high there gone = elim (Bool-cases (n == last)) [
    | inl e ↦
        let same : n ≡ last = ground arith in
        subst (λ k. wait_removed m (suc polls) k path ≡ goes tt (m.later last)) (sym same)
          (rw (gone, wait_removed))
    | inr e ↦
        let other : n < last = ground arith in
        wait_goes polls n (there n other)
        ∙ wait_removed-ends polls (n + 1) last (omega arith) (omega arith) there gone
  ]

  wait_removed-waits :
      (polls n : ℕ)
      → ((i : ℕ) → i < n + polls → file_exists (m.later i) path ≡ true)
      → wait_removed m polls n path ≡ waits (m.later (n + polls))
  unfolding wait_removed
  wait_removed-waits zero n there = ap (λ k. waits (m.later k)) (omega arith)
  wait_removed-waits (suc polls) n there =
      wait_goes polls n (there n (omega arith))
      ∙ wait_removed-waits polls (n + 1) (λ i low. there i (omega arith))
      ∙ ap (λ k. waits (m.later k)) (omega arith)

module _ (m : Machine) (a : AppArgs) (fs : Files) where
  read_and_kill :
      (polls pid : ℕ)
      → read_pid m.to_pid a fs ≡ done pid
      → pid ≢ minus_one
      → kill_process m polls a fs ≡ terminate_process m polls pid a fs (m.probe pid)
  unfolding kill_process
  read_and_kill polls pid e ne = rw (e, ne→eq pid minus_one ne)

  sent_term :
      (polls pid : ℕ)
      → read_pid m.to_pid a fs ≡ done pid
      → pid ≢ minus_one
      → m.probe pid ≢ no_process
      → m.terminate pid ≡ killed
      → kill_process m polls a fs ≡ wait_removed m polls 0 a.pidfile
  unfolding terminate_process await_end
  sent_term polls pid e ne there term =
      read_and_kill polls pid e ne ∙ elim (KillAnswer-cases (m.probe pid)) [
        | inl dead ↦ absurd (there dead)
        | inr (inl ok) ↦
            ap (terminate_process m polls pid a fs) ok ∙ ap (await_end m polls a fs) term
        | inr (inr busy) ↦
            ap (terminate_process m polls pid a fs) busy ∙ ap (await_end m polls a fs) term
      ]

  -- A pid file names a process that runs and takes SIGTERM, and the file is first seen to be gone
  -- at some test of the loop. kill_process, followed for any number of tests, returns at that test
  -- if the number is greater, and still waits if it is not.
  pub kill_process-ends :
      (pid last polls : ℕ)
      → read_pid m.to_pid a fs ≡ done pid
      → pid ≢ minus_one
      → m.probe pid ≢ no_process
      → m.terminate pid ≡ killed
      → ((i : ℕ) → i < last → file_exists (m.later i) a.pidfile ≡ true)
      → file_exists (m.later last) a.pidfile ≡ false
      → kill_process m polls a fs
        ≡ (if ltb last polls then goes tt (m.later last) else waits (m.later polls))
  kill_process-ends pid last polls e ne there term before gone =
      sent_term polls pid e ne there term ∙ elim (Bool-cases (ltb last polls)) [
        | inl enough ↦
            let more : last < polls = ground arith in
            rw enough
              (wait_removed-ends m a.pidfile polls 0 last (omega arith) (omega arith) before gone)
        | inr few ↦
            let less : polls ≤ last = ground arith in
            rw few (
              wait_removed-waits m a.pidfile polls 0 (λ i low. before i (omega arith))
              ∙ ap (λ k. waits (m.later k)) (omega arith))
      ]

  -- The process that the pid file names does not run: its file is removed.
  pub kill_process-dead :
      (pid polls : ℕ)
      → read_pid m.to_pid a fs ≡ done pid
      → pid ≢ minus_one
      → m.probe pid ≡ no_process
      → kill_process m polls a fs ≡ goes tt (remove_pidfile m.removable a fs)
  unfolding terminate_process
  kill_process-dead pid polls e ne dead =
      read_and_kill polls pid e ne ∙ ap (terminate_process m polls pid a fs) dead
