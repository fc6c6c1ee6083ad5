-- ===== src/App/Signals.antt =====
-- src/libs/app.cpp: signal_handler; src/main.cpp: the loop of MyApp::run that waits for a signal.
use librtaio.Base.{
  if◌then◌else◌, ℕ, ◌+◌, ◌%◌, ◌^◌, ◌≡◌, refl, sym, ◌∙◌, ap, Bool, true, false, List, [], ◌∷◌, ◌++◌,
  Option, none, some, arith, append-nil, length,
}

-- The signals that the process handles (`signal(...)` in init), and the others, by number: those that
-- are ignored where nothing is set, like SIGCHLD, and those that end the process, like SIGHUP, SIGKILL
-- and SIGABRT, which a failed assert in any thread raises.
pub data Signal : Type 0 where
  sigterm sigint sigalrm : Signal
  ignored_signal deadly_signal : ℕ → Signal

-- g_quit and g_ticks, an unsigned int.
pub record Flags : Type 0 where
  pub quit : Bool
  pub ticks : ℕ

abbrev pub start_flags : Flags
start_flags = record { quit = false; ticks = 0 }

unfoldable pub signal_handler : Signal → Flags → Flags
signal_handler sigterm f = record f { quit = true }
signal_handler sigint f = record f { quit = true }
signal_handler sigalrm f = record f { ticks = (f.ticks + 1) % 2 ^ 32 }
signal_handler (ignored_signal sig) f = f
signal_handler (deadly_signal sig) f = f

-- The signals that come, one after another; `none` when one has ended the process.
unfoldable pub deliver : List Signal → Flags → Option Flags
deliver [] f = some f
deliver (sigterm ∷ sigs) f = deliver sigs (signal_handler sigterm f)
deliver (sigint ∷ sigs) f = deliver sigs (signal_handler sigint f)
deliver (sigalrm ∷ sigs) f = deliver sigs (signal_handler sigalrm f)
deliver (ignored_signal sig ∷ sigs) f = deliver sigs f
deliver (deadly_signal sig ∷ sigs) f = none

-- The loop has not ended after the sleeps that are followed; it is left, after a number of sleeps; or
-- the process was ended in a sleep.
pub data Loop : Type 0 where
  goes_on : Loop
  left : ℕ → Flags → Loop
  ended_in : ℕ → Loop

-- while(!g_quit) sleep(10), where each sleep ends after the signals given.
unfoldable pub run_loop : List (List Signal) → ℕ → Flags → Loop
run_loop [] n f = elim f.quit [ true ↦ left n f | false ↦ goes_on ]
run_loop (sigs ∷ sleeps) n f = elim f.quit [
  | true ↦ left n f
  | false ↦ elim (deliver sigs f) [ none ↦ ended_in n | some f' ↦ run_loop sleeps (n + 1) f' ]
]

-- The flags when all these signals went to the handler.
unfoldable pub flags_after : List Signal → Flags → Flags
flags_after [] f = f
flags_after (sig ∷ sigs) f = flags_after sigs (signal_handler sig f)

abbrev pub is_deadly : List Signal → Bool
is_deadly [] = false
is_deadly (sigterm ∷ sigs) = is_deadly sigs
is_deadly (sigint ∷ sigs) = is_deadly sigs
is_deadly (sigalrm ∷ sigs) = is_deadly sigs
is_deadly (ignored_signal sig ∷ sigs) = is_deadly sigs
is_deadly (deadly_signal sig ∷ sigs) = true

-- Signals end the process exactly if a deadly one is among them; if not, all have been handled.
pub deliver_lem :
    (sigs : List Signal) (f : Flags)
    → deliver sigs f ≡ (if is_deadly sigs then none else some (flags_after sigs f))
unfolding deliver flags_after signal_handler
deliver_lem [] f = refl
deliver_lem (sigterm ∷ sigs) f = deliver_lem sigs (record f { quit = true })
deliver_lem (sigint ∷ sigs) f = deliver_lem sigs (record f { quit = true })
deliver_lem (sigalrm ∷ sigs) f = deliver_lem sigs (record f { ticks = (f.ticks + 1) % 2 ^ 32 })
deliver_lem (ignored_signal sig ∷ sigs) f = deliver_lem sigs f
deliver_lem (deadly_signal sig ∷ sigs) f = refl

-- Whether a signal asks the process to end.
abbrev pub asks_to_quit : List Signal → Bool
asks_to_quit [] = false
asks_to_quit (sigterm ∷ sigs) = true
asks_to_quit (sigint ∷ sigs) = true
asks_to_quit (sigalrm ∷ sigs) = asks_to_quit sigs
asks_to_quit (ignored_signal sig ∷ sigs) = asks_to_quit sigs
asks_to_quit (deadly_signal sig ∷ sigs) = asks_to_quit sigs

flags_quit : (sigs : List Signal) (f : Flags) → f.quit ≡ true → (flags_after sigs f).quit ≡ true
unfolding flags_after signal_handler
flags_quit [] f e = e
flags_quit (sigterm ∷ sigs) f e = flags_quit sigs (record f { quit = true }) refl
flags_quit (sigint ∷ sigs) f e = flags_quit sigs (record f { quit = true }) refl
flags_quit (sigalrm ∷ sigs) f e = flags_quit sigs (record f { ticks = (f.ticks + 1) % 2 ^ 32 }) e
flags_quit (ignored_signal sig ∷ sigs) f e = flags_quit sigs f e
flags_quit (deadly_signal sig ∷ sigs) f e = flags_quit sigs f e

pub flags_asks :
    (sigs : List Signal) (f : Flags)
    → f.quit ≡ false
    → (flags_after sigs f).quit ≡ asks_to_quit sigs
unfolding flags_after signal_handler
flags_asks [] f e = e
flags_asks (sigterm ∷ sigs) f e = flags_quit sigs (record f { quit = true }) refl
flags_asks (sigint ∷ sigs) f e = flags_quit sigs (record f { quit = true }) refl
flags_asks (sigalrm ∷ sigs) f e = flags_asks sigs (record f { ticks = (f.ticks + 1) % 2 ^ 32 }) e
flags_asks (ignored_signal sig ∷ sigs) f e = flags_asks sigs f e
flags_asks (deadly_signal sig ∷ sigs) f e = flags_asks sigs f e

-- No signal in these sleeps asks to quit or ends the process.
abbrev pub Calm : List (List Signal) → Type 0
Calm [] = Unit
Calm (sigs ∷ sleeps) = ((asks_to_quit sigs ≡ false) × (is_deadly sigs ≡ false)) × Calm sleeps

abbrev pub flags_all : List (List Signal) → Flags → Flags
flags_all [] f = f
flags_all (sigs ∷ sleeps) f = flags_all sleeps (flags_after sigs f)

Calm-flags_all :
    (sleeps : List (List Signal)) (f : Flags)
    → Calm sleeps
    → f.quit ≡ false
    → (flags_all sleeps f).quit ≡ false
Calm-flags_all [] f calm e = e
Calm-flags_all (sigs ∷ sleeps) f ((quiet, alive), calm) e =
    Calm-flags_all sleeps (flags_after sigs f) calm (flags_asks sigs f e ∙ quiet)

loop_ends :
    (sleeps : List (List Signal)) (n : ℕ) (f : Flags)
    → f.quit ≡ true
    → run_loop sleeps n f ≡ left n f
unfolding run_loop
loop_ends [] n f e = simp (e, run_loop)
loop_ends (sigs ∷ sleeps) n f e = simp (e, run_loop)

deliver_alive :
    (sigs : List Signal) (f : Flags)
    → is_deadly sigs ≡ false
    → deliver sigs f ≡ some (flags_after sigs f)
deliver_alive sigs f alive = rw (deliver_lem sigs f, alive)

loop_goes :
    (sigs : List Signal) (sleeps : List (List Signal)) (n : ℕ) (f : Flags)
    → f.quit ≡ false
    → is_deadly sigs ≡ false
    → run_loop (sigs ∷ sleeps) n f ≡ run_loop sleeps (n + 1) (flags_after sigs f)
unfolding run_loop
loop_goes sigs sleeps n f e alive = simp (e, deliver_alive sigs f alive, run_loop)

loop_dies :
    (sigs : List Signal) (sleeps : List (List Signal)) (n : ℕ) (f : Flags)
    → f.quit ≡ false
    → is_deadly sigs ≡ true
    → run_loop (sigs ∷ sleeps) n f ≡ ended_in n
unfolding run_loop
loop_dies sigs sleeps n f e deadly =
    let dead : deliver sigs f ≡ none = rw (deliver_lem sigs f, deadly) in simp (e, dead, run_loop)

run_loop-Calm :
    (before rest : List (List Signal)) (n : ℕ) (f : Flags)
    → Calm before
    → f.quit ≡ false
    → run_loop (before ++ rest) n f ≡ run_loop rest (n + length before) (flags_all before f)
unfolding run_loop
run_loop-Calm [] rest n f calm e = ap (λ k. run_loop rest k f) (omega arith)
run_loop-Calm (sigs ∷ before) rest n f ((quiet, alive), calm) e =
    loop_goes sigs (before ++ rest) n f e alive
    ∙ run_loop-Calm before rest (n + 1) (flags_after sigs f) calm (flags_asks sigs f e ∙ quiet)
    ∙ ap (λ k. run_loop rest k (flags_all before (flags_after sigs f))) (omega arith)

-- The loop of MyApp::run, for a process that was not asked to quit and is not ended in its first
-- sleeps. It goes on as long as no SIGTERM or SIGINT comes; it is left after the first sleep in which
-- one comes and no deadly signal, whatever comes later; and the first sleep with a deadly signal ends
-- the process.
pub run_loop_lem :
    (before rest : List (List Signal)) (f : Flags)
    → Calm before
    → f.quit ≡ false
    → (run_loop before 0 f ≡ goes_on)
      × ((sigs : List Signal)
          → asks_to_quit sigs ≡ true
          → is_deadly sigs ≡ false
          → run_loop (before ++ (sigs ∷ rest)) 0 f
            ≡ left (length before + 1) (flags_after sigs (flags_all before f)))
      × ((sigs : List Signal)
          → is_deadly sigs ≡ true
          → run_loop (before ++ (sigs ∷ rest)) 0 f ≡ ended_in (length before))
unfolding run_loop
run_loop_lem before rest f calm e =
    let still = Calm-flags_all before f calm e in
    (
      ap (λ l. run_loop l 0 f) (sym (append-nil before))
          ∙ run_loop-Calm before [] 0 f calm e
          ∙ simp (still, run_loop),
      λ sigs asked alive.
          run_loop-Calm before (sigs ∷ rest) 0 f calm e
          ∙ loop_goes sigs rest (0 + length before) (flags_all before f) still alive
          ∙ loop_ends rest (0 + length before + 1) (flags_after sigs (flags_all before f))
              (flags_asks sigs (flags_all before f) still ∙ asked)
          ∙ ap (λ k. left k (flags_after sigs (flags_all before f))) (omega arith),
      λ sigs deadly.
          run_loop-Calm before (sigs ∷ rest) 0 f calm e
          ∙ loop_dies sigs rest (0 + length before) (flags_all before f) still deadly
          ∙ ap ended_in (omega arith),
    )
