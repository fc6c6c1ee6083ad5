-- ===== src/App/Args.antt =====
-- src/libs/app.cpp: parse_args. A string is the list of its characters.
use librtaio.Base.{
  ℕ, ◌≡◌, refl, ap, ◌∙◌, subst, ◌⊎◌, inl, inr, Bool, true, false, List, [], ◌∷◌, ◌&&◌, ◌||◌, ◌==◌,
  Bool-cases, if◌then◌else◌,
}

pub record AppArgs : Type 0 where
  pub is_daemon : Bool
  pub pidfile : List ℕ
  pub conf_file : List ℕ
  pub work_dir : List ℕ
  pub start_opt : List ℕ

abbrev pub start_text : List ℕ
start_text = 115 ∷ 116 ∷ 97 ∷ 114 ∷ 116 ∷ []

abbrev pub stop_text : List ℕ
stop_text = 115 ∷ 116 ∷ 111 ∷ 112 ∷ []

abbrev pub restart_text : List ℕ
restart_text = 114 ∷ 101 ∷ 115 ∷ 116 ∷ 97 ∷ 114 ∷ 116 ∷ []

-- The constructor of AppArgs.
abbrev pub app_args : AppArgs
app_args = record {
  is_daemon = false;
  pidfile = [];
  conf_file = [];
  work_dir = [];
  start_opt = start_text;
}

-- std::string's `==` and `empty`.
abbrev pub text_eq : List ℕ → List ℕ → Bool
text_eq [] [] = true
text_eq [] (c ∷ cs) = false
text_eq (b ∷ bs) [] = false
text_eq (b ∷ bs) (c ∷ cs) = b == c && text_eq bs cs

abbrev pub is_empty : List ℕ → Bool
is_empty [] = true
is_empty (c ∷ cs) = false

-- What an argument is taken for: the options -d, -v, -h and -s, or a configuration file.
pub data Argument : Type 0 where
  daemon_option version_option help_option start_option conf_argument : Argument

abbrev pub argument : List ℕ → Argument
argument arg =
    if text_eq arg (45 ∷ 100 ∷ [])
    then daemon_option
    else if text_eq arg (45 ∷ 118 ∷ [])
    then version_option
    else if text_eq arg (45 ∷ 104 ∷ [])
    then help_option
    else if text_eq arg (45 ∷ 115 ∷ [])
    then start_option
    else conf_argument

abbrev pub is_start_opt : List ℕ → Bool
is_start_opt opt = text_eq opt start_text || (text_eq opt stop_text || text_eq opt restart_text)

-- The process goes on, or exits with a code.
pub data Run {ℓ} (A : Type ℓ) : Type ℓ where
  running : A → Run A
  exited : ℕ → Run A

-- The loop over argv from 1 on; `takes_opt` after an `-s` whose value is still to come.
unfoldable pub parse_loop : Bool → AppArgs → List (List ℕ) → Run AppArgs
parse_loop true a [] = exited 1
parse_loop true a (opt ∷ argv) = elim (is_start_opt opt) [
  | true ↦ parse_loop false (record a { start_opt = opt }) argv
  | false ↦ exited 1
]
parse_loop false a [] = running a
parse_loop false a (arg ∷ argv) = elim (argument arg) [
  | daemon_option ↦ parse_loop false (record a { is_daemon = true }) argv
  | version_option ↦ exited 0
  | help_option ↦ exited 0
  | start_option ↦ parse_loop true a argv
  | conf_argument ↦ parse_loop false (record a { conf_file = arg }) argv
]

-- What follows the loop.
abbrev pub check_conf : Run AppArgs → Run AppArgs
check_conf (running a) = if is_empty a.conf_file then exited 1 else running a
check_conf (exited code) = exited code

unfoldable pub parse_args : List (List ℕ) → Run AppArgs
parse_args argv = check_conf (parse_loop false app_args argv)

running-inj : {a b : AppArgs} → running a ≡ running b → a ≡ b
running-inj e = cc

Argument-cases :
    (k : Argument)
    → ((k ≡ daemon_option) ⊎ (k ≡ start_option))
      ⊎ ((k ≡ conf_argument) ⊎ ((k ≡ version_option) ⊎ (k ≡ help_option)))
Argument-cases daemon_option = inl (inl refl)
Argument-cases start_option = inl (inr refl)
Argument-cases conf_argument = inr (inl refl)
Argument-cases version_option = inr (inr (inl refl))
Argument-cases help_option = inr (inr (inr refl))

exited-running : {code : ℕ} {a : AppArgs} → exited code ≡ running a → ⊥
exited-running e = cc

loop_start_opt :
    (takes_opt : Bool) (a r : AppArgs) (argv : List (List ℕ))
    → is_start_opt a.start_opt ≡ true
    → parse_loop takes_opt a argv ≡ running r
    → is_start_opt r.start_opt ≡ true
unfolding parse_loop
loop_start_opt true a r [] ok e = cc
loop_start_opt true a r (opt ∷ argv) ok e = elim (Bool-cases (is_start_opt opt)) [
  | inl valid ↦
      loop_start_opt false (record a { start_opt = opt }) r argv valid (rw (valid, parse_loop) at e)
  | inr bad ↦ absurd (exited-running (rw (bad, parse_loop) at e))
]
loop_start_opt false a r [] ok e = subst (λ x. is_start_opt x.start_opt ≡ true) (running-inj e) ok
loop_start_opt false a r (arg ∷ argv) ok e = elim (Argument-cases (argument arg)) [
  | inl (inl k) ↦
      loop_start_opt false (record a { is_daemon = true }) r argv ok (rw (k, parse_loop) at e)
  | inl (inr k) ↦ loop_start_opt true a r argv ok (rw (k, parse_loop) at e)
  | inr (inl k) ↦
      loop_start_opt false (record a { conf_file = arg }) r argv ok (rw (k, parse_loop) at e)
  | inr (inr (inl k)) ↦ absurd (exited-running (rw (k, parse_loop) at e))
  | inr (inr (inr k)) ↦ absurd (exited-running (rw (k, parse_loop) at e))
]

check_conf-running :
    (x : Run AppArgs) (r : AppArgs)
    → check_conf x ≡ running r
    → (x ≡ running r) × (is_empty r.conf_file ≡ false)
check_conf-running (running a) r e = elim (Bool-cases (is_empty a.conf_file)) [
  | inl none ↦ absurd (exited-running (rw none at e))
  | inr some ↦
      let same : running a ≡ running r = (rw some at e) in
      (same, subst (λ x. is_empty x.conf_file ≡ false) (running-inj same) some)
]
check_conf-running (exited code) r e = absurd (exited-running e)

-- Whatever the command line is: where parse_args does not end the process, the start option is
-- start, stop or restart, and a configuration file is named.
pub parse_args_valid :
    (argv : List (List ℕ)) (r : AppArgs)
    → parse_args argv ≡ running r
    → (is_start_opt r.start_opt ≡ true) × (is_empty r.conf_file ≡ false)
unfolding parse_args
parse_args_valid argv r e =
    let run = check_conf-running (parse_loop false app_args argv) r e in
    (loop_start_opt false app_args r argv refl run.0, run.1)

-- The options that a command line may hold, in any order, and what they make of the arguments.
pub data Line : AppArgs → List (List ℕ) → AppArgs → Type 0 where
  end : {a : AppArgs} → Line a [] a
  daemon :
      {a r : AppArgs} {arg : List ℕ} {argv : List (List ℕ)}
      → argument arg ≡ daemon_option
      → Line (record a { is_daemon = true }) argv r
      → Line a (arg ∷ argv) r
  opt :
      {a r : AppArgs} {arg value : List ℕ} {argv : List (List ℕ)}
      → argument arg ≡ start_option
      → is_start_opt value ≡ true
      → Line (record a { start_opt = value }) argv r
      → Line a (arg ∷ value ∷ argv) r
  conf :
      {a r : AppArgs} {arg : List ℕ} {argv : List (List ℕ)}
      → argument arg ≡ conf_argument
      → Line (record a { conf_file = arg }) argv r
      → Line a (arg ∷ argv) r

loop_opt :
    (a : AppArgs) (value : List ℕ) (argv : List (List ℕ))
    → is_start_opt value ≡ true
    → parse_loop true a (value ∷ argv) ≡ parse_loop false (record a { start_opt = value }) argv
unfolding parse_loop
loop_opt a value argv ok = rw (ok, parse_loop)

loop-Line :
    {a r : AppArgs} {argv : List (List ℕ)} → Line a argv r → parse_loop false a argv ≡ running r
unfolding parse_loop
loop-Line end = refl
loop-Line (daemon k rest) = rw (k, parse_loop) (loop-Line rest)
loop-Line (opt {a} {r} {arg} {value} {argv} k ok rest) =
    rw (k, parse_loop) (loop_opt a value argv ok ∙ loop-Line rest)
loop-Line (conf k rest) = rw (k, parse_loop) (loop-Line rest)

-- A command line of -d options, -s options each with a valid value, and other words that are no
-- options, in any order (Line): parse_args gives what these add up to, the last of each kind
-- winning, and exits with 1 if no configuration file is among them.
pub parse_args-Line :
    (argv : List (List ℕ)) (r : AppArgs)
    → Line app_args argv r
    → parse_args argv ≡ (if is_empty r.conf_file then exited 1 else running r)
unfolding parse_args
parse_args-Line argv r line = ap check_conf (loop-Line line)
