-- ===== src/App/Tests.antt =====
-- The theorems about the application, at concrete command lines.
use librtaio.Base.{ℕ, ◌≡◌, refl, true, List, [], ◌∷◌, if◌then◌else◌}
use librtaio.App.Args.{
  AppArgs, app_args, stop_text, is_empty, running, exited, parse_args, Line, parse_args-Line,
}

-- -d -s stop a
abbrev line : List (List ℕ)
line = (45 ∷ 100 ∷ []) ∷ (45 ∷ 115 ∷ []) ∷ stop_text ∷ (97 ∷ []) ∷ []

abbrev parsed : AppArgs
parsed = record app_args { is_daemon = true; start_opt = stop_text; conf_file = 97 ∷ [] }

line_example : parse_args line ≡ (if is_empty parsed.conf_file then exited 1 else running parsed)
line_example =
    parse_args-Line line parsed (Line.daemon refl (Line.opt refl refl (Line.conf refl Line.end)))
