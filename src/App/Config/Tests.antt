-- ===== src/App/Config/Tests.antt =====
-- The theorems about configurations, at a concrete one.
use librtaio.Base.{
  ℕ, ◌≡◌, ◌≢◌, arith, refl, true, List, [], ◌∷◌, none, some, done, if◌then◌else◌, Bool,
}
use librtaio.App.Args.{text_eq}
use librtaio.App.PidFile.{Files, regular}
use librtaio.App.Config.{IniConfig, ini_config, read_profile_string, write_profile_string}
use librtaio.App.Config.Sample.{
  IniTree, leaf, node, trees, with_child, trees-IsPropertyTree, text_eq-false→≢,
}
use librtaio.App.Config.Settings.{IsName, write_profile_string_lem}

-- The section "a" with the key "k".
abbrev section : IniTree
section = node (λ key. text_eq key (107 ∷ [])) (λ key. leaf (1 ∷ []))

abbrev one_section : IniTree
one_section = node (λ s. text_eq s (97 ∷ [])) (λ s. section)

abbrev config : IniConfig IniTree
config = record { ini_filename = 102 ∷ []; tree = one_section }

abbrev changed : IniTree
changed = with_child (97 ∷ []) (with_child (107 ∷ []) (leaf (2 ∷ [])) section) one_section

abbrev config_files : Files
config_files path = if text_eq path (102 ∷ []) then some (regular (91 ∷ [])) else none

abbrev all_paths : List ℕ → Bool
all_paths path = true

letter-IsName : (c : ℕ) → c ≢ 46 → IsName (c ∷ [])
letter-IsName c no_dot = ((λ e. cc), (no_dot, tt))

write_setting_example :
    (c' : IniConfig IniTree) × (fs' : Files) × (write_profile_string
        (trees changed)
        all_paths
        config_files
        (97 ∷ [])
        (107 ∷ [])
        (2 ∷ [])
        config
      ≡ (done tt, c', fs'))
    × (read_profile_string (trees changed) (97 ∷ []) (107 ∷ []) [] c' ≡ done (2 ∷ []))
    × (read_profile_string (trees changed) (97 ∷ []) (108 ∷ []) [] c'
        ≡ read_profile_string (trees changed) (97 ∷ []) (108 ∷ []) [] config)
    × (read_profile_string (trees changed) (98 ∷ []) (107 ∷ []) [] c'
        ≡ read_profile_string (trees changed) (98 ∷ []) (107 ∷ []) [] config)
    × (ini_config (trees changed) fs' (102 ∷ []) ≡ done c')
write_setting_example =
    write_profile_string_lem (trees changed) all_paths config_files (97 ∷ []) (107 ∷ []) (2 ∷ [])
      config section (108 ∷ []) (98 ∷ []) (107 ∷ []) [] (trees-IsPropertyTree changed)
      (letter-IsName 97 (λ e. absurd (omega arith))) (letter-IsName 107 (λ e. absurd (omega arith)))
      (letter-IsName 98 (λ e. absurd (omega arith))) (letter-IsName 108 (λ e. absurd (omega arith)))
      refl tt refl refl refl (text_eq-false→≢ (108 ∷ []) (107 ∷ []) refl)
      (text_eq-false→≢ (98 ∷ []) (97 ∷ []) refl)
