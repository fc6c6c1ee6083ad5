-- ===== src/App/Config/Settings.antt =====
-- What is read from a configuration after something was written to it.
use librtaio.Base.{All, [], ℕ, ◌≡◌, ◌≢◌, ap, ◌∙◌, Bool, true, List, some, done}
use librtaio.App.PidFile.{
  Files, regular, IsFree, written-IsFree, contents_lem, exists_lem, with_file, file_put_contents,
}
use librtaio.App.Config.{
  PropertyTree, IniConfig, ini_config, read_profile_string, save, put_in, write_profile_string,
}

-- A path of one name: it is not empty, and has no dot that would split it.
abbrev pub IsName : List ℕ → Type 0
IsName path = (path ≢ []) × All (λ c. c ≢ 46) path

-- What boost::property_tree says of its trees, for paths of one name.
pub record IsPropertyTree {Tree : Type 0} (pt : PropertyTree Tree) : Type 0 where
  pub child_same :
      (section : List ℕ) (setting old t : Tree)
      → IsName section
      → pt.child section t ≡ some old
      → pt.child section (pt.with_child section setting t) ≡ some setting
  pub child_other :
      (section other : List ℕ) (setting t : Tree)
      → IsName section
      → IsName other
      → other ≢ section
      → pt.child other (pt.with_child section setting t) ≡ pt.child other t
  pub text_same :
      (key value default : List ℕ) (t : Tree)
      → IsName key
      → pt.get_text key default (pt.put_text key value t) ≡ value
  pub text_other :
      (key other value default : List ℕ) (t : Tree)
      → IsName key
      → IsName other
      → other ≢ key
      → pt.get_text other default (pt.put_text key value t) ≡ pt.get_text other default t

module _ {Tree : Type 0} (pt : PropertyTree Tree) (writable : List ℕ → Bool) where
  put_lem :
      (fs : Files) (path s : List ℕ)
      → IsFree (fs path)
      → writable path ≡ true
      → file_put_contents writable fs path s ≡ some (with_file fs path (some (regular s)))
  unfolding file_put_contents
  put_lem fs path s free opens = rw (opens, written-IsFree (fs path) s free)

  saved :
      (fs : Files) (c : IniConfig Tree)
      → IsFree (fs c.ini_filename)
      → writable c.ini_filename ≡ true
      → pt.is_ini c.tree ≡ true
      → save pt writable fs c
        ≡ (done tt, c, with_file fs c.ini_filename (some (regular (pt.write_ini c.tree))))
  unfolding save
  saved fs c free opens valid =
      rw (put_lem fs c.ini_filename (pt.write_ini c.tree) free opens, valid, save)

  -- A value is written to a section of the configuration, where the file can be written,
  -- boost::property_tree keeps what is put (IsPropertyTree), sections and keys are names that are
  -- not empty and have no dot (IsName), and the new tree is one that write_ini accepts: it is read
  -- again, another key of that section and any key of another section give what they gave before,
  -- and where the .ini file stands for the new tree, opening it gives this configuration.
  pub write_profile_string_lem :
      (fs : Files) (section key value : List ℕ) (c : IniConfig Tree) (setting : Tree)
      (key' section' some_key default : List ℕ)
      → IsPropertyTree pt
      → IsName section
      → IsName key
      → IsName section'
      → IsName key'
      → pt.child section c.tree ≡ some setting
      → IsFree (fs c.ini_filename)
      → writable c.ini_filename ≡ true
      → let tree' = pt.with_child section (pt.put_text key value setting) c.tree in
        pt.is_ini tree' ≡ true
        → pt.read_ini (pt.write_ini tree') ≡ some tree'
        → key' ≢ key
        → section' ≢ section
        → (c' : IniConfig Tree) × (fs' : Files) × (write_profile_string pt writable fs section key
              value c
            ≡ (done tt, c', fs'))
          × (read_profile_string pt section key default c' ≡ done value)
          × (read_profile_string pt section key' default c'
              ≡ read_profile_string pt section key' default c)
          × (read_profile_string pt section' some_key default c'
              ≡ read_profile_string pt section' some_key default c)
          × (ini_config pt fs' c.ini_filename ≡ done c')
  unfolding write_profile_string put_in read_profile_string ini_config
  write_profile_string_lem fs section key value c setting key' section' some_key default laws
        is_section is_key is_section' is_key' found free opens valid back ne ne' =
      let setting' = pt.put_text key value setting in
      let tree' = pt.with_child section setting' c.tree in
      let same = laws.child_same section setting' setting c.tree is_section found in
      (
        record c { tree = tree' },
        with_file fs c.ini_filename (some (regular (pt.write_ini tree'))),
        ap (put_in pt writable fs section (pt.put_text key value) c) found
            ∙ saved fs (record c { tree = tree' }) free opens valid,
        rw (same, laws.text_same key value default setting is_key),
        rw (same, found, laws.text_other key key' value default setting is_key is_key' ne),
        rw (laws.child_other section section' setting' c.tree is_section is_section' ne'),
        rw (
          exists_lem fs c.ini_filename (some (regular (pt.write_ini tree'))),
          contents_lem fs c.ini_filename (pt.write_ini tree'),
          back,
        ),
      )
