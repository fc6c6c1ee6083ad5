-- ===== src/App/Config.antt =====
-- src/libs/config.h: IniConfig over boost::property_tree, which is a parameter: the type of its trees
-- and their operations. Reading a file that is no .ini file throws, and so does looking for a
-- section that is not there. A section and a key are paths, which get_child, get and put split.
pub mod Settings
pub mod Sample
mod Tests
use librtaio.Base.{
  ℕ, ◌≡◌, ◌≢◌, refl, Bool, List, Option, none, some, Outcome, done, thrown, ◌>>=◌, if◌then◌else◌,
  Bool-cases, inl, inr, ap, ◌∙◌, true, false,
}
use librtaio.App.PidFile.{Files, Node, file_get_contents, file_exists, file_put_contents}

-- `child` is get_child, `with_child` puts another tree in a section's place, `get_text` is
-- get<string>(key, default) and `put_text` put<string>; `get_int` and `put_int` are those of int.
-- `write_ini` is what the function of that name writes to its stream, in full where `is_ini` holds;
-- a tree that is no .ini file makes it throw, with what it has written so far.
pub record PropertyTree (Tree : Type 0) : Type 0 where
  pub read_ini : List ℕ → Option Tree
  pub write_ini : Tree → List ℕ
  pub is_ini : Tree → Bool
  pub child : List ℕ → Tree → Option Tree
  pub with_child : List ℕ → Tree → Tree → Tree
  pub get_text : List ℕ → List ℕ → Tree → List ℕ
  pub get_int : List ℕ → ℕ → Tree → ℕ
  pub put_text : List ℕ → List ℕ → Tree → Tree
  pub put_int : List ℕ → ℕ → Tree → Tree

pub record IniConfig (Tree : Type 0) : Type 0 where
  pub ini_filename : List ℕ
  pub tree : Tree

abbrev pub or_throw {ℓ} : {A : Type ℓ} → Option A → Outcome A
or_throw none = thrown
or_throw (some a) = done a

module _ {Tree : Type 0} (pt : PropertyTree Tree) where
  -- The constructor of IniConfig; a file that cannot be opened throws.
  unfoldable pub ini_config : Files → List ℕ → Outcome (IniConfig Tree)
  ini_config fs filename =
      if file_exists fs filename
      then (or_throw (pt.read_ini (file_get_contents fs filename)) >>= λ tree.
          done (record { ini_filename = filename; tree = tree }))
      else thrown

  unfoldable pub read_profile_string : List ℕ → List ℕ → List ℕ → IniConfig Tree → Outcome (List ℕ)
  read_profile_string section key default c =
      or_throw (pt.child section c.tree) >>= λ setting. done (pt.get_text key default setting)

  unfoldable pub read_profile_int : List ℕ → List ℕ → ℕ → IniConfig Tree → Outcome ℕ
  read_profile_int section key default c =
      or_throw (pt.child section c.tree) >>= λ setting. done (pt.get_int key default setting)

  -- write_ini to the file, which throws if the file cannot be written or the tree is no .ini file:
  -- the tree has changed all the same, and in the second case so has the file.
  unfoldable pub save :
      (List ℕ → Bool) → Files → IniConfig Tree → Outcome (Unit {0}) × IniConfig Tree × Files
  save writable fs c = elim (file_put_contents writable fs c.ini_filename (pt.write_ini c.tree)) [
    | none ↦ (thrown, c, fs)
    | some fs' ↦ (if pt.is_ini c.tree then done tt else thrown, c, fs')
  ]

  -- `section_setting` is a reference into m_ptree, so that what is put there stays there.
  unfoldable pub put_in :
      (List ℕ → Bool)
      → Files
      → List ℕ
      → (Tree → Tree)
      → IniConfig Tree
      → Option Tree
      → Outcome (Unit {0}) × IniConfig Tree × Files
  put_in writable fs section put c none = (thrown, c, fs)
  put_in writable fs section put c (some setting) =
      save writable fs (record c { tree = pt.with_child section (put setting) c.tree })

  unfoldable pub write_profile_string :
      (List ℕ → Bool)
      → Files
      → List ℕ
      → List ℕ
      → List ℕ
      → IniConfig Tree
      → Outcome (Unit {0}) × IniConfig Tree × Files
  write_profile_string writable fs section key value c =
      put_in writable fs section (pt.put_text key value) c (pt.child section c.tree)

  unfoldable pub write_profile_int :
      (List ℕ → Bool)
      → Files
      → List ℕ
      → List ℕ
      → ℕ
      → IniConfig Tree
      → Outcome (Unit {0}) × IniConfig Tree × Files
  write_profile_int writable fs section key value c =
      put_in writable fs section (pt.put_int key value) c (pt.child section c.tree)
