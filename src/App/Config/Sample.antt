-- ===== src/App/Config/Sample.antt =====
-- A property tree of functions, as an instance of boost::property_tree for concrete inputs to
-- src/libs/config.h.
use librtaio.Base.{
  ℕ, ◌≡◌, ◌≢◌, refl, sym, ap, ap₂, ◌∙◌, Bool, true, false, List, [], ◌∷◌, Option, none, some, ◌==◌,
  ◌||◌, arith, Bool-cases, inl, inr, if◌then◌else◌,
}
use librtaio.App.Args.{text_eq}
use librtaio.App.PidFile.{text_eq_refl}
use librtaio.App.Config.{PropertyTree}
use librtaio.App.Config.Settings.{IsPropertyTree}

pub data IniTree : Type 0 where
  leaf : List ℕ → IniTree
  node : (List ℕ → Bool) → (List ℕ → IniTree) → IniTree

abbrev pub child : List ℕ → IniTree → Option IniTree
child section (leaf text) = none
child section (node there children) = if there section then some (children section) else none

abbrev pub with_child : List ℕ → IniTree → IniTree → IniTree
with_child section setting (leaf text) = node (λ s. text_eq s section) (λ s. setting)
with_child section setting (node there children) =
    node (λ s. text_eq s section || there s)
      (λ s. if text_eq s section then setting else children s)

abbrev text_or : List ℕ → Option IniTree → List ℕ
text_or default none = default
text_or default (some (leaf text)) = text
text_or default (some (node there children)) = []

abbrev first_or : ℕ → List ℕ → ℕ
first_or default [] = default
first_or default (c ∷ cs) = c

-- An .ini file that begins with a letter holds this tree.
abbrev pub trees : IniTree → PropertyTree IniTree
trees t = record {
  read_ini = λ text. if text_eq text [] then none else some t;
  write_ini = λ t'. 91 ∷ [];
  is_ini = λ t'. true;
  child = child;
  with_child = with_child;
  get_text = λ key default t'. text_or default (child key t');
  get_int = λ key default t'. first_or default (text_or [] (child key t'));
  put_text = λ key value t'. with_child key (leaf value) t';
  put_int = λ key value t'. with_child key (leaf (value ∷ [])) t';
}

text_eq→≡ : (s t : List ℕ) → text_eq s t ≡ true → s ≡ t
text_eq→≡ [] [] e = refl
text_eq→≡ [] (c ∷ t) e = cc
text_eq→≡ (b ∷ s) [] e = cc
text_eq→≡ (b ∷ s) (c ∷ t) e = elim (Bool-cases (b == c)) [
  | inl same ↦ ap₂ (◌∷◌) (ground arith) (text_eq→≡ s t (rw same at e))
  | inr other ↦ absurd (ground arith)
]

ne→text_eq : (s t : List ℕ) → s ≢ t → text_eq s t ≡ false
ne→text_eq s t ne = elim (Bool-cases (text_eq s t)) [
  | inl e ↦ absurd (ne (text_eq→≡ s t e))
  | inr e ↦ e
]

same_child :
    (section : List ℕ) (setting t : IniTree)
    → child section (with_child section setting t) ≡ some setting
same_child section setting (leaf text) = rw (text_eq_refl section)
same_child section setting (node there children) = rw (text_eq_refl section)

other_child :
    (section other : List ℕ) (setting t : IniTree)
    → other ≢ section
    → child other (with_child section setting t) ≡ child other t
other_child section other setting (leaf text) ne = rw (ne→text_eq other section ne)
other_child section other setting (node there children) ne = rw (ne→text_eq other section ne)

pub trees-IsPropertyTree : (t : IniTree) → IsPropertyTree (trees t)
trees-IsPropertyTree t = record {
  child_same = λ section setting old t' is_section found. same_child section setting t';
  child_other =
      λ section other setting t' is_section is_other ne. other_child section other setting t' ne;
  text_same = λ key value default t' is_key. ap (text_or default) (same_child key (leaf value) t');
  text_other = λ key other value default t' is_key is_other ne.
      ap (text_or default) (other_child key other (leaf value) t' ne);
}

pub text_eq-false→≢ : (s t : List ℕ) → text_eq s t ≡ false → s ≢ t
text_eq-false→≢ s t f e =
    let same : false ≡ true = sym f ∙ ap (text_eq s) (sym e) ∙ text_eq_refl s in
    absurd (ground arith)
