-- ===== src/Base/Outcomes.antt =====
-- How a run of a C++ function ends: with a result, by a failed `assert`, by an exception, or by
-- undefined behaviour (an access outside an array).
use mathlib.Core.Path.{◌≡◌, refl, subst}
use mathlib.Core.Option.{Option, none, some}

pub data Outcome {ℓ} (A : Type ℓ) : Type ℓ where
  done : A → Outcome A
  aborted : Outcome A
  thrown : Outcome A
  fault : Outcome A

infixl 5 ◌>>=◌ ◌>>◌
abbrev pub ◌>>=◌ {ℓ κ} : {A : Type ℓ} {B : Type κ} → Outcome A → (A → Outcome B) → Outcome B
done a >>= f = f a
aborted >>= f = aborted
thrown >>= f = thrown
fault >>= f = fault

abbrev pub ◌>>◌ {ℓ} : {B : Type ℓ} → Outcome (Unit {0}) → Outcome B → Outcome B
m >> k = m >>= λ _. k

-- An array access: `none` is an index outside the array.
abbrev pub access {ℓ} : {A : Type ℓ} → Option A → Outcome A
access none = fault
access (some a) = done a

pub >>=-eq-done {ℓ κ} :
    {A : Type ℓ} {B : Type κ} (m : Outcome A) (f : A → Outcome B) {b : B}
    → (m >>= f) ≡ done b
    → (a : A) × (m ≡ done a) × (f a ≡ done b)
>>=-eq-done (done a) f h = (a, refl, h)
>>=-eq-done aborted f h = cc
>>=-eq-done thrown f h = cc
>>=-eq-done fault f h = cc

pub done-inj {ℓ} : {A : Type ℓ} {a b : A} → done a ≡ done b → a ≡ b
done-inj e = cc

-- Whatever a run gives when it is done has the property.
pub data Always {ℓ κ} {A : Type ℓ} (P : A → Type κ) : Outcome A → Type (ℓ ⊔ κ) where
  always : {a : A} → P a → Always P (done a)
  never_aborted : Always P aborted
  never_thrown : Always P thrown
  never_fault : Always P fault

pub Always->>= {ℓ κ μ ν} :
    {A : Type ℓ} {B : Type κ} {P : A → Type μ} {Q : B → Type ν} (m : Outcome A) (f : A → Outcome B)
    → Always P m
    → ((a : A) → P a → Always Q (f a))
    → Always Q (m >>= f)
Always->>= (done a) f (always p) next = next a p
Always->>= aborted f p next = never_aborted
Always->>= thrown f p next = never_thrown
Always->>= fault f p next = never_fault

-- The first part may give anything.
pub Always-any->>= {ℓ κ ν} :
    {A : Type ℓ} {B : Type κ} {Q : B → Type ν} (m : Outcome A) (f : A → Outcome B)
    → ((a : A) → Always Q (f a))
    → Always Q (m >>= f)
Always-any->>= (done a) f next = next a
Always-any->>= aborted f next = never_aborted
Always-any->>= thrown f next = never_thrown
Always-any->>= fault f next = never_fault

pub Always-done {ℓ κ} :
    {A : Type ℓ} {P : A → Type κ} {m : Outcome A} {a : A} → Always P m → m ≡ done a → P a
Always-done {P} (always {a} p) e = subst P (done-inj e) p
Always-done never_aborted e = cc
Always-done never_thrown e = cc
Always-done never_fault e = cc

pub Always-map {ℓ κ μ} :
    {A : Type ℓ} {P : A → Type κ} {Q : A → Type μ} {m : Outcome A}
    → ((a : A) → P a → Q a)
    → Always P m
    → Always Q m
Always-map f (always {a} p) = always (f a p)
Always-map f never_aborted = never_aborted
Always-map f never_thrown = never_thrown
Always-map f never_fault = never_fault

-- Two ways to go on that agree on whatever a run gives.
pub >>=-agree {ℓ κ μ} :
    {A : Type ℓ} {B : Type κ} {P : A → Type μ} (m : Outcome A) (f g : A → Outcome B)
    → Always P m
    → ((a : A) → P a → f a ≡ g a)
    → (m >>= f) ≡ (m >>= g)
>>=-agree (done a) f g (always p) e = e a p
>>=-agree aborted f g p e = refl
>>=-agree thrown f g p e = refl
>>=-agree fault f g p e = refl

pub >>=-assoc {ℓ κ μ} :
    {A : Type ℓ} {B : Type κ} {C : Type μ} (m : Outcome A) (f : A → Outcome B) (g : B → Outcome C)
    → ((m >>= f) >>= g) ≡ (m >>= λ a. f a >>= g)
>>=-assoc (done a) f g = refl
>>=-assoc aborted f g = refl
>>=-assoc thrown f g = refl
>>=-assoc fault f g = refl
