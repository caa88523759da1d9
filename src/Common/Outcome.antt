-- ===== src/Common/Outcome.antt =====
-- What a Python function hands back: a value, or the exception that it raises. Each component has
-- its own type of exceptions, with a constructor for each place that raises one.
use mathlib.Core.Path.{◌≡◌, refl, ap}
use mathlib.Core.Logic.{◌⊎◌, inl, inr}
use mathlib.Core.Bool.{Bool, true, false}

pub data Outcome {ℓ κ} (E : Type ℓ) (A : Type κ) : Type (ℓ ⊔ κ) where
  ok : A → Outcome E A
  raised : E → Outcome E A

infixl 5 ◌>>=◌ ◌>>◌
abbrev pub ◌>>=◌ {ℓ κ μ} :
    {E : Type ℓ} {A : Type κ} {B : Type μ} → Outcome E A → (A → Outcome E B) → Outcome E B
ok a >>= f = f a
raised e >>= f = raised e

abbrev pub ◌>>◌ {ℓ κ} : {E : Type ℓ} {B : Type κ} → Outcome E (Unit {0}) → Outcome E B → Outcome E B
m >> k = m >>= λ _. k

-- `if test: raise e`
abbrev pub refuse_if {ℓ} : {E : Type ℓ} → Bool → E → Outcome E (Unit {0})
refuse_if true e = raised e
refuse_if false e = ok tt

-- `except ...: raise f(exc)`
abbrev pub map_raised {ℓ κ μ} :
    {E : Type ℓ} {F : Type κ} {A : Type μ} → (E → F) → Outcome E A → Outcome F A
map_raised f (ok a) = ok a
map_raised f (raised e) = raised (f e)

-- A block that did not raise went through a value of its first step.
pub bind-ok {ℓ κ μ} :
    {E : Type ℓ} {A : Type κ} {B : Type μ} (first : Outcome E A) (rest : A → Outcome E B)
    {result : B}
    → (first >>= rest) ≡ ok result
    → (between : A) × (first ≡ ok between) × (rest between ≡ ok result)
bind-ok (ok between) rest p = (between, refl, p)
bind-ok (raised e) rest p = cc

pub Outcome-cases {ℓ κ} :
    {E : Type ℓ} {A : Type κ} (o : Outcome E A)
    → ((a : A) × (o ≡ ok a)) ⊎ ((e : E) × (o ≡ raised e))
Outcome-cases (ok a) = inl (a, refl)
Outcome-cases (raised e) = inr (e, refl)

pub ok-injective {ℓ κ} :
    {E : Type ℓ} {A : Type κ} {a b : A} → ◌≡◌ {A = Outcome E A} (ok a) (ok b) → a ≡ b
ok-injective h = cc

pub map_raised-eq-ok {ℓ κ μ} :
    {E : Type ℓ} {F : Type κ} {A : Type μ} (f : E → F) (m : Outcome E A) {a : A}
    → map_raised f m ≡ ok a
    → m ≡ ok a
map_raised-eq-ok f (ok a) h = ap ok (ok-injective h)
map_raised-eq-ok f (raised e) h = cc

-- A block behind a guard that did not raise.
pub refuse_if-eq-ok {ℓ κ} :
    {E : Type ℓ} {A : Type κ} (b : Bool) (e : E) (m : Outcome E A) {a : A}
    → (refuse_if b e >> m) ≡ ok a
    → (b ≡ false) × (m ≡ ok a)
refuse_if-eq-ok true e m h = cc
refuse_if-eq-ok false e m h = (refl, h)
