-- ===== src/Common/Effect.antt =====
-- Operations on a world: they read it or change it, and return a value or raise.
use mathlib.Core.Path.{◌≡◌, refl}
use mathlib.Core.Bool.{Bool, true, false}
use meta_harness.Common.Outcome.{Outcome, ok, raised, refuse_if, map_raised}

abbrev pub Effect {ℓ κ μ} : Type ℓ → Type κ → Type μ → Type (ℓ ⊔ κ ⊔ μ)
Effect E W A = W → Outcome E A × W

abbrev pub continue {ℓ κ μ ν} :
    {E : Type ℓ} {W : Type κ} {A : Type μ} {B : Type ν}
    → Outcome E A × W
    → (A → Effect E W B)
    → Outcome E B × W
continue (ok a, w) f = f a w
continue (raised e, w) f = (raised e, w)

infixl 5 ◌>>=◌ ◌>>◌
abbrev pub ◌>>=◌ {ℓ κ μ ν} :
    {E : Type ℓ} {W : Type κ} {A : Type μ} {B : Type ν}
    → Effect E W A
    → (A → Effect E W B)
    → Effect E W B
(m >>= f) w = continue (m w) f

abbrev pub ◌>>◌ {ℓ κ μ} :
    {E : Type ℓ} {W : Type κ} {B : Type μ} → Effect E W (Unit {0}) → Effect E W B → Effect E W B
(m >> k) w = continue (m w) (λ _. k)

-- An operation that leaves the world alone.
abbrev pub reading {ℓ κ μ} :
    {E : Type ℓ} {W : Type κ} {A : Type μ} → (W → Outcome E A) → Effect E W A
reading f w = (f w, w)

abbrev pub giving {ℓ κ μ} : {E : Type ℓ} {W : Type κ} {A : Type μ} → Outcome E A → Effect E W A
giving o w = (o, w)

abbrev pub refusing_if {ℓ κ} : {E : Type ℓ} {W : Type κ} → Bool → E → Effect E W (Unit {0})
refusing_if b e w = (refuse_if b e, w)

-- `except ...: raise f(exc)`, around a block
abbrev pub translated {ℓ κ μ ν} :
    {E : Type ℓ} {F : Type κ} {W : Type μ} {A : Type ν}
    → (E → F)
    → Outcome E A × W
    → Outcome F A × W
translated f (ok a, w) = (ok a, w)
translated f (raised e, w) = (raised (f e), w)

abbrev pub catching {ℓ κ μ ν} :
    {E : Type ℓ} {F : Type κ} {W : Type μ} {A : Type ν} → (E → F) → Effect E W A → Effect F W A
catching f m w = translated f (m w)

-- An operation on one of two worlds.
abbrev pub on_first {ℓ κ μ ν ρ} :
    {E : Type ℓ} {F : Type κ} {V : Type μ} {W : Type ν} {A : Type ρ}
    → (E → F)
    → Effect E V A
    → Effect F (V × W) A
on_first f m (v, w) = (map_raised f (m v).0, ((m v).1, w))

abbrev pub on_second {ℓ κ μ ν ρ} :
    {E : Type ℓ} {F : Type κ} {V : Type μ} {W : Type ν} {A : Type ρ}
    → (E → F)
    → Effect E W A
    → Effect F (V × W) A
on_second f m (v, w) = (map_raised f (m w).0, (v, (m w).1))

-- A block that did not raise went through a value and a world of its first step.
pub continue-ok {ℓ κ μ ν} :
    {E : Type ℓ} {W : Type κ} {A : Type μ} {B : Type ν} (first : Outcome E A × W)
    (rest : A → Effect E W B) {b : B} {w' : W}
    → continue first rest ≡ (ok b, w')
    → (a : A) × (w : W) × (first ≡ (ok a, w)) × (rest a w ≡ (ok b, w'))
continue-ok (ok a, w) rest h = (a, w, refl, h)
continue-ok (raised e, w) rest h = cc

pub translated-ok {ℓ κ μ ν} :
    {E : Type ℓ} {F : Type κ} {W : Type μ} {A : Type ν} (f : E → F) (p : Outcome E A × W) {a : A}
    {w' : W}
    → translated f p ≡ (ok a, w')
    → p ≡ (ok a, w')
translated-ok f (ok a, w) h = cc
translated-ok f (raised e, w) h = cc

-- The same, when the first step was a read: the rest runs in the same world.
pub continue-reading {ℓ κ μ ν} :
    {E : Type ℓ} {W : Type κ} {A : Type μ} {B : Type ν} (o : Outcome E A) (w : W)
    (rest : A → Effect E W B) {b : B} {w' : W}
    → continue (o, w) rest ≡ (ok b, w')
    → (a : A) × (o ≡ ok a) × (rest a w ≡ (ok b, w'))
continue-reading (ok a) w rest h = (a, refl, h)
continue-reading (raised e) w rest h = cc

pub continue-refusing {ℓ κ μ} :
    {E : Type ℓ} {W : Type κ} {B : Type μ} (b : Bool) (e : E) (w : W)
    (rest : Unit {0} → Effect E W B) {c : B} {w' : W}
    → continue (refuse_if b e, w) rest ≡ (ok c, w')
    → (b ≡ false) × (rest tt w ≡ (ok c, w'))
continue-refusing true e w rest h = cc
continue-refusing false e w rest h = (refl, h)

pub refusing-ok {ℓ κ} :
    {E : Type ℓ} {W : Type κ} (b : Bool) (e : E) {u : Unit {0}} {w w' : W}
    → ◌≡◌ {A = Outcome E (Unit {0}) × W} (refuse_if b e, w) (ok u, w')
    → (b ≡ false) × (w ≡ w')
refusing-ok true e h = cc
refusing-ok false e h = (refl, cc)

pub giving-ok {ℓ κ μ} :
    {E : Type ℓ} {W : Type κ} {A : Type μ} {a b : A} {w w' : W}
    → ◌≡◌ {A = Outcome E A × W} (ok a, w) (ok b, w')
    → (a ≡ b) × (w ≡ w')
giving-ok h = (cc, cc)

lifted_first {ℓ κ μ ν ρ} :
    {E : Type ℓ} {F : Type κ} {V : Type μ} {W : Type ν} {A : Type ρ} (f : E → F)
    (p : Outcome E A × V) (w : W) {a : A} {s : V × W}
    → ◌≡◌ {A = Outcome F A × (V × W)} (map_raised f p.0, (p.1, w)) (ok a, s)
    → (p ≡ (ok a, s.0)) × (s.1 ≡ w)
lifted_first f (ok b, v) w h = (cc, cc)
lifted_first f (raised e, v) w h = cc

pub on_first-ok {ℓ κ μ ν ρ} :
    {E : Type ℓ} {F : Type κ} {V : Type μ} {W : Type ν} {A : Type ρ} (f : E → F) (m : Effect E V A)
    (s : V × W) {a : A} {s' : V × W}
    → on_first f m s ≡ (ok a, s')
    → (m s.0 ≡ (ok a, s'.0)) × (s'.1 ≡ s.1)
on_first-ok f m (v, w) h = lifted_first f (m v) w h

lifted_second {ℓ κ μ ν ρ} :
    {E : Type ℓ} {F : Type κ} {V : Type μ} {W : Type ν} {A : Type ρ} (f : E → F)
    (p : Outcome E A × W) (v : V) {a : A} {s : V × W}
    → ◌≡◌ {A = Outcome F A × (V × W)} (map_raised f p.0, (v, p.1)) (ok a, s)
    → (p ≡ (ok a, s.1)) × (s.0 ≡ v)
lifted_second f (ok b, w) v h = (cc, cc)
lifted_second f (raised e, w) v h = cc

pub on_second-ok {ℓ κ μ ν ρ} :
    {E : Type ℓ} {F : Type κ} {V : Type μ} {W : Type ν} {A : Type ρ} (f : E → F) (m : Effect E W A)
    (s : V × W) {a : A} {s' : V × W}
    → on_second f m s ≡ (ok a, s')
    → (m s.1 ≡ (ok a, s'.1)) × (s'.0 ≡ s.0)
on_second-ok f m (v, w) h = lifted_second f (m w) v h
