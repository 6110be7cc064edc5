-- ===== src/Prelude/Panic.antt =====
-- A computation that may panic: `none` is the panic (`expect`, `assert!`, `unreachable!`).
use mathlib.Core.Path.{◌≡◌, refl, subst}
use mathlib.Core.Bool.{Bool, true, false}
use mega_evm.Prelude.Tests.{if◌then◌else◌}
use mathlib.Core.Option.{Option, none, some}

infixl 5 ◌>>=◌ ◌>>◌
abbrev pub ◌>>=◌ {ℓ κ} : {A : Type ℓ} {B : Type κ} → Option A → (A → Option B) → Option B
none >>= f = none
some a >>= f = f a

abbrev pub ◌>>◌ {ℓ} : {B : Type ℓ} → Option (Unit {0}) → Option B → Option B
m >> k = m >>= λ _. k

-- `assert!(b)`.
abbrev pub assert : Bool → Option (Unit {0})
assert true = some tt
assert false = none

pub >>=-eq-some {ℓ κ} :
    {A : Type ℓ} {B : Type κ} (m : Option A) (f : A → Option B) {b : B}
    → (m >>= f) ≡ some b
    → (a : A) × (m ≡ some a) × (f a ≡ some b)
>>=-eq-some none f h = cc
>>=-eq-some (some a) f h = (a, refl, h)

-- The predicate holds of the result, if there is no panic.
unfoldable pub Returns {ℓ κ} : {A : Type ℓ} → (A → Type κ) → Option A → Type κ
Returns P none = Unit
Returns P (some a) = P a

pub Returns-some {ℓ κ} : {A : Type ℓ} (P : A → Type κ) (a : A) → P a → Returns P (some a)
unfolding Returns
Returns-some P a p = p

pub Returns-none {ℓ κ} : {A : Type ℓ} (P : A → Type κ) → Returns P none
unfolding Returns
Returns-none P = tt

pub Returns-bind {ℓ κ μ ν} :
    {A : Type ℓ} {B : Type κ} (Q : A → Type μ) (P : B → Type ν) (m : Option A) (f : A → Option B)
    → Returns Q m
    → ((a : A) → Q a → Returns P (f a))
    → Returns P (m >>= f)
unfolding Returns
Returns-bind Q P none f q h = tt
Returns-bind Q P (some a) f q h = h a q

pub Returns-each {ℓ κ ν} :
    {A : Type ℓ} {B : Type κ} (P : B → Type ν) (m : Option A) (f : A → Option B)
    → ((a : A) → Returns P (f a))
    → Returns P (m >>= f)
unfolding Returns
Returns-each P none f h = tt
Returns-each P (some a) f h = h a

pub Returns-if {ℓ κ} :
    {A : Type ℓ} (P : A → Type κ) (b : Bool) (m k : Option A)
    → Returns P m
    → Returns P k
    → Returns P (if b then m else k)
Returns-if P true m k p q = p
Returns-if P false m k p q = q

pub Returns-elim {ℓ κ ν} :
    {A : Type ℓ} {B : Type κ} (P : B → Type ν) (o : Option A) (m : Option B) (f : A → Option B)
    → Returns P m
    → ((a : A) → Returns P (f a))
    → Returns P (elim o [ none ↦ m | some a ↦ f a ])
Returns-elim P none m f p h = p
Returns-elim P (some a) m f p h = h a

pub Returns-weaken {ℓ κ ν} :
    {A : Type ℓ} (Q : A → Type κ) (P : A → Type ν) (m : Option A)
    → Returns Q m
    → ((a : A) → Q a → P a)
    → Returns P m
unfolding Returns
Returns-weaken Q P none q k = tt
Returns-weaken Q P (some a) q k = k a q

pub Returns-value {ℓ κ} :
    {A : Type ℓ} (P : A → Type κ) (m : Option A) (a : A) → Returns P m → m ≡ some a → P a
unfolding Returns
Returns-value P m a p e = subst (Returns P) e p
