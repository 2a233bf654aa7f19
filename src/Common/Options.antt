-- ===== src/Common/Options.antt =====
-- The monad of results that may be missing: `none` is a fault, an assertion that fails or a NaN.

use mathlib.Core.Option.{Option, none, some}
use mathlib.Core.Bool.{Bool, true, false}

infixl 5 ◌>>=◌ ◌>>◌
abbrev pub ◌>>=◌ {ℓ κ} : {A : Type ℓ} {B : Type κ} → Option A → (A → Option B) → Option B
none >>= f = none
some a >>= f = f a

abbrev pub ◌>>◌ {ℓ} : {B : Type ℓ} → Option (Unit {0}) → Option B → Option B
m >> k = m >>= λ _. k

-- `assert b`
abbrev pub guard : Bool → Option (Unit {0})
guard true = some tt
guard false = none

-- The result is there, and satisfies `P`.
abbrev pub Gives {ℓ} : {A : Type ℓ} → (A → Type 0) → Option A → Type 0
Gives P none = ⊥
Gives P (some a) = P a

pub Gives-bind {ℓ} :
    {A : Type 0} {B : Type ℓ} {P : A → Type 0} (Q : B → Type 0) (m : Option A) (f : A → Option B)
    → Gives P m
    → ((x : A) → P x → Gives Q (f x))
    → Gives Q (m >>= f)
Gives-bind Q none f g k = absurd g
Gives-bind Q (some x) f g k = k x g

pub Gives-weaken :
    {A : Type 0} {P : A → Type 0} (Q : A → Type 0) (m : Option A)
    → Gives P m
    → ((x : A) → P x → Q x)
    → Gives Q m
Gives-weaken Q none g k = absurd g
Gives-weaken Q (some x) g k = k x g
