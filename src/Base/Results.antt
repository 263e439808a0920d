-- ===== src/Base/Results.antt =====
-- Results of calls that may raise. The type of the exceptions is the caller's.
use mathlib.Core.Bool.{Bool, true, false}
use mathlib.Core.Path.{◌≡◌, refl}
use mathlib.Core.Option.{Option, none, some}

pub data Result {ℓ κ} (E : Type ℓ) (A : Type κ) : Type (ℓ ⊔ κ) where
  ok : A → Result E A
  raised : E → Result E A

infixl 5 ◌>>=◌
abbrev pub ◌>>=◌ {ℓ κ μ} :
    {E : Type ℓ} {A : Type κ} {B : Type μ} → Result E A → (A → Result E B) → Result E B
ok a >>= f = f a
raised e >>= f = raised e

module _ {ℓ κ} {E : Type ℓ} {A : Type κ} where
  abbrev pub is_ok : Result E A → Bool
  is_ok (ok _) = true
  is_ok (raised _) = false

-- A case split on a call that raises, finds nothing, or finds something.
pub found_ind {ℓ κ μ ν} :
    {E : Type ℓ} {A : Type κ} {B : Type μ} (P : B → Type ν) (r : Result E (Option A)) {x : E → B}
    {n : B} {f : A → B}
    → ((e : E) → r ≡ raised e → P (x e))
    → (r ≡ ok none → P n)
    → ((a : A) → r ≡ ok (some a) → P (f a))
    → P (elim r [ raised e ↦ x e | ok none ↦ n | ok (some a) ↦ f a ])
found_ind P (raised e) bad gone held = bad e refl
found_ind P (ok none) bad gone held = gone refl
found_ind P (ok (some a)) bad gone held = held a refl

-- A case split on a call that raises or returns.
pub result_ind {ℓ κ μ ν} :
    {E : Type ℓ} {A : Type κ} {B : Type μ} (P : B → Type ν) (r : Result E A) {x : E → B} {f : A → B}
    → ((e : E) → P (x e))
    → ((a : A) → P (f a))
    → P (elim r [ raised e ↦ x e | ok a ↦ f a ])
result_ind P (raised e) bad fine = bad e
result_ind P (ok a) bad fine = fine a
