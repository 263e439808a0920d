-- ===== src/Worker/Keeping.antt =====
-- Relations between the trace before and after a step, and the steps that keep them.
use moomacha.Worker.{Step, ◌>>=◌, try_except, perform, Failure, Effect, World, JobDeps}
use moomacha.Base.{◌≡◌, refl, subst, List, ◌∷◌}
use moomacha.Base.Results.{Result, ok, raised}

pub bind_ind :
    {A B : Type 0} (P : Result Failure B × World → Type 0) (m : Step A) (f : A → Step B) (w : World)
    → ((e : Failure) (w' : World) → m w ≡ (raised e, w') → P (raised e, w'))
    → ((a : A) (w' : World) → m w ≡ (ok a, w') → P (f a w'))
    → P ((m >>= f) w)
bind_ind {A} {B} P m f w bad good = go (m w) refl
  where
    go :
        (x : Result Failure A × World)
        → m w ≡ x
        → P (elim x.0 [ ok a ↦ f a x.1 | raised e ↦ (raised e, x.1) ])
    go (raised e, w') eq = bad e w' eq
    go (ok a, w') eq = good a w' eq

abbrev pub caught :
    {A : Type 0} → (Failure → Step A) → Result Failure A × World → Result Failure A × World
caught handler x = elim x.0 [ ok a ↦ (ok a, x.1) | raised e ↦ handler e x.1 ]

-- A preorder on traces that some effects respect.
pub record Relation : Type 1 where
  pub Holds : List Effect → List Effect → Type 0
  pub Allowed : Effect → Type 0
  pub none_done : (t : List Effect) → Holds t t
  pub one_done : (t : List Effect) (e : Effect) → Allowed e → Holds t (e ∷ t)
  pub then_done : (t u v : List Effect) → Holds t u → Holds u v → Holds t v

module _ (r : Relation) where
  abbrev pub Keeps : {A : Type 0} → Step A → Type 0
  Keeps m = (w : World) → r.Holds w.trace (m w).1.trace

  pub Keeps-bind :
      {A B : Type 0} (m : Step A) (f : A → Step B)
      → Keeps m
      → ((a : A) → Keeps (f a))
      → Keeps (m >>= f)
  Keeps-bind m f before after w =
      bind_ind (λ x. r.Holds w.trace x.1.trace) m f w
        (λ e w' eq. subst (λ x. r.Holds w.trace x.1.trace) eq (before w))
        (λ a w' eq.
          r.then_done w.trace w'.trace (f a w').1.trace
            (subst (λ x. r.Holds w.trace x.1.trace) eq (before w)) (after a w'))

  pub Keeps-try_except :
      {A : Type 0} (m : Step A) (handler : Failure → Step A)
      → Keeps m
      → ((e : Failure) → Keeps (handler e))
      → Keeps (try_except m handler)
  Keeps-try_except {A} m handler before after w = go (m w) (before w)
    where
      go :
          (x : Result Failure A × World)
          → r.Holds w.trace x.1.trace
          → r.Holds w.trace (caught handler x).1.trace
      go (ok a, w') kept = kept
      go (raised e, w') kept = r.then_done w.trace w'.trace (handler e w').1.trace kept (after e w')

  module _ {Parsed Tools : Type 0} (deps : JobDeps Parsed Tools) where
    pub Keeps-perform : (e : Effect) → r.Allowed e → Keeps (perform deps e)
    unfolding perform
    Keeps-perform e allowed w = r.one_done w.trace e allowed
