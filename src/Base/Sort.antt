-- ===== src/Base/Sort.antt =====
-- `ORDER BY` a numeric column: a stable insertion sort. Rows that tie keep the table's order.
use Prim.Native.Nat.{ℕ, suc, ◌≤◌}
use mathlib.Core.Path.{◌≡◌, refl, ap, ◌∙◌, subst}
use mathlib.Core.Bool.{Bool}
use mathlib.Core.Logic.{inl, inr}
use mathlib.Core.Option.{Option, none, some}
use mathlib.Core.List.{List, [], ◌∷◌}
use native.Mathlib.Omega.{arith}
use moomacha.Base.Tests.{leb, if◌then◌else◌, Bool-cases, Option-cases}
use moomacha.Base.Lists.{length, count, All, In}

module _ {ℓ} {R : Type ℓ} (column : R → ℕ) where
  insert_by : R → List R → List R
  insert_by r [] = r ∷ []
  insert_by r (x ∷ xs) = if leb (column r) (column x) then r ∷ x ∷ xs else x ∷ insert_by r xs

  unfoldable pub order_by : List R → List R
  unfolding insert_by
  order_by [] = []
  order_by (x ∷ xs) = insert_by x (order_by xs)

  -- `ORDER BY column LIMIT 1`
  unfoldable pub first_by : List R → Option R
  first_by [] = none
  first_by (x ∷ xs) = elim (first_by xs) [
    | none ↦ some x
    | some y ↦ if leb (column x) (column y) then some x else some y
  ]

  All-column_mono :
      (a b : R) (xs : List R)
      → column a ≤ column b
      → All (λ x. column b ≤ column x) xs
      → All (λ x. column a ≤ column x) xs
  All-column_mono a b [] h hs = tt
  All-column_mono a b (x ∷ xs) h hs = (omega arith, All-column_mono a b xs h hs.1)

  first_by-nil : (xs : List R) → first_by xs ≡ none → xs ≡ []
  unfolding first_by
  first_by-nil [] e = refl
  first_by-nil (x ∷ xs) e = ground arith

  pub first_by-le : (xs : List R) (r : R) → first_by xs ≡ some r → All (λ x. column r ≤ column x) xs
  unfolding first_by
  first_by-le [] r e = tt
  first_by-le (x ∷ xs) r e = elim (Option-cases (first_by xs)) [
    | inl empty ↦ rw (first_by-nil xs empty) (ground arith)
    | inr (y, found) ↦
        (ground arith, All-column_mono r y xs (ground arith) (first_by-le xs y found))
  ]

  pub All-first_by {κ} :
      (P : R → Type κ) (xs : List R) (r : R) → All P xs → first_by xs ≡ some r → P r
  unfolding first_by
  All-first_by P [] r h e = cc
  All-first_by P (x ∷ xs) r h e = elim (Option-cases (first_by xs)) [
    | inl empty ↦ subst P (ground arith) h.0
    | inr (y, found) ↦ elim (Bool-cases (leb (column x) (column y))) [
      | inl le ↦ subst P (ground arith) h.0
      | inr gt ↦ subst P (ground arith) (All-first_by P xs y h.1 found)
    ]
  ]

  length-insert_by : (r : R) (xs : List R) → length (insert_by r xs) ≡ suc (length xs)
  unfolding insert_by
  length-insert_by r [] = refl
  length-insert_by r (x ∷ xs) = ground (arith, length-insert_by r xs)

  pub length-order_by : (xs : List R) → length (order_by xs) ≡ length xs
  unfolding order_by
  length-order_by [] = refl
  length-order_by (x ∷ xs) = length-insert_by x (order_by xs) ∙ ap suc (length-order_by xs)

  count-insert_by :
      (p : R → Bool) (r : R) (xs : List R) → count p (insert_by r xs) ≡ count p (r ∷ xs)
  unfolding insert_by
  count-insert_by p r [] = refl
  count-insert_by p r (x ∷ xs) = ground (arith, count-insert_by p r xs)

  pub count-order_by : (p : R → Bool) (xs : List R) → count p (order_by xs) ≡ count p xs
  unfolding order_by
  count-order_by p [] = refl
  count-order_by p (x ∷ xs) = ground (arith, count-insert_by p x (order_by xs), count-order_by p xs)

  All-insert_by {κ} :
      (P : R → Type κ) (r : R) (xs : List R) → P r → All P xs → All P (insert_by r xs)
  unfolding insert_by
  All-insert_by P r [] h hs = (h, tt)
  All-insert_by P r (x ∷ xs) h hs = elim (Bool-cases (leb (column r) (column x))) [
    | inl e ↦ rw e (h, hs)
    | inr e ↦ rw e (hs.0, All-insert_by P r xs h hs.1)
  ]

  pub All-order_by {κ} : (P : R → Type κ) (xs : List R) → All P xs → All P (order_by xs)
  unfolding order_by
  All-order_by P [] h = tt
  All-order_by P (x ∷ xs) h = All-insert_by P x (order_by xs) h.0 (All-order_by P xs h.1)

module _ {R : Type 0} (column : R → ℕ) where
  In-insert_by : (r a : R) (xs : List R) → In a (r ∷ xs) → In a (insert_by column r xs)
  unfolding insert_by
  In-insert_by r a [] m = m
  In-insert_by r a (x ∷ xs) m = elim (Bool-cases (leb (column r) (column x))) [
    | inl e ↦ rw e m
    | inr e ↦ rw e (elim m [
      | inl same ↦ inr (In-insert_by r a xs (inl same))
      | inr later ↦ elim later [
        | inl here ↦ inl here
        | inr there ↦ inr (In-insert_by r a xs (inr there))
      ]
    ])
  ]

  pub In-order_by : (a : R) (xs : List R) → In a xs → In a (order_by column xs)
  unfolding order_by
  In-order_by a [] m = m
  In-order_by a (x ∷ xs) (inl same) = In-insert_by x a (order_by column xs) (inl same)
  In-order_by a (x ∷ xs) (inr m) = In-insert_by x a (order_by column xs) (inr (In-order_by a xs m))
