-- ===== src/Base/Table.antt =====
-- A database table as a list of rows with a numeric primary key.
use Prim.Native.Nat.{ℕ, suc}
use mathlib.Core.Path.{◌≡◌, refl, ap, sym, ◌∙◌, subst}
use mathlib.Core.Bool.{Bool, true, false}
use mathlib.Core.Logic.{◌≢◌, ◌⊎◌, inl, inr}
use mathlib.Core.Option.{Option, none, some}
use mathlib.Core.Option
use mathlib.Core.List.{List, [], ◌∷◌}
use native.Mathlib.Omega.{arith}
use moomacha.Base.Tests.{◌==◌, if◌then◌else◌, Bool-cases}
use moomacha.Base.Lists.{All, All-impl, In}

module _ {R : Type 0} (key : R → ℕ) where
  -- `session.get(Row, id)`
  unfoldable pub get : ℕ → List R → Option R
  get k [] = none
  get k (r ∷ rs) = if key r == k then some r else get k rs

  -- Assignments to the row with this key, committed.
  unfoldable pub update : ℕ → (R → R) → List R → List R
  update k f [] = []
  update k f (r ∷ rs) = (if key r == k then f r else r) ∷ update k f rs

  abbrev pub NodupKeys : List R → Type 0
  NodupKeys [] = Unit
  NodupKeys (r ∷ rs) = (get (key r) rs ≡ none) × NodupKeys rs

module _ {R : Type 0} (key : R → ℕ) where
  pub get-key : (k : ℕ) (rs : List R) (r : R) → get key k rs ≡ some r → key r ≡ k
  unfolding get
  get-key k [] r e = cc
  get-key k (x ∷ rs) r e = ground (arith, get-key k rs r)

  pub All-get {κ} :
      (P : R → Type κ) (k : ℕ) (rs : List R) (r : R) → All P rs → get key k rs ≡ some r → P r
  unfolding get
  All-get P k [] r h e = cc
  All-get P k (x ∷ rs) r h e = elim (Bool-cases (key x == k)) [
    | inl hit ↦ subst P (cc (hit)) h.0
    | inr miss ↦ All-get P k rs r h.1 (ground arith)
  ]

  pub get-update :
      (f : R → R) (j k : ℕ) (rs : List R)
      → ((r : R) → key (f r) ≡ key r)
      → get key j (update key k f rs)
        ≡ (if j == k then Option.map f (get key j rs) else get key j rs)
  unfolding get update
  get-update f j k [] same = ground arith
  get-update f j k (r ∷ rs) same = ground (arith, same r, get-update f j k rs same)

  pub update-NodupKeys :
      (f : R → R) (k : ℕ) (rs : List R)
      → ((r : R) → key (f r) ≡ key r)
      → NodupKeys key rs
      → NodupKeys key (update key k f rs)
  unfolding update
  update-NodupKeys f k [] same h = tt
  update-NodupKeys f k (r ∷ rs) same h =
      ground (arith, same r, get-update f (key r) k rs same, update-NodupKeys f k rs same h.1)

  -- Each row is the one that its key finds.
  pub get_self : (rs : List R) → NodupKeys key rs → All (λ r. get key (key r) rs ≡ some r) rs
  unfolding get
  get_self [] h = tt
  get_self (r ∷ rs) h = (
    ground arith,
    All-impl (λ x. get key (key x) rs ≡ some x) (λ x. get key (key x) (r ∷ rs) ≡ some x) rs
        (λ x found. elim (Bool-cases (key r == key x)) [
          | inl same ↦ ground arith
          | inr other ↦ ground arith
        ])
        (get_self rs h.1),
  )

  -- What an update makes of a fact about every row.
  pub All-update {κ μ} :
      (P : R → Type κ) (Q : R → Type μ) (f : R → R) (k : ℕ) (rs : List R)
      → ((r : R) → P r → key r ≡ k → Q (f r))
      → ((r : R) → P r → key r ≢ k → Q r)
      → All P rs
      → All Q (update key k f rs)
  unfolding update
  All-update P Q f k [] hit miss h = tt
  All-update P Q f k (r ∷ rs) hit miss h = elim (Bool-cases (key r == k)) [
    | inl e ↦ rw e (hit r h.0 (ground arith), All-update P Q f k rs hit miss h.1)
    | inr e ↦ rw e (miss r h.0 (ground arith), All-update P Q f k rs hit miss h.1)
  ]

  -- A loop over rows that were read before it: those that pass `test` are updated by key.
  unfoldable pub sweep : (R → Bool) → (ℕ → R → R) → ℕ → List R → List R → List R
  sweep test f i [] table = table
  sweep test f i (r ∷ rs) table =
      sweep test f (suc i) rs (if test r then update key (key r) (f i) table else table)

  -- A goal that every updated row meets, and every row that fails the test.
  pub All-sweep {κ} :
      (P : R → Type κ) (test : R → Bool) (f : ℕ → R → R) (i : ℕ) (seen table : List R)
      → ((i : ℕ) (r : R) → P (f i r))
      → ((r : R) → test r ≡ false → P r)
      → All (λ r. P r ⊎ In r seen) table
      → All P (sweep test f i seen table)
  unfolding sweep
  All-sweep P test f i [] table hit miss h =
      All-impl (λ r. P r ⊎ ⊥) P table (λ r s. elim s [ inl p ↦ p | inr e ↦ absurd e ]) h
  All-sweep P test f i (x ∷ xs) table hit miss h =
      All-sweep P test f (suc i) xs (if test x then update key (key x) (f i) table else table) hit
        miss
        (elim (Bool-cases (test x)) [
          | inl e ↦ rw e (
              All-update (λ r. P r ⊎ In r (x ∷ xs)) (λ r. P r ⊎ In r xs) (f i) (key x) table
                (λ r _ _. inl (hit i r))
                (λ r s other. elim s [
                  | inl p ↦ inl p
                  | inr m ↦ elim m [
                    | inl same ↦ absurd (other (ap key (sym same)))
                    | inr m' ↦ inr m'
                  ]
                ])
                h)
          | inr e ↦ rw e (
              All-impl (λ r. P r ⊎ In r (x ∷ xs)) (λ r. P r ⊎ In r xs) table
                (λ r s. elim s [
                  | inl p ↦ inl p
                  | inr m ↦ elim m [ inl same ↦ inl (miss r (rw (← same) e)) | inr m' ↦ inr m' ]
                ])
                h)
        ])

  pub sweep_idle :
      (test : R → Bool) (f : ℕ → R → R) (i : ℕ) (seen table : List R)
      → All (λ r. test r ≡ false) seen
      → sweep test f i seen table ≡ table
  unfolding sweep
  sweep_idle test f i [] table h = refl
  sweep_idle test f i (x ∷ xs) table h = rw (h.0) (sweep_idle test f (suc i) xs table h.1)

  -- A row that no element of the loop updates is still there.
  pub get-sweep :
      (test : R → Bool) (f : ℕ → R → R) (i k : ℕ) (seen table : List R)
      → ((i : ℕ) (r : R) → key (f i r) ≡ key r)
      → All (λ r. test r ≡ true → key r ≢ k) seen
      → get key k (sweep test f i seen table) ≡ get key k table
  unfolding sweep
  get-sweep test f i k [] table same h = refl
  get-sweep test f i k (x ∷ xs) table same h =
      get-sweep test f (suc i) k xs (if test x then update key (key x) (f i) table else table) same
        h.1
      ∙ elim (Bool-cases (test x)) [
        | inl e ↦ rw e (ground (arith, get-update (f i) k (key x) table (same i), h.0 e))
        | inr e ↦ rw e
      ]
