-- ===== src/Artifacts/Refinement.antt =====
-- services/artifact_store.py: over any calls, the store keeps the contract of its artifacts.
use moomacha.Artifacts.{art_id, is_opened, with_status, expire_if_due, expired, ArtifactRow, Store}
use moomacha.Artifacts.Phases.{
  IsIn, call, promised, history, promises, Phase, pending, won, lapsed, withdrawn, missing, Call,
  submits, looks,
}
use moomacha.Artifacts.Submitting.{updated, Same, IsIn-Same, Follows, submits-Follows}
use moomacha.Base.{
  ℕ, ◌≡◌, refl, sym, subst, ◌∙◌, ◌≢◌, inl, inr, true, false, ◌&&◌, none, some, List, [], ◌∷◌, arith,
  leb, ◌==◌, ==_iff, ==_refl, Bool-cases, Option-cases, if_ind, get, update, get-key, get-update,
}

module _ (id now : ℕ) (store : Store) (row : ArtifactRow) where
  look_idle :
      get art_id id store.artifacts ≡ some row
      → (is_opened row && leb row.expires_at now) ≡ false
      → (call (looks id now) store).1 ≡ store
  unfolding call expire_if_due
  look_idle stored idle = rw (stored, call) (ground (arith, idle))

  look_due :
      get art_id id store.artifacts ≡ some row
      → (is_opened row && leb row.expires_at now) ≡ true
      → (call (looks id now) store).1
        ≡ record store { artifacts = update art_id id (with_status expired) store.artifacts }
  unfolding call expire_if_due
  look_due stored due =
      let same : row.id ≡ id = get-key art_id id store.artifacts row stored in
      rw (stored, call) (rw (same, stored) (ground (arith, due)))

look_gone :
    (id now : ℕ) (store : Store)
    → get art_id id store.artifacts ≡ none
    → (call (looks id now) store).1 ≡ store
unfolding call
look_gone id now store gone = rw (gone, call) refl

look-Same :
    (id other now : ℕ) (store : Store) → other ≢ id → Same id store (call (looks other now) store).1
look-Same id other now store apart = elim (Option-cases (get art_id other store.artifacts)) [
  | inl gone ↦ subst (Same id store) (sym (look_gone other now store gone)) (refl, refl)
  | inr (row, stored) ↦ elim (Bool-cases (is_opened row && leb row.expires_at now)) [
    | inr idle ↦
        subst (Same id store) (sym (look_idle other now store row stored idle)) (refl, refl)
    | inl due ↦ subst (Same id store) (sym (look_due other now store row stored due)) (
      ground (
        arith,
        get-update art_id (with_status expired) id other store.artifacts (λ r. refl),
        apart,
      ),
      refl,
    )
  ]
]

-- A look at an artifact that is not open.
look_shut :
    (id now : ℕ) (store : Store) (p : Phase) (row : ArtifactRow)
    → get art_id id store.artifacts ≡ some row
    → is_opened row ≡ false
    → IsIn p id store
    → IsIn p id (call (looks id now) store).1
look_shut id now store p row stored shut held =
    subst (IsIn p id) (sym (look_idle id now store row stored (ground (arith, shut)))) held

looked :
    (id now : ℕ) (store : Store) (p : Phase)
    → IsIn p id store
    → IsIn (promised id (looks id now) p).1 id (call (looks id now) store).1
unfolding promised
looked id now store (pending t) (art, stored, was_open, until, none_yet) =
    elim (Bool-cases (leb t now)) [
      | inl due ↦
          rw (==_refl id, due)
            (subst (IsIn lapsed id)
              (sym (look_due id now store art stored (ground (arith, was_open, until, due))))
              (
                with_status expired art,
                updated (with_status expired) id store art (λ r. refl) stored,
                refl,
                none_yet,
              ))
      | inr early ↦
          rw (==_refl id, early)
            (subst (IsIn (pending t) id)
              (sym (look_idle id now store art stored (ground (arith, until, early))))
              (art, stored, was_open, until, none_yet))
    ]
looked id now store (won w) (art, stored, done, found) =
    look_shut id now store (won w) art stored (ground (arith, done)) (art, stored, done, found)
looked id now store lapsed (art, stored, done, found) =
    look_shut id now store lapsed art stored (ground (arith, done)) (art, stored, done, found)
looked id now store withdrawn (art, stored, done, found) =
    look_shut id now store withdrawn art stored (ground (arith, done)) (art, stored, done, found)
looked id now store missing (gone, found) =
    subst (IsIn missing id) (sym (look_gone id now store gone)) (gone, found)

not_promised :
    (id other now : ℕ) (p : Phase) → other ≢ id → promised id (looks other now) p ≡ ([], p)
unfolding promised
not_promised id other now (pending t) apart = ground (arith, apart)
not_promised id other now (won w) apart = refl
not_promised id other now lapsed apart = refl
not_promised id other now withdrawn apart = refl
not_promised id other now missing apart = refl

no_answer : (id other now : ℕ) (p : Phase) → (promised id (looks other now) p).0 ≡ []
unfolding promised
no_answer id other now (pending t) = ground arith
no_answer id other now (won w) = refl
no_answer id other now lapsed = refl
no_answer id other now withdrawn = refl
no_answer id other now missing = refl

looks_no_answer : (id now : ℕ) (store : Store) → (call (looks id now) store).0 ≡ []
unfolding call
looks_no_answer id now store = elim (Option-cases (get art_id id store.artifacts)) [
  | inl gone ↦ rw (gone, call) refl
  | inr (row, stored) ↦ rw (stored, call) refl
]

call-Follows :
    (id : ℕ) (c : Call) (store : Store) (p : Phase)
    → IsIn p id store
    → Follows id c (promised id c p) (call c store)
call-Follows id (submits sub now) store p held = submits-Follows id sub now store p held
call-Follows id (looks other now) store p held = (
  (if_ind (λ x. x ≡ []) (other == id) (λ mine. looks_no_answer other now store) (λ apart. refl))
      ∙ sym (no_answer id other now p),
  elim (Bool-cases (other == id)) [
    | inl mine ↦
        let e : other ≡ id = (==_iff other id).0 mine in
        subst (λ k. IsIn (promised id (looks k now) p).1 id (call (looks k now) store).1) (sym e)
          (looked id now store p held)
    | inr apart ↦
        let ne : other ≢ id = ground (arith, apart) in
        subst (λ x. IsIn x.1 id (call (looks other now) store).1)
          (sym (not_promised id other now p ne))
          (IsIn-Same p id store _ (look-Same id other now store ne) held)
  ],
)

-- For any calls that follow each other, on any artifacts: what the submissions to one artifact are
-- answered, and the phase of its rows at the end, are those that a contract of five phases gives by
-- itself.
pub history-promises :
    (id : ℕ) (calls : List Call) (store : Store) (p : Phase)
    → IsIn p id store
    → ((history id calls store).0 ≡ (promises id calls p).0)
      × IsIn (promises id calls p).1 id (history id calls store).1
unfolding history promises
history-promises id [] store p held = (refl, held)
history-promises id (c ∷ calls) store p held =
    let (same, next) = call-Follows id c store p held in
    let (more, last) = history-promises id calls (call c store).1 (promised id c p).1 next in
    (rw (same, more) refl, last)
