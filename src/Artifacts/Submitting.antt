-- ===== src/Artifacts/Submitting.antt =====
-- services/artifact_store.py: a submission keeps the contract of its artifact and leaves the others alone.
use moomacha.Artifacts.{
  art_id, is_opened, existing_submission, with_status, settled, closed_outcome, as_submitted,
  commit_submission, accept_submission, expired, ArtifactRow, SubmissionRow, Store, accepted,
  was_expired, was_revoked, SubmissionResult, Event, artifact_expired, submission_received,
}
use moomacha.Artifacts.Phases.{
  submit, IsIn, call, promised, is_about, Phase, pending, won, lapsed, withdrawn, missing, Call,
  submits,
}
use moomacha.Base.{
  ℕ, ◌≤◌, ◌<◌, ◌≡◌, refl, sym, ap, subst, ◌∙◌, ◌≢◌, inl, inr, true, false, not, ◌&&◌, none, some,
  List, [], ◌∷◌, arith, ltb, leb, ◌==◌, if◌then◌else◌, ==_iff, ==_refl, Bool-cases, if_ind,
  Option_ind, get, update, get-update,
}

module _ (sub : SubmissionRow) (now : ℕ) (store : Store) (art : ArtifactRow) where
  abbrev Stored : Type 0
  Stored = get art_id sub.artifact_id store.artifacts ≡ some art

  abbrev accept : SubmissionResult × Store × List Event
  accept = accept_submission sub (λ s. s) (λ i. now) store

  accept_closed :
      Stored
      → is_opened art ≡ false
      → accept ≡ (
        settled sub.submission_id
            (existing_submission sub.artifact_id store.submissions)
            (closed_outcome art.status),
        store,
        [],
      )
  unfolding accept_submission
  accept_closed stored shut = ground (arith, stored, shut)

  accept_late :
      Stored
      → is_opened art ≡ true
      → art.expires_at ≤ now
      → accept ≡ (
        record { outcome = was_expired; submission = none },
        record store {
          artifacts = update art_id sub.artifact_id (with_status expired) store.artifacts;
        },
        artifact_expired (with_status expired art) ∷ [],
      )
  unfolding accept_submission
  accept_late stored was_open due = ground (arith, stored, was_open, due)

  accept_timely :
      Stored
      → is_opened art ≡ true
      → now < art.expires_at
      → existing_submission sub.artifact_id store.submissions ≡ none
      → accept ≡ (
        record { outcome = accepted; submission = some sub },
        record {
          artifacts = update art_id sub.artifact_id (as_submitted now) store.artifacts;
          submissions = sub ∷ store.submissions;
        },
        submission_received (as_submitted now art) ∷ [],
      )
  unfolding accept_submission commit_submission
  accept_timely stored was_open in_time none_yet =
      ground (arith, stored, was_open, in_time, none_yet)

accept_missing :
    (sub : SubmissionRow) (now : ℕ) (store : Store)
    → get art_id sub.artifact_id store.artifacts ≡ none
    → accept_submission sub (λ s. s) (λ i. now) store
      ≡ (record { outcome = was_revoked; submission = none }, store, [])
unfolding accept_submission
accept_missing sub now store gone = rw (gone, accept_submission) refl

-- The answer and the rows after a submission are those of the contract.
abbrev Agrees :
    SubmissionRow → SubmissionResult × Phase → SubmissionResult × Store × List Event → Type 0
Agrees sub promise answer = (answer.0 ≡ promise.0) × IsIn promise.1 sub.artifact_id answer.1

pub updated :
    (f : ArtifactRow → ArtifactRow) (id : ℕ) (store : Store) (art : ArtifactRow)
    → ((r : ArtifactRow) → (f r).id ≡ r.id)
    → get art_id id store.artifacts ≡ some art
    → get art_id id (update art_id id f store.artifacts) ≡ some (f art)
updated f id store art same stored =
    ground (arith, get-update art_id f id id store.artifacts same, ==_refl id, stored)

accept-submit :
    (sub : SubmissionRow) (now : ℕ) (store : Store) (p : Phase)
    → IsIn p sub.artifact_id store
    → Agrees sub (submit sub now p) (accept_submission sub (λ s. s) (λ i. now) store)
unfolding submit settled closed_outcome existing_submission
accept-submit sub now store (pending t) (art, stored, was_open, until, none_yet) =
    elim (Bool-cases (ltb now t)) [
      | inl early ↦
          subst (Agrees sub (submit sub now (pending t)))
            (sym (
              accept_timely sub now store art stored (ground (arith, was_open))
                (ground (arith, until)) none_yet))
            (rw early (
              refl,
              (
                as_submitted now art,
                updated (as_submitted now) sub.artifact_id store art (λ r. refl) stored,
                refl,
                rw (==_refl sub.artifact_id) refl,
              ),
            ))
      | inr late ↦
          subst (Agrees sub (submit sub now (pending t)))
            (sym (
              accept_late sub now store art stored (ground (arith, was_open))
                (ground (arith, until))))
            (rw late (
              refl,
              (
                with_status expired art,
                updated (with_status expired) sub.artifact_id store art (λ r. refl) stored,
                refl,
                none_yet,
              ),
            ))
    ]
accept-submit sub now store (won w) (art, stored, done, found) =
    subst (Agrees sub (submit sub now (won w)))
      (sym (accept_closed sub now store art stored (ground (arith, done))))
      (ground (arith, done, found), (art, stored, done, found))
accept-submit sub now store lapsed (art, stored, done, found) =
    subst (Agrees sub (submit sub now lapsed))
      (sym (accept_closed sub now store art stored (ground (arith, done))))
      (ground (arith, done, found), (art, stored, done, found))
accept-submit sub now store withdrawn (art, stored, done, found) =
    subst (Agrees sub (submit sub now withdrawn))
      (sym (accept_closed sub now store art stored (ground (arith, done))))
      (ground (arith, done, found), (art, stored, done, found))
accept-submit sub now store missing (gone, found) =
    subst (Agrees sub (submit sub now missing)) (sym (accept_missing sub now store gone))
      (refl, (gone, found))

-- Nothing about the artifact changes.
abbrev pub Same : ℕ → Store → Store → Type 0
Same id store after =
    (get art_id id after.artifacts ≡ get art_id id store.artifacts)
    × (existing_submission id after.submissions ≡ existing_submission id store.submissions)

pub IsIn-Same :
    (p : Phase) (id : ℕ) (store after : Store)
    → Same id store after
    → IsIn p id store
    → IsIn p id after
IsIn-Same (pending t) id store after (a, b) (art, stored, was_open, until, none_yet) =
    (art, a ∙ stored, was_open, until, b ∙ none_yet)
IsIn-Same (won w) id store after (a, b) (art, stored, done, found) =
    (art, a ∙ stored, done, b ∙ found)
IsIn-Same lapsed id store after (a, b) (art, stored, done, found) =
    (art, a ∙ stored, done, b ∙ found)
IsIn-Same withdrawn id store after (a, b) (art, stored, done, found) =
    (art, a ∙ stored, done, b ∙ found)
IsIn-Same missing id store after (a, b) (gone, found) = (a ∙ gone, b ∙ found)

accept-Same :
    (id : ℕ) (sub : SubmissionRow) (now : ℕ) (store : Store)
    → sub.artifact_id ≢ id
    → Same id store (accept_submission sub (λ s. s) (λ i. now) store).1
unfolding accept_submission commit_submission existing_submission
accept-Same id sub now store other =
    Option_ind (λ (x : SubmissionResult × Store × List Event). Same id store x.1)
      (get art_id sub.artifact_id store.artifacts) (λ gone. (refl, refl))
      (λ art stored.
        if_ind (λ (x : SubmissionResult × Store × List Event). Same id store x.1)
          (is_opened art && leb art.expires_at now)
          (λ late. (
            ground (
              arith,
              get-update art_id (with_status expired) id sub.artifact_id store.artifacts
                  (λ r. refl),
            ),
            refl,
          ))
          (λ fine.
            if_ind (λ (x : SubmissionResult × Store × List Event). Same id store x.1)
              (not (is_opened art)) (λ shut. (refl, refl))
              (λ open_now.
                Option_ind (λ (x : SubmissionResult × Store × List Event). Same id store x.1)
                  (existing_submission sub.artifact_id store.submissions)
                  (λ unclaimed. (
                    ground (
                      arith,
                      get-update art_id (as_submitted now) id sub.artifact_id store.artifacts
                          (λ r. refl),
                    ),
                    ground arith,
                  ))
                  (λ winner found. (refl, refl)))))

-- The answers to the artifact and its phase after a call are those of the contract.
abbrev pub Follows :
    ℕ → Call → List SubmissionResult × Phase → List SubmissionResult × Store → Type 0
Follows id c promise answer =
    ((if is_about id c then answer.0 else []) ≡ promise.0) × IsIn promise.1 id answer.1

pub submits-Follows :
    (id : ℕ) (sub : SubmissionRow) (now : ℕ) (store : Store) (p : Phase)
    → IsIn p id store
    → Follows id (submits sub now) (promised id (submits sub now) p) (call (submits sub now) store)
unfolding call promised
submits-Follows id sub now store p held = elim (Bool-cases (sub.artifact_id == id)) [
  | inl mine ↦
      let e : sub.artifact_id ≡ id = (==_iff sub.artifact_id id).0 mine in
      let (same, next) = accept-submit sub now store p (subst (λ k. IsIn p k store) (sym e) held) in
      rw mine (
        ap (λ r. r ∷ []) same,
        subst (λ k. IsIn (submit sub now p).1 k (accept_submission sub (λ s. s) (λ i. now) store).1)
            e next,
      )
  | inr others ↦
      rw others
        (refl, IsIn-Same p id store _ (accept-Same id sub now store (ground (arith, others))) held)
]
