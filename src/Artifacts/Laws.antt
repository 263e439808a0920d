-- ===== src/Artifacts/Laws.antt =====
-- services/artifact_store.py: the token of an artifact, and which submission is recorded.
use moomacha.Base.{
  ℕ, ◌≤◌, ◌<◌, String, ◌≡◌, refl, ap, ◌≢◌, ◌↔◌, inl, inr, true, false, ◌&&◌, Option, none, some, [],
  ◌∷◌, arith, str_eq, eq_iff, leb, if◌then◌else◌, ==_refl, Bool-cases, Option-cases, get, update,
  get-update,
}
use moomacha.Artifacts.{
  art_id, is_opened, existing_submission, get_verified, settled, closed_outcome, as_submitted,
  commit_submission, accept_submission, Status, opened, ArtifactRow, SubmissionRow, Store, accepted,
  duplicate, conflict, was_expired, submission_received,
}

-- A row is read exactly if it is the row of the id and the hash of the token is the row's.
pub get_verified_iff :
    (hash_token : String → String) (id : ℕ) (raw_token : String) (store : Store) (row : ArtifactRow)
    → (get_verified hash_token id raw_token store ≡ some row)
      ↔ ((get art_id id store.artifacts ≡ some row) × (row.token_hash ≡ hash_token raw_token))
unfolding get_verified
get_verified_iff hash_token id raw_token store row =
    elim (Option-cases (get art_id id store.artifacts)) [
      | inl e ↦ (λ h. ground arith, λ h. ground arith)
      | inr (r, e) ↦ (
        λ h. ground (arith, eq_iff r.token_hash (hash_token raw_token)),
        λ h. ground (arith, eq_iff r.token_hash (hash_token raw_token)),
      )
    ]

-- Which run of `accept_submission` accepts: the artifact was open and in time, and nobody had won
-- at the commit.
record Accepts (sub : SubmissionRow) (others : Store → Store) (clock : ℕ → ℕ) (store : Store)
    : Type 0 where
  art : ArtifactRow
  stored : get art_id sub.artifact_id store.artifacts ≡ some art
  was_open : art.status ≡ opened
  in_time : clock 0 < art.expires_at
  unclaimed : existing_submission sub.artifact_id (others store).submissions ≡ none

module _ (sub : SubmissionRow) (others : Store → Store) (clock : ℕ → ℕ) (store : Store) where
  commit_accepts :
      (art : ArtifactRow) (now : ℕ) (s : Store)
      → (commit_submission art sub now s).0.outcome ≡ accepted
      → existing_submission sub.artifact_id s.submissions ≡ none
  unfolding commit_submission settled
  commit_accepts art now s h =
      elim (Option-cases (existing_submission sub.artifact_id s.submissions)) [
        | inl e ↦ e
        | inr (w, e) ↦ absurd (ground (arith, e))
      ]

  settled-ne-accepted :
      (status : Status) (found : Option SubmissionRow)
      → (settled sub.submission_id found (closed_outcome status)).outcome ≢ accepted
  unfolding settled closed_outcome
  settled-ne-accepted status none h = ground arith
  settled-ne-accepted status (some s) h = ground arith

  accepted-Accepts :
      (accept_submission sub others clock store).0.outcome ≡ accepted
      → Accepts sub others clock store
  unfolding accept_submission
  accepted-Accepts h = elim (Option-cases (get art_id sub.artifact_id store.artifacts)) [
    | inl e ↦ absurd (ground (arith, e))
    | inr (art, e) ↦ elim (Bool-cases (is_opened art && leb art.expires_at (clock 0))) [
      | inl late ↦ absurd (ground (arith, e))
      | inr fine ↦ elim (Bool-cases (is_opened art)) [
        | inr shut ↦ absurd (
            settled-ne-accepted art.status (existing_submission sub.artifact_id store.submissions)
              (rw (e, fine, shut, accept_submission) at h))
        | inl open_now ↦ record {
          art = art;
          stored = e;
          was_open = ground arith;
          in_time = ground arith;
          unclaimed =
              commit_accepts art (clock 1) (others store)
                (rw (e, fine, open_now, accept_submission) at h);
        }
      ]
    ]
  ]

  winning_store : Store
  winning_store = record {
    artifacts = update art_id sub.artifact_id (as_submitted (clock 1)) (others store).artifacts;
    submissions = sub ∷ (others store).submissions;
  }

  accept_submission_lem :
      (a : Accepts sub others clock store)
      → accept_submission sub others clock store ≡ (
        record { outcome = accepted; submission = some sub },
        winning_store,
        submission_received (as_submitted (clock 1) a.art) ∷ [],
      )
  unfolding accept_submission commit_submission winning_store
  accept_submission_lem a =
      let open_now : is_opened a.art ≡ true = ground (arith, a.was_open) in
      let fine : (is_opened a.art && leb a.art.expires_at (clock 0)) ≡ false =
        ground (arith, a.in_time) in
      rw (a.stored, accept_submission) (rw (fine, open_now) (rw (a.unclaimed, commit_submission)))

  -- An accepted submission met an open artifact before its expiry and no recorded submission at the
  -- commit, whatever other transactions did in between, and is the recorded one afterwards.
  accepted_wins :
      (accept_submission sub others clock store).0.outcome ≡ accepted
      → (art : ArtifactRow) × (get art_id sub.artifact_id store.artifacts ≡ some art)
        × (art.status ≡ opened)
        × (clock 0 < art.expires_at)
        × (existing_submission sub.artifact_id (others store).submissions ≡ none)
        × (existing_submission sub.artifact_id
              (accept_submission sub others clock store).1.submissions
            ≡ some sub)
  unfolding existing_submission winning_store
  accepted_wins h =
      let a = accepted-Accepts h in
      (
        a.art,
        a.stored,
        a.was_open,
        a.in_time,
        a.unclaimed,
        rw (accept_submission_lem a) (rw (==_refl sub.artifact_id)),
      )

  -- After an accepted submission, if its artifact was still there at the commit, any other to the
  -- artifact is answered duplicate or conflict by its id, with the winner, and changes nothing.
  pub later_submission :
      (again : SubmissionRow) (others' : Store → Store) (later : ℕ → ℕ) (art : ArtifactRow)
      → (accept_submission sub others clock store).0.outcome ≡ accepted
      → get art_id sub.artifact_id (others store).artifacts ≡ some art
      → again.artifact_id ≡ sub.artifact_id
      → accept_submission again others' later (accept_submission sub others clock store).1 ≡ (
        record {
          outcome = if str_eq sub.submission_id again.submission_id then duplicate else conflict;
          submission = some sub;
        },
        (accept_submission sub others clock store).1,
        [],
      )
  unfolding accept_submission settled closed_outcome
  later_submission again others' later art h kept same =
      rw (accept_submission_lem (accepted-Accepts h)) (replay same)
    where
      stored :
          get art_id again.artifact_id winning_store.artifacts ≡ some (as_submitted (clock 1) art)
      stored =
          unfold winning_store in
          ground (
            arith,
            kept,
            same,
            get-update art_id (as_submitted (clock 1)) again.artifact_id sub.artifact_id
                (others store).artifacts (λ r. refl),
            ap (λ x. get art_id x (others store).artifacts) same,
          )

      found : existing_submission again.artifact_id winning_store.submissions ≡ some sub
      found = unfold winning_store existing_submission in ground (arith, same)

      replay :
          again.artifact_id ≡ sub.artifact_id
          → accept_submission again others' later winning_store ≡ (
            record {
              outcome =
                  if str_eq sub.submission_id again.submission_id then duplicate else conflict;
              submission = some sub;
            },
            winning_store,
            [],
          )
      replay e = ground (arith, stored, found)

-- A submission to an open artifact at or after its expiry is answered as expired and records no
-- submission.
pub late_submission :
    (sub : SubmissionRow) (others : Store → Store) (clock : ℕ → ℕ) (store : Store)
    (art : ArtifactRow)
    → get art_id sub.artifact_id store.artifacts ≡ some art
    → art.status ≡ opened
    → art.expires_at ≤ clock 0
    → ((accept_submission sub others clock store).0.outcome ≡ was_expired)
      × ((accept_submission sub others clock store).1.submissions ≡ (others store).submissions)
unfolding accept_submission
late_submission sub others clock store art stored was_open due =
    let late : (is_opened art && leb art.expires_at (clock 0)) ≡ true = ground arith in
    (rw (stored, accept_submission) (rw late), rw (stored, accept_submission) (rw late))
