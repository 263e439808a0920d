-- ===== src/Artifacts/Phases.antt =====
-- services/artifact_store.py against a small contract: what an artifact goes through, whatever the rows
-- are, when the calls follow each other.
-- The contract of one artifact.
use moomacha.Artifacts.{
  art_id, existing_submission, expire_if_due, accept_submission, opened, submitted, expired,
  revoked, ArtifactRow, SubmissionRow, Store, accepted, duplicate, conflict, was_expired,
  was_revoked, SubmissionResult,
}
use moomacha.Base.{
  ℕ, ◌≡◌, Bool, ◌&&◌, none, some, List, [], ◌∷◌, ◌++◌, str_eq, ltb, leb, ◌==◌, if◌then◌else◌, get,
}

pub data Phase : Type 0 where
  pending : (expires_at : ℕ) → Phase
  won : SubmissionRow → Phase
  lapsed withdrawn missing : Phase

-- A submission at a time.
unfoldable pub submit : SubmissionRow → ℕ → Phase → SubmissionResult × Phase
submit sub now (pending t) =
    if ltb now t
    then (record { outcome = accepted; submission = some sub }, won sub)
    else (record { outcome = was_expired; submission = none }, lapsed)
submit sub now (won w) = (
  if str_eq w.submission_id sub.submission_id
      then record { outcome = duplicate; submission = some w }
      else record { outcome = conflict; submission = some w },
  won w,
)
submit sub now lapsed = (record { outcome = was_expired; submission = none }, lapsed)
submit sub now withdrawn = (record { outcome = was_revoked; submission = none }, withdrawn)
submit sub now missing = (record { outcome = was_revoked; submission = none }, missing)

-- The rows of an artifact in a phase.
abbrev pub IsIn : Phase → ℕ → Store → Type 0
IsIn (pending t) id store =
    (art : ArtifactRow) × (get art_id id store.artifacts ≡ some art)
    × (art.status ≡ opened)
    × (art.expires_at ≡ t)
    × (existing_submission id store.submissions ≡ none)
IsIn (won w) id store =
    (art : ArtifactRow) × (get art_id id store.artifacts ≡ some art)
    × (art.status ≡ submitted)
    × (existing_submission id store.submissions ≡ some w)
IsIn lapsed id store =
    (art : ArtifactRow) × (get art_id id store.artifacts ≡ some art)
    × (art.status ≡ expired)
    × (existing_submission id store.submissions ≡ none)
IsIn withdrawn id store =
    (art : ArtifactRow) × (get art_id id store.artifacts ≡ some art)
    × (art.status ≡ revoked)
    × (existing_submission id store.submissions ≡ none)
IsIn missing id store =
    (get art_id id store.artifacts ≡ none) × (existing_submission id store.submissions ≡ none)

-- A call of the store: a submission, or a look at the artifact, which expires it when it is due.
pub data Call : Type 0 where
  submits : SubmissionRow → (now : ℕ) → Call
  looks : (id now : ℕ) → Call

-- Calls that follow each other: no other transaction is in between.
unfoldable pub call : Call → Store → List SubmissionResult × Store
call (submits sub now) store =
    let (result, after, events) = accept_submission sub (λ s. s) (λ i. now) store in
    (result ∷ [], after)
call (looks id now) store = elim (get art_id id store.artifacts) [
  | none ↦ ([], store)
  | some row ↦ ([], (expire_if_due row (λ s. s) now store).2)
]

-- The same call in the contract of an artifact: calls of others do not count.
unfoldable pub promised : ℕ → Call → Phase → List SubmissionResult × Phase
promised id (submits sub now) p =
    let (result, after) = submit sub now p in
    if sub.artifact_id == id then (result ∷ [], after) else ([], p)
promised id (looks other now) (pending t) =
    if other == id && leb t now then ([], lapsed) else ([], pending t)
promised id (looks other now) p = ([], p)

-- The call is about this artifact.
abbrev pub is_about : ℕ → Call → Bool
is_about id (submits sub now) = sub.artifact_id == id
is_about id (looks other now) = other == id

-- What the submissions to one artifact are answered in a list of calls, and the store at the end.
unfoldable pub history : ℕ → List Call → Store → List SubmissionResult × Store
history id [] store = ([], store)
history id (c ∷ calls) store =
    let (results, after) = call c store in
    let (more, last) = history id calls after in
    ((if is_about id c then results else []) ++ more, last)

-- The same answers by the contract alone.
unfoldable pub promises : ℕ → List Call → Phase → List SubmissionResult × Phase
promises id [] p = ([], p)
promises id (c ∷ calls) p =
    let (results, next) = promised id c p in
    let (more, last) = promises id calls next in (results ++ more, last)
