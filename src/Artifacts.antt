-- ===== src/Artifacts.antt =====
-- control-plane/src/control_plane/services/artifact_store.py and its two rows of db/tables.py. A
-- method is a function on the store. `others` is what other transactions commit between a call's
-- read and its commit; `hash_token` (sha256) and the random token are parameters. `clock i` is
-- the i-th reading of the store's clock in a call; times are microseconds.
pub mod Laws
pub mod Phases
pub mod Submitting
pub mod Refinement
pub mod Summary
pub mod Route
pub mod Resuming
pub mod Offering
use moomacha.Base.{
  ℕ, String, Bool, true, false, not, ◌&&◌, ◌||◌, Option, none, some, List, [], ◌∷◌, str_eq, leb,
  ◌==◌, if◌then◌else◌, get, update,
}
use moomacha.Base.Json.{Json}

pub data Status : Type 0 where
  opened submitted expired revoked : Status

pub record ArtifactRow : Type 0 where
  pub id : ℕ
  pub title : String
  pub html_body : String
  pub creator_agent_id : ℕ
  pub source_channel : String
  pub source_topic : String
  pub source_message_id : Option ℕ
  pub conversation_type : String
  pub token_hash : String
  pub status : Status
  pub expires_at : ℕ
  pub submitted_at : Option ℕ

pub record SubmissionRow : Type 0 where
  pub artifact_id : ℕ
  pub submission_id : String
  pub payload_full : Json
  pub summary_text : String
  pub summary_model : Option String
  pub summary_status : String

pub record Store : Type 0 where
  pub artifacts : List ArtifactRow
  pub submissions : List SubmissionRow

pub data Outcome : Type 0 where
  accepted duplicate conflict was_expired was_revoked : Outcome

pub record SubmissionResult : Type 0 where
  pub outcome : Outcome
  pub submission : Option SubmissionRow

pub data Event : Type 0 where
  artifact_created artifact_expired submission_received : ArtifactRow → Event

abbrev pub art_id : ArtifactRow → ℕ
art_id a = a.id

abbrev pub is_opened : ArtifactRow → Bool
is_opened a = elim a.status [ opened ↦ true | _ ↦ false ]

-- The table has one row for an artifact at most: the column is unique.
unfoldable pub existing_submission : ℕ → List SubmissionRow → Option SubmissionRow
existing_submission artifact_id [] = none
existing_submission artifact_id (s ∷ rest) =
    if s.artifact_id == artifact_id then some s else existing_submission artifact_id rest

module _ (hash_token : String → String) where
  -- The row that is stored, and the raw token, which is not.
  pub create :
      (uuid : ℕ) (raw_token : String) (title html_body : String) (creator_agent_id : ℕ)
      (source_channel source_topic : String) (source_message_id : Option ℕ) (expires_at : ℕ)
      (conversation_type : String)
      → Store
      → (ArtifactRow × String) × Store × List Event
  create uuid raw_token title html_body creator source_channel source_topic source_message_id
        expires_at conversation_type store =
      let row : ArtifactRow = record {
        id = uuid;
        title = title;
        html_body = html_body;
        creator_agent_id = creator;
        source_channel = source_channel;
        source_topic = source_topic;
        source_message_id = source_message_id;
        conversation_type = conversation_type;
        token_hash = hash_token raw_token;
        status = opened;
        expires_at = expires_at;
        submitted_at = none;
      } in
      (
        (row, raw_token),
        record store { artifacts = row ∷ store.artifacts },
        artifact_created row ∷ [],
      )

  pub get_verified : ℕ → String → Store → Option ArtifactRow
  get_verified artifact_id raw_token store = elim (get art_id artifact_id store.artifacts) [
    | none ↦ none
    | some row ↦ if str_eq row.token_hash (hash_token raw_token) then some row else none
  ]

abbrev pub with_status : Status → ArtifactRow → ArtifactRow
with_status status a = record a { status = status }

-- The caller's detached row comes back with the answer and the store.
unfoldable pub expire_if_due :
    ArtifactRow → (Store → Store) → ℕ → Store → Bool × ArtifactRow × Store × List Event
expire_if_due row others now store =
    if not (is_opened row) || not (leb row.expires_at now)
    then (false, row, store, [])
    else elim (get art_id row.id store.artifacts) [
      | none ↦ (false, row, store, [])
      | some db_row ↦
          if not (is_opened db_row)
          then (false, with_status db_row.status row, store, [])
          else let store' = others store in
            (
              true,
              with_status expired row,
              record store' {
                artifacts = update art_id row.id (with_status expired) store'.artifacts;
              },
              artifact_expired (with_status expired row) ∷ [],
            )
    ]

-- The winner is this submission, or another.
unfoldable pub settled : String → Option SubmissionRow → Outcome → SubmissionResult
settled submission_id none otherwise = record { outcome = otherwise; submission = none }
settled submission_id (some s) otherwise =
    if str_eq s.submission_id submission_id
    then record { outcome = duplicate; submission = some s }
    else record { outcome = otherwise; submission = some s }

-- What a closed artifact answers to another submission.
unfoldable pub closed_outcome : Status → Outcome
closed_outcome opened = conflict
closed_outcome submitted = conflict
closed_outcome expired = was_expired
closed_outcome revoked = was_revoked

abbrev pub as_submitted : ℕ → ArtifactRow → ArtifactRow
as_submitted now a = record a { status = submitted; submitted_at = some now }

-- The commit of the insert: refused by the unique column when another submission is there.
unfoldable pub commit_submission :
    ArtifactRow → SubmissionRow → ℕ → Store → SubmissionResult × Store × List Event
unfolding settled
commit_submission art sub now store = elim (existing_submission sub.artifact_id store.submissions) [
  | some winner ↦ (settled sub.submission_id (some winner) conflict, store, [])
  | none ↦ (
    record { outcome = accepted; submission = some sub },
    record {
      artifacts = update art_id sub.artifact_id (as_submitted now) store.artifacts;
      submissions = sub ∷ store.submissions;
    },
    submission_received (as_submitted now art) ∷ [],
  )
]

unfoldable pub accept_submission :
    SubmissionRow → (Store → Store) → (ℕ → ℕ) → Store → SubmissionResult × Store × List Event
unfolding settled closed_outcome commit_submission
accept_submission sub others clock store = elim (get art_id sub.artifact_id store.artifacts) [
  | none ↦ (record { outcome = was_revoked; submission = none }, store, [])
  | some art ↦
      if is_opened art && leb art.expires_at (clock 0)
      then (
        record { outcome = was_expired; submission = none },
        record (others store) {
          artifacts = update art_id sub.artifact_id (with_status expired) (others store).artifacts;
        },
        artifact_expired (with_status expired art) ∷ [],
      )
      else if not (is_opened art)
      then (
        settled sub.submission_id (existing_submission sub.artifact_id store.submissions)
            (closed_outcome art.status),
        store,
        [],
      )
      else commit_submission art sub (clock 1) (others store)
]
