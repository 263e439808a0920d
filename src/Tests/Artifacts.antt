-- ===== src/Tests/Artifacts.antt =====
-- One artifact, open until time 50, and two submissions to it.
use moomacha.Artifacts.{
  art_id, existing_submission, commit_submission, accept_submission, Status, opened, ArtifactRow,
  SubmissionRow, Store, accepted, duplicate, conflict,
}
use moomacha.Base.{
  ℕ, ◌+◌, String, ◌<>◌, ◌≡◌, refl, none, some, [], ◌∷◌, str_eq, if◌then◌else◌, get, update,
}
use moomacha.Base.Json.{obj, end}
use moomacha.Artifacts.Laws.{later_submission}

abbrev pub hash_token : String → String
hash_token s = s <> "#"

abbrev pub art : Status → ArtifactRow
art status = record {
  id = 7;
  title = "Survey";
  html_body = "<form/>";
  creator_agent_id = 1;
  source_channel = "lab";
  source_topic = "alpha";
  source_message_id = none;
  conversation_type = "channel";
  token_hash = "secret#";
  status = status;
  expires_at = 50;
  submitted_at = none;
}

abbrev pub submission : String → SubmissionRow
submission submission_id = record {
  artifact_id = 7;
  submission_id = submission_id;
  payload_full = obj end;
  summary_text = "done";
  summary_model = none;
  summary_status = "ok";
}

abbrev pub store : Store
store = record { artifacts = art opened ∷ []; submissions = [] }

abbrev undisturbed : Store → Store
undisturbed s = s

abbrev early : ℕ → ℕ
early i = 10 + i

abbrev late : ℕ → ℕ
late i = 60 + i

is_accepted : (accept_submission (submission "a") undisturbed early store).0.outcome ≡ accepted
unfolding accept_submission commit_submission existing_submission get update
is_accepted = refl

pub there : get art_id 7 store.artifacts ≡ some (art opened)
unfolding get
there = refl

later_submission_example :
    accept_submission
      (submission "b")
      undisturbed
      late
      (accept_submission (submission "a") undisturbed early store).1
    ≡ (
      record {
        outcome = if str_eq "a" "b" then duplicate else conflict;
        submission = some (submission "a");
      },
      (accept_submission (submission "a") undisturbed early store).1,
      [],
    )
later_submission_example =
    later_submission (submission "a") undisturbed early store (submission "b") undisturbed late
      (art opened) is_accepted there refl
