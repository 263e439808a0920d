-- ===== src/Tests/Toolbox.antt =====
-- The tools for schedules, messages and knowledge, in the turn of the submissions' tests.
use moomacha.Scheduling.{ScheduleTaskInput, Calendar}
use moomacha.Scheduling.Topics.{calls, calls-Stays, schedules, cancels}
use moomacha.Messages.{IsAllowed, reads, reads-Allowed, ReadRequest, reads_topic, reads_channel}
use moomacha.Knowledge.{Artifacts, read_artifact}
use moomacha.Knowledge.Bound.{Reads, read_artifact-Reads}
use moomacha.Base.{String, ◌≡◌, refl, true, none, some, List, [], ◌∷◌, All, get}
use moomacha.Base.Results.{Result, ok}
use moomacha.ToolAccess.{ToolContext}
use moomacha.Schedules.{row_id, one_shot}
use moomacha.Worker.{HistoryMessage}
use moomacha.Tests.Submissions.{context}
use moomacha.Tests.Schedules.{next_cron, job, table}

abbrev elsewhere : ToolContext
elsewhere = record context { topic = "beta" }

abbrev calendar : Calendar
calendar = record {
  next_cron = next_cron;
  is_valid = λ cron. true;
  has_zone = λ zone. true;
  in_zone = λ zone t. t;
  isoformat = λ t. "then";
  show_uuid = λ id. "uuid";
  read_uuid = λ s. some 1;
}

abbrev task : ScheduleTaskInput
task = record {
  instruction = "report";
  cron = none;
  run_at = none;
  delay_seconds = some 5;
  timezone = "UTC";
}

first_row : get row_id 1 table ≡ some (job 1 one_shot 10)
unfolding get
first_row = refl

calls-Stays_example :
    get row_id 1 (calls calendar elsewhere (cancels "1" ∷ schedules 9 10 task ∷ []) table)
    ≡ some (job 1 one_shot 10)
calls-Stays_example =
    calls-Stays calendar elsewhere 1 (job 1 one_shot 10) refl
      (cancels "1" ∷ schedules 9 10 task ∷ []) table first_row

abbrev zulip : List ReadRequest → ReadRequest → Result String (List HistoryMessage)
zulip sent request = ok []

reads-Allowed_example :
    All
      (IsAllowed zulip elsewhere)
      (reads zulip (reads_topic "lab" "alpha" 500 ∷ reads_channel "ops" 5 ∷ []) elsewhere [])
reads-Allowed_example =
    reads-Allowed zulip (reads_topic "lab" "alpha" 500 ∷ reads_channel "ops" 5 ∷ []) elsewhere [] tt

abbrev shelf : Artifacts
shelf = record { id = 3; name = "map"; body = "north" } ∷ []

abbrev unsorted : Artifacts → Artifacts
unsorted rows = rows

read_artifact-Reads_example :
    Reads unsorted
      (λ s. some 3)
      (λ s. s)
      "map"
      elsewhere
      shelf
      (read_artifact unsorted (λ s. some 3) (λ s. s) "map" elsewhere shelf)
read_artifact-Reads_example =
    read_artifact-Reads unsorted (λ s. some 3) (λ s. s) "map" elsewhere shelf (λ P xs h. h)
