-- ===== src/Scheduling.antt =====
-- control-plane/src/control_plane/runtime/tools/scheduling.py: the tools with which an agent schedules
-- tasks of its own topic. The time zones, croniter and the reading of a uuid are parameters.
pub mod Topics
-- A time that is absolute, or one to be read in a time zone.
use moomacha.Base.{
  ℕ, ◌+◌, ◌*◌, String, ◌<>◌, Bool, true, false, not, Option, none, some, List, [], ◌∷◌, ◌++◌, map,
  leb, ◌==◌, if◌then◌else◌, is_some, or_else, length,
}
use moomacha.Base.Text.{slice_to, join, chars}
use moomacha.Base.Results.{Result, ok, raised}
use moomacha.ToolAccess.{ToolResult, ToolContext}
use moomacha.Schedules.{
  Table, create_one_shot, list_for_topic, cancel, create_recurring, Kind, one_shot, recurring,
  Status, active, completed, cancelled, missed, error, ScheduledJobRow, Event,
}

pub data Moment : Type 0 where
  aware naive : ℕ → Moment

pub record ScheduleTaskInput : Type 0 where
  pub instruction : String
  pub cron : Option String
  pub run_at : Option Moment
  pub delay_seconds : Option ℕ
  pub timezone : String

pub record Calendar : Type 0 where
  pub next_cron : String → ℕ → String → Result String ℕ
  pub is_valid : String → Bool
  pub has_zone : String → Bool
  pub in_zone : String → ℕ → ℕ
  pub isoformat : ℕ → String
  pub show_uuid : ℕ → String
  pub read_uuid : String → Option ℕ

-- A tool's answer, the table and the events.
abbrev pub Answer : Type 0
Answer = Result String ToolResult × Table × List Event

pub refuse : String → Table → Answer
refuse content table = (ok (record { success = false; content = content }), table, [])

-- The names of the timing arguments that are set.
pub set_args : ScheduleTaskInput → List String
set_args inp =
    (if is_some inp.cron then "cron" ∷ [] else [])
    ++ ((if is_some inp.run_at then "run_at" ∷ [] else [])
        ++ (if is_some inp.delay_seconds then "delay_seconds" ∷ [] else []))

-- Python's text of a list of names that need no escape.
shown : List String → String
shown [] = "none"
shown (x ∷ xs) = "['" <> (join "', '" (x ∷ xs) <> "']")

module _ (calendar : Calendar) where
  kind_name : Kind → String
  kind_name one_shot = "one_shot"
  kind_name recurring = "recurring"

  status_name : Status → String
  status_name active = "active"
  status_name completed = "completed"
  status_name missed = "missed"
  status_name cancelled = "cancelled"
  status_name error = "error"

  pub scheduled : ScheduledJobRow × Table × Event → Answer
  unfolding kind_name
  scheduled (row, table, event) = (
    ok (record {
      success = true;
      content = join "" (
          "Scheduled "
          ∷ kind_name row.kind
          ∷ " (id="
          ∷ calendar.show_uuid row.id
          ∷ "); next run "
          ∷ calendar.isoformat row.next_run_at
          ∷ "."
          ∷ []);
    }),
    table,
    event ∷ [],
  )

  -- `store.create_recurring`, whose exception goes through.
  pub repeated : Table → Result String (ScheduledJobRow × Table × Event) → Answer
  unfolding scheduled
  repeated table (raised e) = (raised e, table, [])
  repeated table (ok created) = scheduled created

  -- The time of a one-shot task; one of the two is given.
  time_of : ScheduleTaskInput → ℕ → ℕ
  time_of inp now = elim inp.delay_seconds [
    | some seconds ↦ now + seconds * 1000000
    | none ↦ elim inp.run_at [
      | some (aware t) ↦ t
      | some (naive t) ↦ calendar.in_zone inp.timezone t
      | none ↦ now
    ]
  ]

  -- With the arguments checked.
  pub place : ℕ → ℕ → ScheduleTaskInput → ToolContext → Table → Answer
  unfolding repeated scheduled time_of refuse
  place uuid now inp ctx table = elim inp.cron [
    | some cron ↦
        if not (calendar.is_valid cron)
        then refuse ("Invalid cron expression '" <> (cron <> "'.")) table
        else repeated table (
            create_recurring calendar.next_cron uuid ctx.agent.id ctx.channel ctx.topic
              inp.instruction cron inp.timezone now table)
    | none ↦ scheduled (
        create_one_shot uuid ctx.agent.id ctx.channel ctx.topic inp.instruction (time_of inp now)
          table)
  ]

  pub schedule_task : ℕ → ℕ → ScheduleTaskInput → ToolContext → Table → Answer
  unfolding place set_args shown refuse
  schedule_task uuid now inp ctx table =
      if not (length (set_args inp) == 1)
      then refuse
          ("Provide exactly one of cron, run_at, or delay_seconds (got "
            <> (shown (set_args inp) <> ")."))
          table
      else if not (calendar.has_zone inp.timezone)
      then refuse ("Unknown timezone '" <> (inp.timezone <> "'.")) table
      else place uuid now inp ctx table

  -- A one-shot row has a time.
  when_of : ScheduledJobRow → String
  when_of r = elim r.kind [
    | recurring ↦ or_else r.cron_expression "None"
    | one_shot ↦ calendar.isoformat (or_else r.run_at r.next_run_at)
  ]

  line_of : ScheduledJobRow → String
  unfolding kind_name status_name when_of
  line_of r =
      let instruction =
        if leb (chars r.instruction) 80 then r.instruction else slice_to 80 r.instruction <> "…" in
      join "" (
        "- "
        ∷ calendar.show_uuid r.id
        ∷ " ["
        ∷ kind_name r.kind
        ∷ ", "
        ∷ status_name r.status
        ∷ "] "
        ∷ when_of r
        ∷ " (next "
        ∷ calendar.isoformat r.next_run_at
        ∷ "): "
        ∷ instruction
        ∷ [])

  listing : List ScheduledJobRow → String
  unfolding line_of
  listing [] = "No schedules in this topic."
  listing (r ∷ rows) = join "\n" (map line_of (r ∷ rows))

  pub list_my_schedules : Bool → ToolContext → Table → Answer
  unfolding listing
  list_my_schedules include_inactive ctx table = (
    ok (record {
      success = true;
      content = listing (list_for_topic ctx.channel ctx.topic include_inactive table);
    }),
    table,
    [],
  )

  pub cancel_schedule : String → ToolContext → Table → Answer
  unfolding refuse
  cancel_schedule schedule_id ctx table = elim (calendar.read_uuid schedule_id) [
    | none ↦ refuse ("'" <> (schedule_id <> "' is not a valid schedule id.")) table
    | some id ↦
        let (done, table', events) = cancel id ctx.channel ctx.topic table in
        (
          (if done
              then ok (record {
                success = true;
                content = "Cancelled schedule " <> (calendar.show_uuid id <> ".");
              })
              else ok (record {
                success = false;
                content =
                    "No active schedule with that id in this topic (already cancelled, or not yours).";
              })),
          table',
          events,
        )
  ]
