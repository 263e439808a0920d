-- ===== src/Schedules.antt =====
-- control-plane/src/control_plane/services/schedule_store.py and `ScheduledJobRow` of db/tables.py.
-- A method is a function on the table. `next_cron` is a parameter: its work is croniter's and
-- zoneinfo's, and it may raise. Times are microseconds; `uuid` is the key of a new row.
pub mod Claims
pub mod Arming
pub mod Once
use moomacha.Base.{
  ℕ, ◌+◌, ◌*◌, String, Bool, true, false, not, ◌&&◌, ◌||◌, Option, none, some, List, [], ◌∷◌, ◌++◌,
  str_eq, leb, if◌then◌else◌, take, filter, get, update, sweep, order_by,
}
use moomacha.Base.Results.{◌>>=◌, Result, ok, raised}

pub data Kind : Type 0 where
  one_shot recurring : Kind

pub data Status : Type 0 where
  active completed cancelled missed error : Status

pub record ScheduledJobRow : Type 0 where
  pub id : ℕ
  pub agent_id : ℕ
  pub channel : String
  pub topic : String
  pub kind : Kind
  pub cron_expression : Option String
  pub run_at : Option ℕ
  pub timezone : String
  pub instruction : String
  pub status : Status
  pub next_run_at : ℕ
  pub last_run_at : Option ℕ

pub data Action : Type 0 where
  fire miss : Action

pub record ClaimOutcome : Type 0 where
  pub schedule_id : ℕ
  pub agent_id : ℕ
  pub channel : String
  pub topic : String
  pub instruction : String
  pub scheduled_for : ℕ
  pub action : Action

-- The events that the store writes, each with the row that it is about.
pub data Event : Type 0 where
  schedule_created schedule_cancelled schedule_missed : ScheduledJobRow → Event
  schedule_errored : ScheduledJobRow → String → Event

abbrev pub Table : Type 0
Table = List ScheduledJobRow

abbrev pub row_id : ScheduledJobRow → ℕ
row_id r = r.id

abbrev pub is_active : ScheduledJobRow → Bool
is_active r = elim r.status [ active ↦ true | _ ↦ false ]

unfoldable pub create_one_shot :
    ℕ → ℕ → String → String → String → ℕ → Table → ScheduledJobRow × Table × Event
create_one_shot uuid agent_id channel topic instruction run_at table =
    let row : ScheduledJobRow = record {
      id = uuid;
      agent_id = agent_id;
      channel = channel;
      topic = topic;
      kind = one_shot;
      cron_expression = none;
      run_at = some run_at;
      timezone = "UTC";
      instruction = instruction;
      status = active;
      next_run_at = run_at;
      last_run_at = none;
    } in
    (row, table ++ row ∷ [], schedule_created row)

-- `getattr`-free truth of an optional text: None and "" are false.
abbrev pub cron_of : Option String → Option String
cron_of none = none
cron_of (some s) = if str_eq s "" then none else some s

abbrev pub is_due : ℕ → ScheduledJobRow → Bool
is_due now r = is_active r && leb r.next_run_at now

-- `(now - scheduled_for).total_seconds() <= grace_seconds`, over microseconds.
abbrev pub within_grace : ℕ → ℕ → ScheduledJobRow → Bool
within_grace now grace_seconds r = leb now (r.next_run_at + grace_seconds * 1000000)

pub outcome : ScheduledJobRow → Action → ClaimOutcome
outcome r action = record {
  schedule_id = r.id;
  agent_id = r.agent_id;
  channel = r.channel;
  topic = r.topic;
  instruction = r.instruction;
  scheduled_for = r.next_run_at;
  action = action;
}

-- What the loop body makes of one row: the row as committed, and what is reported.
pub record Handled : Type 0 where
  pub row : ScheduledJobRow
  pub reported : List ClaimOutcome
  pub events : List Event

abbrev pub quarantined : ScheduledJobRow → String → Handled
quarantined r message =
    let bad = record r { status = error } in
    record { row = bad; reported = []; events = schedule_errored bad message ∷ [] }

abbrev is_missed : Event → Bool
is_missed (schedule_missed r) = true
is_missed _ = false

abbrev pub next_run : ScheduledJobRow → ℕ
next_run r = r.next_run_at

-- The rows that one call of `claim_due` locks and reads.
pub due_rows : ℕ → ℕ → Table → Table
due_rows now limit table = take limit (order_by next_run (filter (is_due now) table))

abbrev pub in_topic : String → String → ScheduledJobRow → Bool
in_topic channel topic r = str_eq r.channel channel && str_eq r.topic topic

pub list_for_topic : String → String → Bool → Table → Table
list_for_topic channel topic include_inactive table =
    order_by next_run
      (filter (λ r. in_topic channel topic r && (include_inactive || is_active r)) table)

-- The row must be active, and of the caller's channel and topic.
unfoldable pub cancel : ℕ → String → String → Table → Bool × Table × List Event
cancel schedule_id channel topic table = elim (get row_id schedule_id table) [
  | none ↦ (false, table, [])
  | some r ↦
      if not (in_topic channel topic r)
      then (false, table, [])
      else if not (is_active r)
      then (false, table, [])
      else (
        true,
        update row_id schedule_id (λ x. record x { status = cancelled }) table,
        schedule_cancelled (record r { status = cancelled }) ∷ [],
      )
]

module _ (next_cron : String → ℕ → String → Result String ℕ) where
  unfoldable pub create_recurring :
      ℕ
      → ℕ
      → String
      → String
      → String
      → String
      → String
      → ℕ
      → Table
      → Result String (ScheduledJobRow × Table × Event)
  create_recurring uuid agent_id channel topic instruction cron timezone now table =
      next_cron cron now timezone >>= λ next.
      let row : ScheduledJobRow = record {
        id = uuid;
        agent_id = agent_id;
        channel = channel;
        topic = topic;
        kind = recurring;
        cron_expression = some cron;
        run_at = none;
        timezone = timezone;
        instruction = instruction;
        status = active;
        next_run_at = next;
        last_run_at = none;
      } in
      ok (row, table ++ row ∷ [], schedule_created row)

  pub handle_one_shot : ℕ → ℕ → ScheduledJobRow → Handled
  handle_one_shot now grace_seconds r =
      if within_grace now grace_seconds r
      then record {
        row = record r { status = completed; last_run_at = some now };
        reported = outcome r fire ∷ [];
        events = [];
      }
      else record {
        row = record r { status = missed };
        reported = outcome r miss ∷ [];
        events = schedule_missed (record r { status = missed }) ∷ [];
      }

  -- A row past its grace is rolled forward silently.
  pub handle_next : ℕ → ℕ → ScheduledJobRow → Result String ℕ → Handled
  handle_next now grace_seconds r (raised e) = quarantined r e
  handle_next now grace_seconds r (ok next) =
      if within_grace now grace_seconds r
      then record {
        row = record r { next_run_at = next; last_run_at = some now };
        reported = outcome r fire ∷ [];
        events = [];
      }
      else record { row = record r { next_run_at = next }; reported = []; events = [] }

  handle_recurring : ℕ → ℕ → ScheduledJobRow → Handled
  unfolding handle_next
  handle_recurring now grace_seconds r = elim (cron_of r.cron_expression) [
    | none ↦ quarantined r "recurring schedule has no cron_expression"
    | some cron ↦ handle_next now grace_seconds r (next_cron cron now r.timezone)
  ]

  pub handle : ℕ → ℕ → ScheduledJobRow → Handled
  unfolding handle_one_shot handle_recurring outcome
  handle now grace_seconds r = elim r.kind [
    | one_shot ↦ handle_one_shot now grace_seconds r
    | recurring ↦ handle_recurring now grace_seconds r
  ]

  pub reports : ℕ → ℕ → Table → List ClaimOutcome
  reports now grace_seconds [] = []
  reports now grace_seconds (r ∷ rows) =
      (handle now grace_seconds r).reported ++ reports now grace_seconds rows

  all_events : ℕ → ℕ → Table → List Event
  all_events now grace_seconds [] = []
  all_events now grace_seconds (r ∷ rows) =
      (handle now grace_seconds r).events ++ all_events now grace_seconds rows

  -- The table after the commit, the outcomes in the order of the rows, and the events: those of
  -- missed rows first, then those of quarantined ones.
  pub claim_due : (now grace_seconds limit : ℕ) → Table → Table × List ClaimOutcome × List Event
  unfolding all_events due_rows
  claim_due now grace_seconds limit table =
      let rows = due_rows now limit table in
      let events = all_events now grace_seconds rows in
      (
        sweep row_id (λ _. true) (λ _ r. (handle now grace_seconds r).row) 0 rows table,
        reports now grace_seconds rows,
        filter is_missed events ++ filter (λ e. not (is_missed e)) events,
      )
