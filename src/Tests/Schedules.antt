-- ===== src/Tests/Schedules.antt =====
-- A one-shot and a recurring schedule, the second every ten units of time.
use moomacha.Base.{
  ℕ, ◌+◌, ◌≤◌, String, ◌≡◌, refl, none, some, List, [], ◌∷◌, arith, count, All, get, NodupKeys,
}
use moomacha.Base.Results.{Result, ok}
use moomacha.Schedules.{
  Table, row_id, claim_due, Kind, one_shot, recurring, active, ScheduledJobRow,
}
use moomacha.Schedules.Claims.{IsStrict, claim_due_again}
use moomacha.Schedules.Arming.{is_fire, IsShot}
use moomacha.Schedules.Once.{
  Spares, history, one_shot_fires_once, Call, claims, cancels, creates_one_shot,
}
use moomacha.Scheduler.{SchedulerState}
use moomacha.Scheduler.Firing.{is_for, steps, one_job_per_one_shot}

abbrev pub next_cron : String → ℕ → String → Result String ℕ
next_cron cron after timezone = ok (after + 10)

abbrev pub job : ℕ → Kind → ℕ → ScheduledJobRow
job id kind next_run_at = record {
  id = id;
  agent_id = 1;
  channel = "lab";
  topic = "alpha";
  kind = kind;
  cron_expression = some "*/10 * * * *";
  run_at = none;
  timezone = "UTC";
  instruction = "report";
  status = active;
  next_run_at = next_run_at;
  last_run_at = none;
}

abbrev pub table : Table
table = job 1 one_shot 10 ∷ job 2 recurring 12 ∷ []

next_cron-IsStrict : IsStrict next_cron
next_cron-IsStrict cron timezone after t e = ground arith

claim_due_again_example :
    claim_due next_cron 15 60 8 (claim_due next_cron 15 60 8 table).0
    ≡ ((claim_due next_cron 15 60 8 table).0, [], [])
claim_due_again_example =
    claim_due_again next_cron 15 60 8 60 8 table next_cron-IsStrict (omega arith)

abbrev calls : List Call
calls =
    claims 11 60 8
    ∷ creates_one_shot 3 1 "lab" "alpha" "again" 12
    ∷ claims 20 60 8
    ∷ cancels 1 "lab" "alpha"
    ∷ []

unique : NodupKeys row_id table
unfolding get
unique = (refl, (refl, tt))

is_shot : IsShot 1 table
is_shot = ((λ e. refl), ((λ e. absurd (ground arith)), tt))

others : All (Spares 1) calls
others = (tt, ((λ e. absurd (ground arith)), (tt, (tt, tt))))

one_shot_fires_once_example : count (is_fire 1) (history next_cron calls table).1 ≤ 1
one_shot_fires_once_example = one_shot_fires_once next_cron 1 calls table unique is_shot others

abbrev before : SchedulerState
before = record { table = table; ledger = record { jobs = []; events = [] }; store_events = [] }

one_job_per_one_shot_example : count (is_for 1) (steps next_cron calls before).ledger.jobs ≤ 1
one_job_per_one_shot_example =
    one_job_per_one_shot next_cron 1 calls before unique is_shot others refl
