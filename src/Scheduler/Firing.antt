-- ===== src/Scheduler/Firing.antt =====
-- Histories of ticks and of calls of the schedule store, and the jobs of one schedule in them.
use moomacha.Base.{
  ℕ, ◌+◌, ◌≤◌, String, ◌≡◌, Bool, false, none, some, List, [], ◌∷◌, arith, ◌==◌, if◌then◌else◌,
  count, All, count-append, NodupKeys,
}
use moomacha.Base.Results.{Result, ok, raised}
use moomacha.Schedules.{row_id, claim_due, fire, miss, ClaimOutcome}
use moomacha.Schedules.Arming.{is_fire, armed, IsShot, armed-le-one}
use moomacha.Schedules.Once.{
  Spares, call, call-Spends, Call, claims, cancels, creates_one_shot, creates_recurring,
}
use moomacha.Jobs.{enqueue_agent_turn, stream, Job, by_schedule, Ledger}
use moomacha.Jobs.Laws.{AddsFor, enqueue_schedule-AddsFor}
use moomacha.Scheduler.{fire_turn, enqueue_fires, tick, SchedulerState}

-- The job is one of this schedule.
abbrev pub is_for : ℕ → Job → Bool
is_for k job = elim job.schedule_id [ none ↦ false | some i ↦ i == k ]

-- What a failure leaves.
abbrev kept : Ledger → Result String Ledger → Ledger
kept l (ok l') = l'
kept l (raised _) = l

fire_turn-adds :
    (k : ℕ) (o : ClaimOutcome) (l : Ledger)
    → count (is_for k) (fire_turn o l).jobs
      ≤ count (is_for k) l.jobs + (if o.schedule_id == k then 1 else 0)
unfolding fire_turn
fire_turn-adds k o l =
    go
      (enqueue_agent_turn o.agent_id o.channel o.topic o.instruction stream none
        (by_schedule (record { schedule_id = o.schedule_id; scheduled_for = o.scheduled_for })) none
        l)
      (enqueue_schedule-AddsFor o.agent_id o.channel o.topic o.instruction
        (record { schedule_id = o.schedule_id; scheduled_for = o.scheduled_for }) l)
  where
    go :
        (r : Result String Ledger)
        → AddsFor o.schedule_id l r
        → count (is_for k) (kept l r).jobs
          ≤ count (is_for k) l.jobs + (if o.schedule_id == k then 1 else 0)
    go (raised e) adds = omega arith
    go (ok l') (job, added, mine) =
        rw (added, count-append (is_for k) l.jobs (job ∷ [])) (ground (arith, mine))

enqueue_fires-adds :
    (k : ℕ) (outcomes : List ClaimOutcome) (l : Ledger)
    → count (is_for k) (enqueue_fires outcomes l).jobs
      ≤ count (is_for k) l.jobs + count (is_fire k) outcomes
unfolding enqueue_fires
enqueue_fires-adds k [] l = omega arith
enqueue_fires-adds k (o ∷ outcomes) l =
    let next : Ledger = elim o.action [ fire ↦ fire_turn o l | miss ↦ l ] in
    ground (arith, enqueue_fires-adds k outcomes next, fire_turn-adds k o l)

module _ (next_cron : String → ℕ → String → Result String ℕ) where
  -- A claim is a tick; the other calls are those of the agents' tools.
  pub step : Call → SchedulerState → SchedulerState
  step (claims now grace limit) s = tick next_cron now grace limit s
  step (cancels id channel topic) s = record s {
    table = (call next_cron (cancels id channel topic) s.table).0;
  }
  step (creates_one_shot uuid agent channel topic text run_at) s = record s {
    table = (call next_cron (creates_one_shot uuid agent channel topic text run_at) s.table).0;
  }
  step (creates_recurring uuid agent channel topic text cron timezone now) s = record s {
    table =
        (call next_cron (creates_recurring uuid agent channel topic text cron timezone now)
          s.table).0;
  }

  pub steps : List Call → SchedulerState → SchedulerState
  steps [] s = s
  steps (c ∷ calls) s = steps calls (step c s)

  -- The jobs of a schedule and the rows that can still fire.
  abbrev weight : ℕ → SchedulerState → ℕ
  weight k s = count (is_for k) s.ledger.jobs + armed k s.table

  step-weight :
      (k : ℕ) (c : Call) (s : SchedulerState)
      → Spares k c
      → IsShot k s.table
      → (weight k (step c s) ≤ weight k s) × IsShot k (step c s).table
  unfolding step tick call
  step-weight k (claims now grace limit) s spared shot =
      let (spent, still) = call-Spends next_cron k (claims now grace limit) s.table spared shot in
      (
        omega (
          arith,
          spent,
          enqueue_fires-adds k (claim_due next_cron now grace limit s.table).1 s.ledger,
        ),
        still,
      )
  step-weight k (cancels id channel topic) s spared shot =
      let (spent, still) = call-Spends next_cron k (cancels id channel topic) s.table spared shot in
      (omega (arith, spent), still)
  step-weight k (creates_one_shot uuid agent channel topic text run_at) s spared shot =
      let (spent, still) =
        call-Spends next_cron k (creates_one_shot uuid agent channel topic text run_at) s.table
          spared shot in
      (omega (arith, spent), still)
  step-weight k (creates_recurring uuid agent channel topic text cron timezone now) s spared shot =
      let (spent, still) =
        call-Spends next_cron k (creates_recurring uuid agent channel topic text cron timezone now)
          s.table spared shot in
      (omega (arith, spent), still)

  steps-weight :
      (k : ℕ) (calls : List Call) (s : SchedulerState)
      → All (Spares k) calls
      → IsShot k s.table
      → weight k (steps calls s) ≤ weight k s
  unfolding steps
  steps-weight k [] s spared shot = omega arith
  steps-weight k (c ∷ calls) s spared shot =
      let (less, still) = step-weight k c s spared.0 shot in
      omega (arith, less, steps-weight k calls (step c s) spared.1 still)

  -- Over any ticks of the scheduler and any cancellations and creations under other ids, a one-shot
  -- schedule that has no job at first causes one job at most, if each id has one row at first.
  pub one_job_per_one_shot :
      (k : ℕ) (calls : List Call) (s : SchedulerState)
      → NodupKeys row_id s.table
      → IsShot k s.table
      → All (Spares k) calls
      → count (is_for k) s.ledger.jobs ≡ 0
      → count (is_for k) (steps calls s).ledger.jobs ≤ 1
  one_job_per_one_shot k calls s unique shot spared start =
      omega (arith, steps-weight k calls s spared shot, armed-le-one k s.table unique, start)
