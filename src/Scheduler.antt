-- ===== src/Scheduler.antt =====
-- control-plane/src/control_plane/services/scheduler.py: one tick of the loop, which claims the due
-- schedules and turns each that fires into a job. The loop around it only sleeps and logs.
pub mod Firing
use moomacha.Base.{ℕ, String, none, List, [], ◌∷◌, ◌++◌}
use moomacha.Base.Results.{Result, ok, raised}
use moomacha.Schedules.{Table, claim_due, fire, miss, ClaimOutcome, Event}
use moomacha.Jobs.{enqueue_agent_turn, stream, by_schedule, Ledger}

-- The schedules, the queue with its log, and the events of the schedule store.
pub record SchedulerState : Type 0 where
  pub table : Table
  pub ledger : Ledger
  pub store_events : List Event

-- `enqueue_turn` for a claim that fires; a failure is logged, and skips this one only.
pub fire_turn : ClaimOutcome → Ledger → Ledger
fire_turn o l =
    elim (enqueue_agent_turn o.agent_id o.channel o.topic o.instruction stream none
      (by_schedule (record { schedule_id = o.schedule_id; scheduled_for = o.scheduled_for })) none
      l) [ ok l' ↦ l' | raised _ ↦ l ]

pub enqueue_fires : List ClaimOutcome → Ledger → Ledger
unfolding fire_turn
enqueue_fires [] l = l
enqueue_fires (o ∷ outcomes) l =
    enqueue_fires outcomes (elim o.action [ fire ↦ fire_turn o l | miss ↦ l ])

pub tick : (String → ℕ → String → Result String ℕ) → ℕ → ℕ → ℕ → SchedulerState → SchedulerState
tick next_cron now grace_seconds max_due s =
    let (table, outcomes, events) = claim_due next_cron now grace_seconds max_due s.table in
    record {
      table = table;
      ledger = enqueue_fires outcomes s.ledger;
      store_events = s.store_events ++ events;
    }
