-- ===== src/Jobs/Laws.antt =====
-- What `enqueue_agent_turn` adds to the queue.
use moomacha.Base.{ℕ, String, ◌≡◌, refl, none, some, [], ◌∷◌, ◌++◌}
use moomacha.Base.Results.{found_ind, Result, ok, raised}
use moomacha.Jobs.{
  schedule_job, enqueue_schedule, enqueue_agent_turn, stream, Job, ScheduleSource, by_schedule,
  Ledger,
}
use moomacha.Jobs.Recipients.{direct_recipients}

-- One job more, of the schedule; or an exception.
abbrev pub AddsFor : ℕ → Ledger → Result String Ledger → Type 0
AddsFor k l (raised e) = Unit
AddsFor k l (ok l') = (job : Job) × (l'.jobs ≡ l.jobs ++ (job ∷ [])) × (job.schedule_id ≡ some k)

pub enqueue_schedule-AddsFor :
    (agent_id : ℕ) (channel topic content : String) (source : ScheduleSource) (l : Ledger)
    → AddsFor source.schedule_id l
        (enqueue_agent_turn agent_id channel topic content stream none (by_schedule source) none l)
unfolding enqueue_agent_turn enqueue_schedule schedule_job
enqueue_schedule-AddsFor agent_id channel topic content source l =
    found_ind (AddsFor source.schedule_id l) (direct_recipients channel) (λ e h. tt)
      (λ h. (_, refl, refl)) (λ ids h. (_, refl, refl))
