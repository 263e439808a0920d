-- ===== src/Jobs.antt =====
-- control-plane/src/control_plane/services/job_source.py and `Job` of services/job_queue.py: how a
-- mention, a schedule that fires or a submission becomes a job. The trace id is random and nothing
-- reads it here.
mod Recipients
pub mod Laws
use moomacha.Base.{ℕ, String, Option, none, some, List, [], ◌∷◌, ◌++◌}
use moomacha.Base.Results.{Result, ok, raised}
use moomacha.Jobs.Recipients.{direct_recipients}

pub data ConversationType : Type 0 where
  stream direct : ConversationType

pub data SourceKind : Type 0 where
  zulip_mention schedule interactive_submission : SourceKind

-- `fire_key` is the text of the schedule's id and of the time, here the two.
pub record Job : Type 0 where
  pub agent_id : ℕ
  pub channel : String
  pub topic : String
  pub content : String
  pub conversation_type : ConversationType
  pub direct_recipient_ids : Option (List ℕ)
  pub source_kind : SourceKind
  pub source_message_id : Option ℕ
  pub schedule_id : Option ℕ
  pub fire_key : Option (ℕ × ℕ)
  pub invoking_user : Option String
  pub session_id : Option ℕ

pub record ZulipMentionSource : Type 0 where
  pub message_id : ℕ
  pub sender_email : Option String

pub record ScheduleSource : Type 0 where
  pub schedule_id : ℕ
  pub scheduled_for : ℕ

pub record InteractiveSubmissionSource : Type 0 where
  pub artifact_id : ℕ
  pub submission_id : String
  pub zulip_message_id : ℕ

pub data JobSource : Type 0 where
  by_mention : ZulipMentionSource → JobSource
  by_schedule : ScheduleSource → JobSource
  by_submission : InteractiveSubmissionSource → JobSource

-- The events of the sources; those of the webhook have the bot's or sender's email, the agent, the message.
pub data Event : Type 0 where
  webhook_received : (agent_id : ℕ) → String → (message_id : ℕ) → Event
  schedule_fired : (agent_id : ℕ) → String → (schedule_id scheduled_for : ℕ) → Event
  interactive_submission_received :
      (agent_id : ℕ) → String → (artifact_id : ℕ) → String → (message_id : ℕ) → Event
  unknown_bot : String → Event
  disabled_agent_ignored : String → (agent_id message_id : ℕ) → Event
  bastion_invocation_blocked : String → (agent_id message_id : ℕ) → Event
  direct_message_recipient_error : String → (agent_id message_id : ℕ) → Event

-- The queue and the log, the newest last.
pub record Ledger : Type 0 where
  pub jobs : List Job
  pub events : List Event

unfoldable pub write_event : Event → Ledger → Ledger
write_event event l = record l { events = l.events ++ (event ∷ []) }

-- The branch of `enqueue_agent_turn` for a mention: the event, then the job.
unfoldable pub enqueue_mention :
    ℕ
    → String
    → String
    → String
    → ConversationType
    → Option (List ℕ)
    → ZulipMentionSource
    → Option ℕ
    → Ledger
    → Ledger
unfolding write_event
enqueue_mention agent_id channel topic content conversation_type recipients source session_id l =
    let logged = write_event (webhook_received agent_id channel source.message_id) l in
    let job : Job = record {
      agent_id = agent_id;
      channel = channel;
      topic = topic;
      content = content;
      conversation_type = conversation_type;
      direct_recipient_ids = recipients;
      source_kind = zulip_mention;
      source_message_id = some source.message_id;
      schedule_id = none;
      fire_key = none;
      invoking_user = source.sender_email;
      session_id = session_id;
    } in
    record logged { jobs = logged.jobs ++ (job ∷ []) }

-- The job of a schedule that fires, and of a submission.
pub schedule_job :
    ℕ → String → String → String → ConversationType → Option (List ℕ) → ScheduleSource → Job
schedule_job agent_id channel topic content conversation_type recipients source = record {
  agent_id = agent_id;
  channel = channel;
  topic = topic;
  content = content;
  conversation_type = conversation_type;
  direct_recipient_ids = recipients;
  source_kind = schedule;
  source_message_id = none;
  schedule_id = some source.schedule_id;
  fire_key = some (source.schedule_id, source.scheduled_for);
  invoking_user = none;
  session_id = none;
}

pub submission_job : ℕ → String → String → String → InteractiveSubmissionSource → Job
submission_job agent_id channel topic content source = record {
  agent_id = agent_id;
  channel = channel;
  topic = topic;
  content = content;
  conversation_type = stream;
  direct_recipient_ids = none;
  source_kind = interactive_submission;
  source_message_id = some source.zulip_message_id;
  schedule_id = none;
  fire_key = none;
  invoking_user = none;
  session_id = none;
}

abbrev pub enqueue : Event → Job → Ledger → Ledger
enqueue event job l = record l { events = l.events ++ (event ∷ []); jobs = l.jobs ++ (job ∷ []) }

-- A schedule's job: a channel `direct:...` becomes the conversation with those recipients.
pub enqueue_schedule :
    ℕ
    → String
    → String
    → String
    → ConversationType
    → Option (List ℕ)
    → ScheduleSource
    → Ledger
    → Result String Ledger
unfolding schedule_job
enqueue_schedule agent_id channel topic content conversation_type recipients source l =
    elim (direct_recipients channel) [
      | raised e ↦ raised e
      | ok (some ids) ↦ ok (
          enqueue (schedule_fired agent_id "direct" source.schedule_id source.scheduled_for)
            (schedule_job agent_id "direct" topic content direct (some ids) source) l)
      | ok none ↦ ok (
          enqueue (schedule_fired agent_id channel source.schedule_id source.scheduled_for)
            (schedule_job agent_id channel topic content conversation_type recipients source) l)
    ]

unfoldable pub enqueue_submission :
    ℕ → String → String → String → InteractiveSubmissionSource → Ledger → Ledger
unfolding submission_job
enqueue_submission agent_id channel topic content source l =
    enqueue
      (interactive_submission_received agent_id channel source.artifact_id source.submission_id
        source.zulip_message_id)
      (submission_job agent_id channel topic content source) l

-- `enqueue_agent_turn`; an exception is one of `int`.
unfoldable pub enqueue_agent_turn :
    ℕ
    → String
    → String
    → String
    → ConversationType
    → Option (List ℕ)
    → JobSource
    → Option ℕ
    → Ledger
    → Result String Ledger
enqueue_agent_turn agent_id channel topic content conversation_type recipients source session_id l =
    elim source [
      | by_mention m ↦ ok (
          enqueue_mention agent_id channel topic content conversation_type recipients m session_id
            l)
      | by_schedule s ↦
          enqueue_schedule agent_id channel topic content conversation_type recipients s l
      | by_submission s ↦ ok (enqueue_submission agent_id channel topic content s l)
    ]
