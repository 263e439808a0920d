-- ===== src/Worker/Turn.antt =====
-- control-plane/src/control_plane/services/job_queue.py: the parts of `process_job`, with
-- `_resolve_by_id` of app.py and `select` of runtime/runners/router.py. The ids of the trace and the
-- logs are left out; a client of the language model has a `close`.
use moomacha.Worker.{
  Step, ◌>>◌, perform, Failure, Place, in_topic, in_direct, edit, turn_end, error_event,
  get_messages, World, HistoryMessage, RunnerInput, JobDeps,
}
use moomacha.Worker.Prompt.{build_context_prompt}
use moomacha.Base.{
  ℕ, String, ◌<>◌, ◌&&◌, Option, none, some, List, [], ◌∷◌, str_eq, ◌==◌, if◌then◌else◌, is_some,
  or_else,
}
use moomacha.Base.Results.{Result, ok, raised}
use moomacha.Base.Text.{slice_to}
use moomacha.Rows.{SessionRow}
use moomacha.Jobs.{ConversationType, stream, direct, Job}
use moomacha.ToolAccess.{describe_tools}
use moomacha.Agents.{Agents, read, ResolvedAgent}
use moomacha.Pool.{bot_id}
use moomacha.Sessions.{Sessions}
use moomacha.Lifecycle.{Db}
use moomacha.Resolver.{agent_from_snapshot}
use moomacha.Agents
use moomacha.Pool
use moomacha.Sessions

module _ {Parsed Tools : Type 0} (deps : JobDeps Parsed Tools) where
  -- `registry.get`, then `registry.resolve_by_bot_email`.
  resolve_by_id : ℕ → Agents → Result Failure (Option ResolvedAgent)
  resolve_by_id id agents = elim (Agents.get id agents) [
    | none ↦ ok none
    | some read ↦ Agents.resolve_by_bot_email deps.box read.zulip_bot_email agents
  ]

  -- The bot of a session that has one.
  session_bot : Job → SessionRow → ℕ → Db → Result Failure (Option ResolvedAgent)
  session_bot job session bot_id db = elim (Pool.resolve_creds deps.box bot_id db.pool) [
    | raised e ↦ raised e
    | ok none ↦ ok none
    | ok (some creds) ↦ elim (Pool.find bot_id db.pool) [
      | none ↦ ok none
      | some bot ↦ ok (
          some (
            agent_from_snapshot session.archetype_snapshot creds bot.id bot.zulip_bot_id
              job.channel))
    ]
  ]

  resolve_session_agent : Job → Db → Result Failure (Option ResolvedAgent)
  unfolding session_bot
  resolve_session_agent job db =
      elim (Sessions.resolve_for_topic job.channel job.topic db.sessions) [
        | raised e ↦ raised (deps.store_failure e)
        | ok none ↦ ok none
        | ok (some session) ↦ elim session.pool_bot_id [
          | none ↦ ok none
          | some bot_id ↦ session_bot job session bot_id db
        ]
      ]

  unfoldable pub resolve_agent : Job → World → Result Failure (Option ResolvedAgent)
  unfolding resolve_by_id resolve_session_agent
  resolve_agent job w =
      if is_some job.session_id && (deps.has_pool_store && deps.has_session_store)
      then resolve_session_agent job w.db
      else resolve_by_id job.agent_id w.agents

  -- Where the job's messages go; `direct_recipient_ids or []`.
  abbrev pub place_of : Job → Place
  place_of job = elim job.conversation_type [
    | direct ↦ in_direct (or_else job.direct_recipient_ids [])
    | stream ↦ in_topic job.channel job.topic
  ]

  abbrev conversation_name : ConversationType → String
  conversation_name direct = "direct"
  conversation_name stream = "stream"

  pub read_history : Job → ResolvedAgent → Step (List HistoryMessage)
  read_history job agent w =
      let asked = get_messages (place_of job) (
        if agent.context_message_count == 0
        then deps.context_default_n
        else agent.context_message_count) in
      (
        deps.read_messages w.trace (place_of job) (
            if agent.context_message_count == 0
            then deps.context_default_n
            else agent.context_message_count),
        record w { trace = asked ∷ w.trace },
      )

  -- The namespace of the topic's session, or one of the agent.
  pub memory_ns_of : Job → ResolvedAgent → Step String
  memory_ns_of job agent w = elim (Sessions.resolve_for_topic job.channel job.topic w.db.sessions) [
    | raised e ↦ (raised (deps.store_failure e), w)
    | ok none ↦ (ok ("agent:" <> deps.show_uuid agent.id), w)
    | ok (some session) ↦ (ok session.memory_ns, w)
  ]

  pub runner_input : Job → ResolvedAgent → List HistoryMessage → String → RunnerInput
  runner_input job agent history memory_ns = record {
    job = job;
    agent = agent;
    system_prompt =
        build_context_prompt agent.persona history job.channel job.topic
          (describe_tools deps.tools agent.allowed_tools agent.is_bastion agent.can_exec);
    user_message = job.content;
    tool_context = record {
      agent = agent;
      channel = job.channel;
      topic = job.topic;
      playwright_session = none;
      invoking_user = job.invoking_user;
      invoking_text = some job.content;
      source_message_id = job.source_message_id;
      memory_ns = some memory_ns;
      conversation_type = conversation_name job.conversation_type;
      direct_recipient_ids = job.direct_recipient_ids;
    };
    management = agent.is_bastion;
  }

  -- The runner for the kind that the agent names, if there is one.
  pub kind_of : ResolvedAgent → String
  kind_of agent = if str_eq agent.runtime_kind "" then "openai_tool_loop" else agent.runtime_kind

  -- `session_store.touch(job.session_id)`
  unfoldable pub touch_session : Job → Step ℕ
  touch_session job w = elim job.session_id [
    | none ↦ (ok 0, w)
    | some sid ↦
        if deps.has_session_store
        then elim (deps.touches w.trace) [
          | raised e ↦ (raised e, w)
          | ok n ↦ (
            ok n,
            record w {
              db = record w.db { sessions = Sessions.touch sid none deps.now w.db.sessions };
            },
          )
        ]
        else (ok 0, w)
  ]

  -- The placeholder becomes a notice, and the turn ends with the error.
  unfoldable pub give_up : ResolvedAgent → ℕ → String → String → String → String → Step ℕ
  give_up agent progress_id notice error_type message status =
      perform deps (edit progress_id notice)
      >> perform deps (error_event error_type message agent.id)
      >> perform deps (turn_end status none agent.id)

  unfoldable pub answer_turn : Job → ResolvedAgent → ℕ → String → Step ℕ
  unfolding touch_session
  answer_turn job agent progress_id text =
      perform deps (edit progress_id text)
      >> touch_session job
      >> perform deps (turn_end "ok" (some (slice_to 500 text)) agent.id)
