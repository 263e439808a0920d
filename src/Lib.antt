-- ===== src/Lib.antt =====
-- moomacha's control plane (control-plane/src/control_plane): chat agents on Zulip, run by bots that
-- a pool lends to sessions. A table is a list of rows, a store's method a function from the tables
-- to its result and the tables it leaves; an exception is `raised`, a missing row `none`. Uuids and
-- times are natural numbers, and `clock i` is what the i-th reading of the clock in a call gives.
--
-- Base: the conditional, Boolean tests, list and table operations, results (`Base.Results`), and the
--   JSON values that rows hold (`Base.Json`). Rows: the rows of bots and sessions (db/tables.py).
-- Pool: services/pool_store.py and services/crypto.py; `Pool.Laws` has what leasing and releasing do.
-- Sessions: services/session_store.py; a topic for which two sessions are open makes the store raise.
-- Archetypes: services/archetype_catalog.py and schemas/archetype.py.
-- Agents: services/agent_registry.py and schemas/agents.py.
-- Lifecycle: services/session_lifecycle.py (reclaim), session_reaper.py, orphan_recovery.py, on the
--   pool and the sessions together. `Lifecycle.Bound` declares the invariant `IsBound`: every open
--   session's bot is leased, and to that session. `Lifecycle.Reaping` and `Lifecycle.Restarting`
--   have what a tick of the reaper and a recovery do to it.
-- SpinUp: tools/management/sessions.py. `spin_up_session` makes a session, leases a bot, brings it
--   to life in Zulip and rolls back when that fails; `close_session` ends it, and
--   `SpinUp.Templates` has `build_archetype`. `SpinUp.Outcome` has the states that a call may
--   leave, by its reply. Sessions are called bound when `IsBound` holds. `SpinUp.Reached` has the
--   databases that calls of these services, one after another, reach from a fresh pool.
-- ToolAccess: runtime/tools/registry.py and runtime.py: the tools an agent is told of, and the
--   chokepoint `execute` that every call passes.
-- TurnLoop: runtime/loop.py. `run_turn` has fuel for `max_tool_calls + 1` rounds: each round but the
--   last executes a tool or ends the turn, so the fuel is never used up.
-- Schedules: services/schedule_store.py. `claim_due` settles the due rows one by one;
--   `Schedules.Once` follows a schedule through a history of calls.
-- Artifacts: services/artifact_store.py: one accepted submission for each interactive artifact.
--   `Artifacts.Phases` is the contract that `Artifacts.Refinement` is about: the phases of one artifact.
--   `Artifacts.Summary` and `Artifacts.Route` have services/artifact_summary.py and routes/artifacts.py,
--   `Artifacts.Offering` runtime/tools/interactive_response.py.
-- Jobs: services/job_source.py: the job of a mention, of a schedule that fires and of a submission.
-- Scheduler: services/scheduler.py: a tick claims the due schedules and enqueues their jobs.
-- Resolver: services/pool_resolver.py.
-- Webhook: routes/zulip_webhook.py with dedupe.py and models.py, on any resolvers of agents and pool
--   bots; `Resolver` and `Agents` have those that app.py passes.
-- Worker: services/job_queue.py with tripwire.py, context_assembly.py and runtime/runners/router.py. A
--   turn is a step on a world with a trace of effects; each call is on the trace before its answer is
--   known, and the answers are a parameter, so the theorems hold for every failure.
-- Management: tools/management/tools.py, confirm.py and context.py: the bastion's tools on `Agents`.
-- Memory: runtime/tools/agent_memory.py: scopes, namespaces and the requests to the memory service.
-- Scheduling, Messages: runtime/tools/scheduling.py and messages.py.
-- Knowledge: services/knowledge_artifact_store.py and skill_catalog.py, and the tools of
--   runtime/tools/knowledge_artifacts.py.
-- Images: services/generated_media_store.py and runtime/tools/images.py: the tool that makes images.
-- Tests: the theorems applied to small inputs.
--
-- Parameters: Fernet encryption (`SecretBox`), sha256, croniter with zoneinfo (`next_cron`), the
-- language model and the adapters of the tools. A method is one step; what other transactions commit
-- inside `accept_submission` is its argument `others`. Row locks are not modelled, nor is an error
-- of the database but those that the code handles. Not modelled: the other HTTP routes, the dashboard and
-- observability, the runners of other runtimes and the tools that call external services, the validator of
-- an image's title, configuration and startup, the WhatsApp sidecar and exec-mcp.
pub mod Base
pub mod Rows
pub mod Pool
pub mod Sessions
pub mod Archetypes
pub mod Agents
pub mod ToolAccess
pub mod TurnLoop
pub mod Schedules
pub mod Artifacts
pub mod Lifecycle
pub mod SpinUp
pub mod Images
pub mod Jobs
pub mod Scheduler
pub mod Worker
pub mod Management
pub mod Memory
pub mod Knowledge
pub mod Scheduling
pub mod Messages
pub mod Resolver
pub mod Webhook
pub mod Tests
