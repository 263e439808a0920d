-- ===== src/Tests/Worker.antt =====
-- A mention of an agent that holds a tool beyond its baseline.
use moomacha.Worker.{return, Failure, failed, World, JobDeps}
use moomacha.Worker.Tripwire.{insert_name, offending, tripped, tripwire_enabled}
use moomacha.Worker.Tripwire.Verdict.{IsAscending, classify_lem}
use moomacha.Worker.Turn.{resolve_agent}
use moomacha.Worker.Process.{is_tripped, process_job}
use moomacha.Worker.Settled.{Settles, process_job-Settles}
use moomacha.Worker.Survival.{process_job-survives}
use moomacha.Worker.Containment.{is_run, tripped_never_runs}
use moomacha.Worker.Disabling.{tripped-disabled}
use moomacha.Base.{
  ℕ, String, ◌≡◌, refl, sym, subst, ◌↔◌, true, false, none, some, List, [], ◌∷◌, ◌==◌, count, All,
  get,
}
use moomacha.Base.Text.{text_lt}
use moomacha.Base.Results.{is_ok, ok, raised}
use moomacha.Base.Json.{get_field, Json, bool, obj, end, field}
use moomacha.Jobs.{stream, zulip_mention, Job}
use moomacha.Pool.{find_by_email, SecretBox}
use moomacha.ToolAccess.{contains}
use moomacha.Agents.{Agents, agent_id, read, AgentRow, ResolvedAgent}
use moomacha.Tests.Fixtures.{busy}
use moomacha.Agents

abbrev box : SecretBox Failure
box = record { encrypt = λ s. s; decrypt = λ s. ok s }

abbrev config : Json
config = obj (field "codex" (obj (field "tripwire" (bool true) end)) end)

abbrev pub darkclaw : AgentRow
darkclaw = record {
  id = 1;
  name = "DarkClaw";
  persona = "";
  model_id = "small";
  zulip_bot_id = 5;
  zulip_bot_email = "dark@example.com";
  zulip_api_key_encrypted = "key";
  zulip_outgoing_token_encrypted = "secret";
  context_message_count = 0;
  readable_channels = [];
  allowed_tools = "remember" ∷ "run_bash" ∷ [];
  provisioning_status = "active";
  is_bastion = false;
  can_exec = false;
  is_librarian = false;
  knowledge_artifact_ids = [];
  enabled = true;
  runtime_kind = "codex";
  runtime_config = config;
}

abbrev resolved : ResolvedAgent
resolved = record {
  id = 1;
  name = "DarkClaw";
  persona = "";
  model_id = "small";
  zulip_bot_id = some 5;
  zulip_bot_email = "dark@example.com";
  zulip_api_key = "key";
  zulip_outgoing_token = "secret";
  context_message_count = 0;
  readable_channels = [];
  allowed_tools = "remember" ∷ "run_bash" ∷ [];
  is_bastion = false;
  can_exec = false;
  is_librarian = false;
  knowledge_artifact_ids = [];
  enabled = true;
  runtime_kind = "codex";
  runtime_config = config;
}

abbrev deps : JobDeps Unit Unit
deps = record {
  answers = λ t e. ok 7;
  read_messages = λ t place n. ok [];
  run = λ input. return "done";
  touches = λ t. ok 0;
  runner_kinds = "codex" ∷ [];
  box = box;
  store_failure = λ e. failed "MultipleResultsFound" "";
  tools = [];
  context_default_n = 20;
  turn_timeout_seconds = "300.0";
  has_registry = true;
  has_pool_store = true;
  has_session_store = true;
  show_uuid = λ id. "uuid";
  now = 20;
}

abbrev start : World
start = record { trace = []; agents = darkclaw ∷ []; db = busy }

abbrev job : Job
job = record {
  agent_id = 1;
  channel = "lab";
  topic = "gamma";
  content = "hello";
  conversation_type = stream;
  direct_recipient_ids = none;
  source_kind = zulip_mention;
  source_message_id = some 3;
  schedule_id = none;
  fire_key = none;
  invoking_user = none;
  session_id = none;
}

job-resolved : resolve_agent deps job start ≡ ok (some resolved)
unfolding resolve_agent get Agents.get read Agents.resolve_by_bot_email find_by_email
job-resolved = refl

trips : is_tripped resolved ≡ true
unfolding tripwire_enabled get_field tripped offending insert_name contains
trips = refl

process_job-Settles_example : Settles deps job start (process_job deps job start)
process_job-Settles_example = process_job-Settles deps job start

-- An agent that is not tripped, and whose runner raises.
abbrev modest : AgentRow
modest = record darkclaw { allowed_tools = [] }

abbrev failing : JobDeps Unit Unit
failing = record deps { run = λ input w. (raised (failed "RuntimeError" "boom"), w) }

abbrev failing_start : World
failing_start = record { trace = []; agents = modest ∷ []; db = busy }

modest-resolved :
    resolve_agent failing job failing_start ≡ ok (some (record resolved { allowed_tools = [] }))
unfolding resolve_agent get Agents.get read Agents.resolve_by_bot_email find_by_email
modest-resolved = refl

process_job-survives_example : is_ok (process_job failing job failing_start).0 ≡ true
process_job-survives_example =
    process_job-survives failing job failing_start (λ t e outside. refl)
      (subst (λ r. is_ok r ≡ true) (sym modest-resolved) refl)

tripped_never_runs_example : count is_run (process_job deps job start).1.trace ≡ 0
tripped_never_runs_example = tripped_never_runs deps job resolved start job-resolved trips

in_registry : get agent_id 1 start.agents ≡ some darkclaw
unfolding get
in_registry = refl

tripped-disabled_example :
    (get agent_id 1 (process_job deps job start).1.agents
      ≡ some (record darkclaw { enabled = false }))
    × ((k : ℕ)
        → (k == 1) ≡ false
        → get agent_id k (process_job deps job start).1.agents ≡ get agent_id k start.agents)
tripped-disabled_example =
    tripped-disabled deps (λ t e. refl) job resolved start darkclaw job-resolved trips refl
      in_registry

abbrev held : List String
held = "run_bash" ∷ "remember" ∷ "exec" ∷ "run_bash" ∷ []

the_offending : offending held ("remember" ∷ []) ≡ "exec" ∷ "run_bash" ∷ []
unfolding offending insert_name text_lt contains
the_offending = refl

classify_lem_example :
    ((tool : String)
      → contains tool (offending held ("remember" ∷ [])) ≡ true
        ↔ ((contains tool held ≡ true) × (contains tool ("remember" ∷ []) ≡ false)))
    × IsAscending (offending held ("remember" ∷ []))
    × (tripped held ("remember" ∷ []) ≡ false
        ↔ All (λ tool. contains tool ("remember" ∷ []) ≡ true) held)
classify_lem_example = classify_lem held ("remember" ∷ [])
