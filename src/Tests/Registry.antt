-- ===== src/Tests/Registry.antt =====
-- An agent that is created, changed and resolved, an archetype, and the pool's next bot.
use moomacha.Agents.{
  Agents, read, new_row, create, resolve_by_bot_email, AgentCreate, AgentUpdate, ResolvedAgent,
}
use moomacha.Agents.Laws.{resolve-create, IsFresh}
use moomacha.Base.{String, ◌≡◌, refl, true, false, none, some, [], ◌∷◌, NodupKeys, first_by}
use moomacha.Base.Json.{obj, end}
use moomacha.Base.Results.{ok}
use moomacha.Rows.{free, leased}
use moomacha.Pool.{Bots, bot_id, next_free}
use moomacha.Archetypes.{ArchetypeDefinition}
use moomacha.Tests.Fixtures.{plain_box, bot, context}
use moomacha.SpinUp.Templates.{build_archetype, Builds, build_archetype-Builds, BuildArgs}
use moomacha.Base.Table

abbrev new_agent : AgentCreate
new_agent = record {
  name = "Ada";
  persona = "helpful";
  zulip_bot_id = 5;
  zulip_bot_email = "ada@example.com";
  zulip_api_key = "key";
  zulip_outgoing_token = "token";
  model_id = "small";
  context_message_count = 20;
  readable_channels = [];
  allowed_tools = "search" ∷ [];
  runtime_kind = "deepagents";
  runtime_config = obj end;
  is_librarian = false;
  knowledge_artifact_ids = [];
}

abbrev no_change : AgentUpdate
no_change = record {
  persona = some "terse";
  model_id = none;
  readable_channels = none;
  context_message_count = none;
  allowed_tools = some ("seed_pool" ∷ []);
  zulip_bot_id = none;
  zulip_bot_email = none;
  zulip_api_key = none;
  zulip_outgoing_token = none;
  provisioning_status = none;
  runtime_kind = none;
  runtime_config = none;
  is_librarian = none;
  knowledge_artifact_ids = none;
}

abbrev rows : Agents
rows = new_row plain_box 1 new_agent ∷ []

created : create plain_box 1 new_agent [] ≡ ok (read (new_row plain_box 1 new_agent), rows)
unfolding create
created = refl

resolve-create_example :
    (agent : ResolvedAgent) × (resolve_by_bot_email plain_box "ada@example.com" rows
      ≡ ok (some agent))
    × IsFresh new_agent agent
resolve-create_example =
    resolve-create plain_box 1 new_agent [] rows (read (new_row plain_box 1 new_agent)) (λ s. refl)
      created

abbrev tutor : String → ArchetypeDefinition
tutor persona = record {
  name = "tutor";
  persona = persona;
  model_id = "small";
  context_message_count = 20;
  allowed_tools = [];
  knowledge_artifact_ids = [];
  mcp_servers = [];
  runtime_kind = "deepagents";
  runtime_config = obj end;
}

abbrev bots : Bots
bots = bot 1 free none 5 ∷ bot 2 free none 3 ∷ bot 3 leased (some 11) 1 ∷ []

distinct : NodupKeys bot_id bots
unfolding Table.get
distinct = (refl, (refl, (refl, tt)))

second_is_next : next_free bots ≡ some (bot 2 free none 3)
unfolding next_free first_by
second_is_next = refl

abbrev tutor_request : BuildArgs
tutor_request = record {
  name = some "tutor";
  persona = some "kind";
  model_id = none;
  allowed_tools = none;
}

build_archetype-Builds_example : Builds [] (build_archetype (context true) tutor_request 1 [])
build_archetype-Builds_example = build_archetype-Builds (context true) tutor_request 1 []
