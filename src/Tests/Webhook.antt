-- ===== src/Tests/Webhook.antt =====
-- A mention of an agent and of a pool bot, delivered to the stores of the tests.
use moomacha.Base.{◌≤◌, String, ◌≡◌, refl, Bool, true, false, Option, none, some, [], ◌∷◌, count}
use moomacha.Base.Json.{obj, end}
use moomacha.Base.Results.{Result, ok, raised}
use moomacha.Lifecycle.{Db}
use moomacha.Lifecycle.Bound.{IsBound}
use moomacha.Agents.{Agents, resolve_by_bot_email, AgentRow, ResolvedAgent}
use moomacha.Resolver.{
  answer, resolve_pool_bot_for_webhook, PoolBotResolution, ResolveError, secret_failed,
}
use moomacha.Resolver.Laws.{Answers, resolve_pool_bot-Answers, resolve_pool_bot-IsBound}
use moomacha.Webhook.{
  has, token_matches, incoming, stream_name, OutgoingWebhookPayload, World, Deps, accepted, failed,
}
use moomacha.Webhook.Delivery.{Delivers, incoming-Delivers}
use moomacha.Webhook.Once.{is_about, deliveries, one_job_per_message}
use moomacha.Webhook.Posting.{lost_mention, job_of, mention_posts}
use moomacha.Tests.Fixtures.{plain_box, busy, busy-IsBound}

abbrev Stores : Type 0
Stores = Agents × Db

abbrev ada : AgentRow
ada = record {
  id = 1;
  name = "Ada";
  persona = "helpful";
  model_id = "small";
  zulip_bot_id = 5;
  zulip_bot_email = "ada@example.com";
  zulip_api_key_encrypted = "key";
  zulip_outgoing_token_encrypted = "secret";
  context_message_count = 20;
  readable_channels = [];
  allowed_tools = [];
  provisioning_status = "active";
  is_bastion = true;
  can_exec = false;
  is_librarian = false;
  knowledge_artifact_ids = [];
  enabled = true;
  runtime_kind = "deepagents";
  runtime_config = obj end;
}

abbrev by_email : String → Stores → Result (ResolveError String) (Option ResolvedAgent)
by_email email (agents, db) = elim (resolve_by_bot_email plain_box email agents) [
  | ok found ↦ ok found
  | raised e ↦ raised (secret_failed e)
]

abbrev by_pool :
    String
    → String
    → String
    → Stores
    → Result (ResolveError String) (Option PoolBotResolution) × Stores
by_pool email channel topic (agents, db) =
    let (answer, after) = resolve_pool_bot_for_webhook plain_box email channel topic 20 db in
    (answer, (agents, after))

abbrev deps : Deps (ResolveError String) Stores
deps = record {
  resolve_agent_by_email = by_email;
  add_reaction = λ agent id. true;
  resolve_pool_bot_turn = some by_pool;
}

abbrev mention_of : String → String → OutgoingWebhookPayload
mention_of email token = record {
  token = token;
  bot_email = some email;
  message = record {
    id = 77;
    content = "hello";
    display_recipient = stream_name "lab";
    subject = "beta";
    sender_id = some 9;
    sender_email = some "human@example.com";
    type = some "stream";
  };
}

abbrev start : World Stores
start = record { stores = (ada ∷ [], busy); seen = []; ledger = record { jobs = []; events = [] } }

incoming-Delivers_example :
    Delivers deps
      (mention_of "ada@example.com" "secret")
      start
      (incoming deps (mention_of "ada@example.com" "secret") start).1
incoming-Delivers_example = incoming-Delivers deps (mention_of "ada@example.com" "secret") start

one_job_per_message_example :
    count
      (is_about 77)
      (deliveries deps
        (mention_of "ada@example.com" "secret" ∷ mention_of "pool-bot@example.com" "token" ∷ [])
        start).ledger.jobs
    ≤ 1
one_job_per_message_example =
    one_job_per_message deps 77
      (mention_of "ada@example.com" "secret" ∷ mention_of "pool-bot@example.com" "token" ∷ []) start
      refl

abbrev seen_before : World Stores
seen_before = record start { seen = 77 ∷ [] }

was_seen : has 77 seen_before.seen ≡ true
unfolding has
was_seen = refl

resolve_pool_bot-Answers_example :
    Answers plain_box "pool-bot@example.com" "lab" "beta" 20 busy
      (resolve_pool_bot_for_webhook plain_box "pool-bot@example.com" "lab" "beta" 20 busy)
resolve_pool_bot-Answers_example =
    resolve_pool_bot-Answers plain_box "pool-bot@example.com" "lab" "beta" 20 busy busy-IsBound

resolve_pool_bot-IsBound_example :
    IsBound (resolve_pool_bot_for_webhook plain_box "pool-bot@example.com" "lab" "beta" 20 busy).1
resolve_pool_bot-IsBound_example =
    resolve_pool_bot-IsBound plain_box "pool-bot@example.com" "lab" "beta" 20 busy busy-IsBound

abbrev ada_agent : ResolvedAgent
ada_agent = record {
  id = 1;
  name = "Ada";
  persona = "helpful";
  model_id = "small";
  zulip_bot_id = some 5;
  zulip_bot_email = "ada@example.com";
  zulip_api_key = "key";
  zulip_outgoing_token = "secret";
  context_message_count = 20;
  readable_channels = [];
  allowed_tools = [];
  is_bastion = false;
  can_exec = false;
  is_librarian = false;
  knowledge_artifact_ids = [];
  enabled = true;
  runtime_kind = "deepagents";
  runtime_config = obj end;
}

-- The same deployment with Ada as a plain agent, and with a Zulip that answers or does not.
abbrev plain_deps : Bool → Deps (ResolveError String) Stores
plain_deps answers = record {
  resolve_agent_by_email = λ email stores. ok (some ada_agent);
  add_reaction = λ agent id. answers;
  resolve_pool_bot_turn = none;
}

abbrev to_ada : OutgoingWebhookPayload
to_ada = mention_of "ada@example.com" "secret"

matches : token_matches "secret" (some "secret") ≡ true
unfolding token_matches
matches = refl

unseen : has 77 start.seen ≡ false
unfolding has
unseen = refl

mention_posts_example :
    ((incoming (plain_deps true) to_ada start).0 ≡ accepted)
    × ((incoming (plain_deps true) to_ada start).1.stores ≡ start.stores)
    × ((incoming (plain_deps true) to_ada start).1.ledger.jobs
        ≡ job_of "lab" to_ada.message ada_agent ∷ [])
    × ((deps' : Deps (ResolveError String) Stores) (again : OutgoingWebhookPayload)
        → again.message.id ≡ 77
        → (incoming deps' again (incoming (plain_deps true) to_ada start).1).1.ledger.jobs
          ≡ (incoming (plain_deps true) to_ada start).1.ledger.jobs)
mention_posts_example =
    mention_posts (plain_deps true) to_ada start ada_agent "lab" refl refl refl refl refl unseen
      refl refl refl

lost_mention_example :
    ((incoming (plain_deps false) to_ada start).0 ≡ failed)
    × ((incoming
          (plain_deps true)
          to_ada
          (incoming (plain_deps false) to_ada start).1).1.ledger.jobs
        ≡ [])
lost_mention_example =
    lost_mention (plain_deps false) to_ada start ada_agent refl matches refl refl unseen refl
      (plain_deps true) to_ada refl
