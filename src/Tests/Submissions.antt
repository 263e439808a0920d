-- ===== src/Tests/Submissions.antt =====
-- The artifact of the store's tests, offered, submitted to and looked at.
use moomacha.Artifacts.{
  existing_submission, get_verified, expire_if_due, settled, closed_outcome, commit_submission,
  accept_submission, opened, ArtifactRow, accepted, conflict,
}
use moomacha.Artifacts.Phases.{IsIn, call, history, promises, pending, Call, submits, looks}
use moomacha.Artifacts.Refinement.{history-promises}
use moomacha.Artifacts.Route.{submissions, RouteState, RouteDeps, Request}
use moomacha.Artifacts.Resuming.{is_resume, resumed_once}
use moomacha.Artifacts.Offering.{
  create_interactive_response, Shows, offered_opens, CreateInput, Config,
}
use moomacha.Base.{
  ℕ, ◌+◌, ◌*◌, ◌≤◌, String, ◌≡◌, refl, true, false, none, some, List, [], ◌∷◌, arith, ◌==◌,
  if◌then◌else◌, length, count, get, update,
}
use moomacha.Base.Json.{null, obj, end}
use moomacha.Base.Text.{utf8_length}
use moomacha.Base.Results.{ok}
use moomacha.ToolAccess.{ToolContext}
use moomacha.Agents.{ResolvedAgent}
use moomacha.Tests.Artifacts.{hash_token, art, submission, store}

abbrev calls : List Call
calls = looks 7 20 ∷ submits (submission "a") 30 ∷ submits (submission "b") 40 ∷ looks 7 60 ∷ []

is_pending : IsIn (pending 50) 7 store
unfolding get existing_submission
is_pending = (art opened, refl, refl, refl, refl)

answers :
    (history 7 calls store).0
    ≡ record { outcome = accepted; submission = some (submission "a") }
      ∷ record { outcome = conflict; submission = some (submission "a") }
      ∷ []
unfolding history call accept_submission commit_submission expire_if_due existing_submission settled
    closed_outcome get update
answers = refl

history-promises_example :
    ((history 7 calls store).0 ≡ (promises 7 calls (pending 50)).0)
    × IsIn (promises 7 calls (pending 50)).1 7 (history 7 calls store).1
history-promises_example = history-promises 7 calls store (pending 50) is_pending

abbrev creator : ResolvedAgent
creator = record {
  id = 1;
  name = "Ada";
  persona = "helpful";
  model_id = "small";
  zulip_bot_id = none;
  zulip_bot_email = "ada@example.com";
  zulip_api_key = "key";
  zulip_outgoing_token = "token";
  context_message_count = 20;
  readable_channels = [];
  allowed_tools = [];
  is_bastion = false;
  can_exec = false;
  is_librarian = false;
  knowledge_artifact_ids = [];
  enabled = true;
  runtime_kind = "deepagents";
  runtime_config = obj end;
}

-- The body is the submission's id.
abbrev deps : RouteDeps
deps = record {
  hash_token = hash_token;
  dumps = λ payload. "{}";
  complete = λ model user. ok (some "all done");
  parse =
      λ raw. some (record { submission_id = if length raw == 1 then "a" else "b"; payload = null });
  resolve_agent = λ id. ok (some creator);
  send_message = λ before message. ok 9;
  summary_model = "small";
  max_payload_bytes = 100;
  base_url = "https://example.com";
  show_uuid = λ id. "uuid";
}

abbrev request : List ℕ → Request
request raw = record { artifact_id = 7; token = "secret"; raw = raw; clock = λ i. 10 + i }

abbrev start : RouteState
start = record { store = store; ledger = record { jobs = []; events = [] }; posted = [] }

resumed_once_example :
    count
      (is_resume 7)
      (submissions deps (request (1 ∷ []) ∷ request (1 ∷ 2 ∷ []) ∷ []) start).ledger.events
    ≤ 1
resumed_once_example = resumed_once deps 7 (request (1 ∷ []) ∷ request (1 ∷ 2 ∷ []) ∷ []) start refl

abbrev config : Config
config = record {
  hash_token = hash_token;
  show_uuid = λ id. "uuid";
  base_url = "https://example.com";
  default_expiry_minutes = 2880;
  max_expiry_minutes = 20160;
  max_html_bytes = 1000;
}

abbrev form : CreateInput
form = record { title = "Survey"; html = "<form/>"; expires_in_minutes = some 99999 }

abbrev pub context : ToolContext
context = record {
  agent = creator;
  channel = "lab";
  topic = "alpha";
  playwright_session = none;
  invoking_user = none;
  invoking_text = none;
  source_message_id = none;
  memory_ns = none;
  conversation_type = "stream";
  direct_recipient_ids = none;
}

fits : utf8_length "<form/>" ≤ 1000
unfolding utf8_length
fits = omega arith

offered_opens_example :
    (text : String) × ((create_interactive_response config 8 "raw" 10
        (λ sent. ok 3)
        form
        context
        store).2
      ≡ ("lab", "alpha", text) ∷ [])
    × Shows config text 8 "raw"
    × (row : ArtifactRow) × (get_verified hash_token 8 "raw"
          (create_interactive_response config 8 "raw" 10 (λ sent. ok 3) form context store).1
        ≡ some row)
    × (row.status ≡ opened)
    × (row.creator_agent_id ≡ 1)
    × (row.source_channel ≡ "lab")
    × (row.source_topic ≡ "alpha")
    × (row.expires_at ≤ 10 + 20160 * 60000000)
offered_opens_example = offered_opens config 8 "raw" 10 (λ sent. ok 3) form context store refl fits
