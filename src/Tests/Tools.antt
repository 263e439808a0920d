-- ===== src/Tests/Tools.antt =====
-- An agent with two tools, and a turn that calls one of them until its budget ends.
use moomacha.Base.{
  ℕ, suc, ◌+◌, ◌≤◌, String, ◌≡◌, refl, Bool, true, false, none, some, List, [], ◌∷◌, arith,
  if◌then◌else◌,
}
use moomacha.Base.Json.{obj, end}
use moomacha.Base.Results.{Result, ok, raised}
use moomacha.Agents.{ResolvedAgent}
use moomacha.ToolAccess.{
  lookup, contains, denied, run_adapter, resolve_names, dispatch, ToolContext, ToolEntry,
}
use moomacha.ToolAccess.Permission.{is_permitted, dispatch_lem}
use moomacha.ToolAccess.Exposure.{IsDict, exposed-eq-permitted}
use moomacha.TurnLoop.{
  execute_call, run_calls, run_turn, ToolCall, TurnError, budget_exceeded, LoopDeps,
}
use moomacha.TurnLoop.Budget.{NamesLimit, run_turn-budget}

abbrev agent : Bool → ResolvedAgent
agent is_bastion = record {
  id = 1;
  name = "Ada";
  persona = "helpful";
  model_id = "small";
  zulip_bot_id = none;
  zulip_bot_email = "ada@example.com";
  zulip_api_key = "key";
  zulip_outgoing_token = "token";
  context_message_count = 20;
  readable_channels = [];
  allowed_tools = "search" ∷ [];
  is_bastion = is_bastion;
  can_exec = false;
  is_librarian = false;
  knowledge_artifact_ids = [];
  enabled = true;
  runtime_kind = "deepagents";
  runtime_config = obj end;
}

abbrev here : ToolContext
here = record {
  agent = agent false;
  channel = "lab";
  topic = "alpha";
  playwright_session = none;
  invoking_user = none;
  invoking_text = none;
  source_message_id = none;
  memory_ns = none;
  conversation_type = "channel";
  direct_recipient_ids = none;
}

-- A tool that counts its runs.
abbrev counter : Bool → Bool → ToolEntry String ℕ
counter management requires_exec = record {
  description = "counts";
  schema = "object";
  validate = λ raw. ok raw;
  adapter = λ parsed ctx w. (ok (record { success = true; content = parsed }), suc w);
  management = management;
  requires_exec = requires_exec;
}

abbrev tools : List (String × ToolEntry String ℕ)
tools =
    ("search", counter false false)
    ∷ ("seed_pool", counter true false)
    ∷ ("both", counter true true)
    ∷ []

tools-IsDict : IsDict tools
unfolding lookup
tools-IsDict = (refl, (refl, (refl, tt)))

seed_pool_found : lookup "seed_pool" tools ≡ some (counter true false)
unfolding lookup
seed_pool_found = refl

exposed-eq-permitted_example :
    contains "seed_pool" (resolve_names tools ("search" ∷ []) false false)
    ≡ is_permitted "seed_pool" (agent false) (counter true false)
exposed-eq-permitted_example =
    exposed-eq-permitted tools "seed_pool" (counter true false) tools-IsDict seed_pool_found
      (agent false) refl

dispatch_lem_example : dispatch tools "seed_pool" "{}" here 0 ≡ (
    if is_permitted "seed_pool" (agent false) (counter true false)
    then run_adapter "seed_pool" "{}" (counter true false) here 0
    else (denied "seed_pool", 0))
dispatch_lem_example =
    dispatch_lem tools "seed_pool" "{}" here 0 (counter true false) seed_pool_found

-- A model that never stops calling, with a budget of two.
abbrev stubborn : LoopDeps ℕ
stubborn = record {
  create = λ messages w. (
    ok (record {
      content = none;
      tool_calls = (record { id = "1"; name = "search"; arguments = "{}" }) ∷ [];
    }),
    w,
  );
  run_tool = λ name args w. (record { success = true; content = args }, suc w);
  max_tool_calls = 2;
  on_tool_call = none;
}

stubborn_ends : run_turn stubborn [] 0 ≡ some (raised (budget_exceeded 3), 2)
unfolding run_turn run_calls execute_call
stubborn_ends = refl

counted : (tc : ToolCall) (w : ℕ) → (execute_call stubborn tc w).1 ≤ suc w
unfolding execute_call
counted tc w = omega arith

run_turn-budget_example :
    (r : Result TurnError String) × (w' : ℕ) × (run_turn stubborn [] 0 ≡ some (r, w'))
    × (w' ≤ 0 + 2)
    × NamesLimit 2 r
run_turn-budget_example = run_turn-budget stubborn (λ w. w) (λ messages w. refl) counted [] 0
