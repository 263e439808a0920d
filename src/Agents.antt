-- ===== src/Agents.antt =====
-- control-plane/src/control_plane/services/agent_registry.py, schemas/agents.py and `AgentRow` of
-- db/tables.py. A method is a function on the table of agents, in the order of `created_at`;
-- `uuid` is the key that the database gives a new row.
pub mod Laws
use mathlib.Core.Option
use moomacha.Base.{
  ℕ, String, Bool, true, false, not, ◌||◌, Option, none, some, List, [], ◌∷◌, ◌++◌, map, str_eq,
  ◌==◌, if◌then◌else◌, is_some, or_else, filter, any,
}
use moomacha.Base.Json.{Json}
use moomacha.Base.Results.{◌>>=◌, Result, ok, raised}
use moomacha.Pool.{SecretBox}
use moomacha.Base.Table

pub record AgentRow : Type 0 where
  pub id : ℕ
  pub name : String
  pub persona : String
  pub model_id : String
  pub zulip_bot_id : ℕ
  pub zulip_bot_email : String
  pub zulip_api_key_encrypted : String
  pub zulip_outgoing_token_encrypted : String
  pub context_message_count : ℕ
  pub readable_channels : List String
  pub allowed_tools : List String
  pub provisioning_status : String
  pub is_bastion : Bool
  pub can_exec : Bool
  pub is_librarian : Bool
  pub knowledge_artifact_ids : List String
  pub enabled : Bool
  pub runtime_kind : String
  pub runtime_config : Json

pub record AgentCreate : Type 0 where
  pub name : String
  pub persona : String
  pub zulip_bot_id : ℕ
  pub zulip_bot_email : String
  pub zulip_api_key : String
  pub zulip_outgoing_token : String
  pub model_id : String
  pub context_message_count : ℕ
  pub readable_channels : List String
  pub allowed_tools : List String
  pub runtime_kind : String
  pub runtime_config : Json
  pub is_librarian : Bool
  pub knowledge_artifact_ids : List String

-- The public view: no secret.
pub record AgentRead : Type 0 where
  pub id : ℕ
  pub name : String
  pub persona : String
  pub model_id : String
  pub zulip_bot_id : ℕ
  pub zulip_bot_email : String
  pub context_message_count : ℕ
  pub readable_channels : List String
  pub allowed_tools : List String
  pub provisioning_status : String
  pub enabled : Bool
  pub runtime_kind : String
  pub runtime_config : Json
  pub is_librarian : Bool
  pub knowledge_artifact_ids : List String

pub record AgentUpdate : Type 0 where
  pub persona : Option String
  pub model_id : Option String
  pub readable_channels : Option (List String)
  pub context_message_count : Option ℕ
  pub allowed_tools : Option (List String)
  pub zulip_bot_id : Option ℕ
  pub zulip_bot_email : Option String
  pub zulip_api_key : Option String
  pub zulip_outgoing_token : Option String
  pub provisioning_status : Option String
  pub runtime_kind : Option String
  pub runtime_config : Option Json
  pub is_librarian : Option Bool
  pub knowledge_artifact_ids : Option (List String)

pub record ResolvedAgent : Type 0 where
  pub id : ℕ
  pub name : String
  pub persona : String
  pub model_id : String
  pub zulip_bot_id : Option ℕ
  pub zulip_bot_email : String
  pub zulip_api_key : String
  pub zulip_outgoing_token : String
  pub context_message_count : ℕ
  pub readable_channels : List String
  pub allowed_tools : List String
  pub is_bastion : Bool
  pub can_exec : Bool
  pub is_librarian : Bool
  pub knowledge_artifact_ids : List String
  pub enabled : Bool
  pub runtime_kind : String
  pub runtime_config : Json

pub data RegistryError : Type 0 where
  agent_already_exists : RegistryError

abbrev pub Agents : Type 0
Agents = List AgentRow

abbrev pub agent_id : AgentRow → ℕ
agent_id r = r.id

-- `AgentRead.model_validate(row)`
unfoldable pub read : AgentRow → AgentRead
read r = record {
  id = r.id;
  name = r.name;
  persona = r.persona;
  model_id = r.model_id;
  zulip_bot_id = r.zulip_bot_id;
  zulip_bot_email = r.zulip_bot_email;
  context_message_count = r.context_message_count;
  readable_channels = r.readable_channels;
  allowed_tools = r.allowed_tools;
  provisioning_status = r.provisioning_status;
  enabled = r.enabled;
  runtime_kind = r.runtime_kind;
  runtime_config = r.runtime_config;
  is_librarian = r.is_librarian;
  knowledge_artifact_ids = r.knowledge_artifact_ids;
}

unfoldable pub list : Agents → List AgentRead
list rows = map read rows

unfoldable pub get : ℕ → Agents → Option AgentRead
get uuid rows = Option.map read (Table.get agent_id uuid rows)

unfoldable pub delete : ℕ → Agents → Bool × Agents
delete uuid rows = elim (Table.get agent_id uuid rows) [
  | none ↦ (false, rows)
  | some _ ↦ (true, filter (λ r. not (r.id == uuid)) rows)
]

unfoldable pub set_enabled : ℕ → Bool → Agents → Bool × Agents
set_enabled uuid enabled rows = (
  is_some (Table.get agent_id uuid rows),
  Table.update agent_id uuid (λ r. record r { enabled = enabled }) rows,
)

unfoldable pub find_by_email : String → Agents → Option AgentRow
find_by_email email [] = none
find_by_email email (r ∷ rows) =
    if str_eq r.zulip_bot_email email then some r else find_by_email email rows

-- The unique columns: a row with the same name or the same email refuses the insert.
abbrev pub clashes : AgentCreate → AgentRow → Bool
clashes d r = str_eq r.name d.name || str_eq r.zulip_bot_email d.zulip_bot_email

module _ {E : Type 0} (box : SecretBox E) where
  unfoldable pub new_row : ℕ → AgentCreate → AgentRow
  new_row uuid d = record {
    id = uuid;
    name = d.name;
    persona = d.persona;
    model_id = d.model_id;
    zulip_bot_id = d.zulip_bot_id;
    zulip_bot_email = d.zulip_bot_email;
    zulip_api_key_encrypted = box.encrypt d.zulip_api_key;
    zulip_outgoing_token_encrypted = box.encrypt d.zulip_outgoing_token;
    context_message_count = d.context_message_count;
    readable_channels = d.readable_channels;
    allowed_tools = d.allowed_tools;
    provisioning_status = "active";
    is_bastion = false;
    can_exec = false;
    is_librarian = d.is_librarian;
    knowledge_artifact_ids = d.knowledge_artifact_ids;
    enabled = true;
    runtime_kind = d.runtime_kind;
    runtime_config = d.runtime_config;
  }

  unfoldable pub create : ℕ → AgentCreate → Agents → Result RegistryError (AgentRead × Agents)
  unfolding new_row read
  create uuid d rows =
      if any (clashes d) rows
      then raised agent_already_exists
      else ok (read (new_row uuid d), rows ++ new_row uuid d ∷ [])

  -- Each field that is given replaces the row's; keys are encrypted on the way.
  unfoldable pub assign : AgentUpdate → AgentRow → AgentRow
  assign d r = record r {
    persona = or_else d.persona r.persona;
    model_id = or_else d.model_id r.model_id;
    readable_channels = or_else d.readable_channels r.readable_channels;
    context_message_count = or_else d.context_message_count r.context_message_count;
    allowed_tools = or_else d.allowed_tools r.allowed_tools;
    zulip_bot_id = or_else d.zulip_bot_id r.zulip_bot_id;
    zulip_bot_email = or_else d.zulip_bot_email r.zulip_bot_email;
    zulip_api_key_encrypted =
        or_else (Option.map box.encrypt d.zulip_api_key) r.zulip_api_key_encrypted;
    zulip_outgoing_token_encrypted =
        or_else (Option.map box.encrypt d.zulip_outgoing_token) r.zulip_outgoing_token_encrypted;
    provisioning_status = or_else d.provisioning_status r.provisioning_status;
    runtime_kind = or_else d.runtime_kind r.runtime_kind;
    runtime_config = or_else d.runtime_config r.runtime_config;
    is_librarian = or_else d.is_librarian r.is_librarian;
    knowledge_artifact_ids = or_else d.knowledge_artifact_ids r.knowledge_artifact_ids;
  }

  -- A taken email would make the commit fail; that check of the database is left out.
  unfoldable pub update : ℕ → AgentUpdate → Agents → Option AgentRead × Agents
  update uuid d rows = (
    Option.map (λ r. read (assign d r)) (Table.get agent_id uuid rows),
    Table.update agent_id uuid (assign d) rows,
  )

  resolve : AgentRow → Result E ResolvedAgent
  resolve r = do
    api_key ← box.decrypt r.zulip_api_key_encrypted
    outgoing_token ← box.decrypt r.zulip_outgoing_token_encrypted
    ok (record {
      id = r.id;
      name = r.name;
      persona = r.persona;
      model_id = r.model_id;
      zulip_bot_id = some r.zulip_bot_id;
      zulip_bot_email = r.zulip_bot_email;
      zulip_api_key = api_key;
      zulip_outgoing_token = outgoing_token;
      context_message_count = r.context_message_count;
      readable_channels = r.readable_channels;
      allowed_tools = r.allowed_tools;
      is_bastion = r.is_bastion;
      can_exec = r.can_exec;
      is_librarian = r.is_librarian;
      knowledge_artifact_ids = r.knowledge_artifact_ids;
      enabled = r.enabled;
      runtime_kind = r.runtime_kind;
      runtime_config = r.runtime_config;
    })

  unfoldable pub resolve_by_bot_email : String → Agents → Result E (Option ResolvedAgent)
  unfolding find_by_email resolve
  resolve_by_bot_email email rows = elim (find_by_email email rows) [
    | none ↦ ok none
    | some r ↦ resolve r >>= λ agent. ok (some agent)
  ]
