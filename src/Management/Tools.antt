-- ===== src/Management/Tools.antt =====
-- control-plane/src/control_plane/tools/management/tools.py, with the input types of adapters.py: the
-- bastion's tools on the registry of agents. A call gives the text for the chat, or the exception that
-- it lets through.
use Prim.Native.Char.{code}
use moomacha.Management.{confirmation_satisfied, resolve_one, Provisioned, ManagementContext}
use moomacha.Base.{
  ℕ, String, ◌<>◌, Bool, true, false, ◌||◌, Option, none, some, List, [], ◌∷◌, ◌++◌, map, str_eq,
  ◌==◌, if◌then◌else◌, is_some, or_else, length,
}
use moomacha.Base.Text.{show, join}
use moomacha.Base.Results.{Result, ok, raised}
use moomacha.Base.Json.{obj, end}
use moomacha.Agents.{Agents, set_enabled, AgentCreate, AgentRead, AgentUpdate, RegistryError}
use moomacha.Agents

pub record CreateAgentArgs : Type 0 where
  pub name : String
  pub persona : String
  pub model_id : Option String
  pub readable_channels : List String
  pub zulip_bot_id : Option ℕ
  pub zulip_bot_email : Option String
  pub zulip_api_key : Option String
  pub zulip_outgoing_token : Option String

pub record UpdateAgentArgs : Type 0 where
  pub name : String
  pub persona : Option String
  pub model_id : Option String
  pub readable_channels : Option (List String)
  pub context_message_count : Option ℕ

pub record AttachBotArgs : Type 0 where
  pub name : String
  pub outgoing_token : String
  pub api_key : Option String
  pub bot_id : Option ℕ
  pub bot_email : Option String

-- A call of one of the tools. A new agent's id is `uuid`.
pub data Call : Type 0 where
  list_agents : Call
  get_agent : (name : String) → Call
  create_agent : (uuid : ℕ) → CreateAgentArgs → Call
  update_agent : UpdateAgentArgs → Call
  enable_agent disable_agent delete_agent provision_bot : (name : String) → Call
  attach_bot : AttachBotArgs → Call
  set_bot_avatar : (name image_url : String) → Call

-- The agents, and the audit events with the agent's id, the newest last.
pub record Office : Type 0 where
  pub agents : Agents
  pub events : List (String × ℕ)

abbrev no_update : AgentUpdate
no_update = record {
  persona = none;
  model_id = none;
  readable_channels = none;
  context_message_count = none;
  allowed_tools = none;
  zulip_bot_id = none;
  zulip_bot_email = none;
  zulip_api_key = none;
  zulip_outgoing_token = none;
  provisioning_status = none;
  runtime_kind = none;
  runtime_config = none;
  is_librarian = none;
  knowledge_artifact_ids = none;
}

-- `name.replace(" ", "-")`
pub dashed : String → String
dashed String.[] = ""
dashed (String.◌∷◌ c s) = (if code c == 32 then "-" else String.◌∷◌ c "") <> dashed s

-- A text that is given and not empty.
pub given : Option String → Option String
given none = none
given (some s) = if str_eq s "" then none else some s

pub given_id : Option ℕ → Option ℕ
given_id none = none
given_id (some n) = if n == 0 then none else some n

module _ {E : Type 0} (ctx : ManagementContext E) where
  abbrev pub Answer : Type 0
  Answer = Result E String × Office

  -- `_emit`
  abbrev pub emit : String → ℕ → Office → Office
  emit event_type id s = record s {
    events = if ctx.has_events then s.events ++ ((event_type, id) ∷ []) else s.events;
  }

  line_of : AgentRead → String
  line_of a = join "" (
      "- "
      ∷ a.name
      ∷ " (model="
      ∷ a.model_id
      ∷ ", status="
      ∷ a.provisioning_status
      ∷ ", channels="
      ∷ show (length a.readable_channels)
      ∷ ")"
      ∷ [])

  pub listing : List AgentRead → String
  unfolding line_of
  listing [] = "There are no agents yet."
  listing (a ∷ agents) = "Agents:\n" <> join "\n" (map line_of (a ∷ agents))

  pub profile : AgentRead → String
  profile a =
      let channels = join ", " a.readable_channels in
      join "\n" (
        a.name
        ∷ ("  model: " <> a.model_id)
        ∷ ("  bot email: " <> a.zulip_bot_email)
        ∷ ("  status: " <> a.provisioning_status)
        ∷ ("  context messages: " <> show a.context_message_count)
        ∷ ("  readable channels: " <> (if str_eq channels "" then "(none)" else channels))
        ∷ [])

  -- What a tool does to the one agent of the name.
  unfoldable pub on_agent : String → (AgentRead → Office → Answer) → Office → Answer
  on_agent name act s = elim (resolve_one ctx name s.agents) [
    | raised err ↦ (ok err, s)
    | ok agent ↦ act agent s
  ]

  -- The registry's insert, which a taken name or email refuses.
  unfoldable pub registered :
      ℕ → AgentCreate → String → Office → Result RegistryError (AgentRead × Agents) → Answer
  registered uuid d followup s (raised _) = (
    ok (
        join "" (
          "Could not create '" ∷ d.name ∷ "': agent with name '" ∷ d.name ∷ "' or bot_email '"
          ∷ d.zulip_bot_email ∷ "' already exists" ∷ [])),
    s,
  )
  registered uuid d followup s (ok (created, agents)) = (
    ok (
        join ""
          ("Created agent " ∷ created.name ∷ " (model=" ∷ created.model_id ∷ ")." ∷ followup ∷ [])),
    emit "agent_created" uuid (record s { agents = agents }),
  )

  unfoldable pub register_agent : ℕ → AgentCreate → String → Office → Answer
  register_agent uuid d followup s =
      registered uuid d followup s (Agents.create ctx.box uuid d s.agents)

  -- The defaults of `AgentCreate`.
  new_agent : CreateAgentArgs → ℕ → String → String → String → AgentCreate
  new_agent args bot_id bot_email api_key outgoing_token = record {
    name = args.name;
    persona = args.persona;
    zulip_bot_id = bot_id;
    zulip_bot_email = bot_email;
    zulip_api_key = api_key;
    zulip_outgoing_token = outgoing_token;
    model_id = or_else (given args.model_id) ctx.default_model;
    context_message_count = 20;
    readable_channels = args.readable_channels;
    allowed_tools = [];
    runtime_kind = "openai_tool_loop";
    runtime_config = obj end;
    is_librarian = false;
    knowledge_artifact_ids = [];
  }

  -- The four credentials, when all are given.
  manual : CreateAgentArgs → Option AgentCreate
  manual args = elim (given_id args.zulip_bot_id) [
    | none ↦ none
    | some id ↦ elim (given args.zulip_bot_email) [
      | none ↦ none
      | some email ↦ elim (given args.zulip_api_key) [
        | none ↦ none
        | some key ↦ elim (given args.zulip_outgoing_token) [
          | none ↦ none
          | some token ↦ some (new_agent args id email key token)
        ]
      ]
    ]
  ]

  pub short_name_of : String → String
  short_name_of name = dashed (ctx.lower name) <> "-bot"

  followup_of : String → Option String → String
  followup_of name (some token) = " Its Zulip bot is provisioned and ready to receive mentions."
  followup_of name none =
      " The bot was created but its outgoing-webhook token could not be captured, so '"
      <> (name
          <> ("' will not receive webhooks until you run: attach_bot " <> (name <> " <token>.")))

  unfoldable pub provisioned : ℕ → CreateAgentArgs → Office → Result String Provisioned → Answer
  unfolding followup_of new_agent
  provisioned uuid args s (raised e) =
      (ok ("Provisioning failed for '" <> (args.name <> ("': " <> e))), s)
  provisioned uuid args s (ok bot) =
      register_agent uuid
        (new_agent args bot.bot_id bot.bot_email bot.api_key (or_else bot.outgoing_token ""))
        (followup_of args.name (given bot.outgoing_token)) s

  unfoldable pub create_with : ℕ → CreateAgentArgs → Office → Option AgentCreate → Answer
  unfolding short_name_of
  create_with uuid args s (some d) = register_agent uuid d "" s
  create_with uuid args s none =
      provisioned uuid args s
        (ctx.provision args.name (short_name_of args.name) ctx.payload_url args.readable_channels)

  unfoldable pub create : ℕ → CreateAgentArgs → Office → Answer
  unfolding manual new_agent
  create uuid args s =
      if str_eq args.name "" || str_eq args.persona ""
      then (ok "create_agent requires both 'name' and 'persona'.", s)
      else create_with uuid args s (manual args)

  -- `set_enabled` and its event.
  unfoldable pub switch : Bool → AgentRead → Office → Answer
  switch enabled agent s = (
    ok ((if enabled then "Enabled agent " else "Disabled agent ") <> (agent.name <> ".")),
    emit (if enabled then "agent_enabled" else "agent_disabled") agent.id
        (record s { agents = (set_enabled agent.id enabled s.agents).1 }),
  )

  unfoldable pub remove : AgentRead → Office → Answer
  remove agent s = (
    ok ("Deleted agent " <> (agent.name <> ".")),
    emit "agent_deleted" agent.id (record s { agents = (Agents.delete agent.id s.agents).1 }),
  )

  -- A destructive tool asks for the confirmation first.
  unfoldable pub confirmed : String → (AgentRead → Office → Answer) → AgentRead → Office → Answer
  confirmed question act agent s =
      if confirmation_satisfied ctx agent.name
      then act agent s
      else (ok (question <> (" Reply with `confirm " <> (agent.name <> "` to proceed."))), s)

  -- `registry.update`, an event and an answer.
  unfoldable pub apply_update : AgentUpdate → String → String → AgentRead → Office → Answer
  apply_update d event_type reply agent s = (
    ok reply,
    emit event_type agent.id (record s { agents = (Agents.update ctx.box agent.id d s.agents).1 }),
  )

  unfoldable pub edited : AgentUpdate → AgentRead → Office → Option AgentRead → Answer
  edited d agent s none = (ok ("Could not update '" <> (agent.name <> "'.")), s)
  edited d agent s (some updated) =
      apply_update d "agent_updated" ("Updated agent " <> (updated.name <> ".")) agent s

  unfoldable pub edit : UpdateAgentArgs → AgentRead → Office → Answer
  edit args agent s =
      let d = record no_update {
        persona = args.persona;
        model_id = args.model_id;
        readable_channels = args.readable_channels;
        context_message_count = args.context_message_count;
      } in
      edited d agent s (Agents.update ctx.box agent.id d s.agents).0

  unfoldable pub attach : AttachBotArgs → AgentRead → Office → Answer
  attach args agent s =
      if str_eq args.outgoing_token ""
      then (ok "attach_bot requires 'outgoing_token'.", s)
      else apply_update
          (record no_update {
            zulip_outgoing_token = some args.outgoing_token;
            zulip_api_key = args.api_key;
            zulip_bot_id = args.bot_id;
            zulip_bot_email = args.bot_email;
            provisioning_status = some "active";
          })
          "bot_attached"
          ("Attached bot credentials to " <> (agent.name <> "; it can now receive webhooks.")) agent
          s

  unfoldable pub uploaded : AgentRead → Office → Result String String → Answer
  uploaded agent s (raised e) =
      (ok ("Could not set avatar for '" <> (agent.name <> ("': " <> e))), s)
  uploaded agent s (ok url) = (
    ok ("Updated " <> (agent.name <> ("'s avatar: " <> url))),
    emit "bot_avatar_updated" agent.id s,
  )

  unfoldable pub avatar : String → AgentRead → Office → Answer
  unfolding uploaded
  avatar image_url agent s =
      if str_eq image_url ""
      then (ok "set_bot_avatar requires an 'image_url' pointing at the image to upload.", s)
      else if str_eq agent.zulip_bot_email ""
      then (ok ("Agent '" <> (agent.name <> "' has no Zulip bot, so it has no avatar to set.")), s)
      else elim (Agents.resolve_by_bot_email ctx.box agent.zulip_bot_email s.agents) [
        | raised e ↦ (raised e, s)
        | ok none ↦ (ok ("Could not resolve Zulip credentials for '" <> (agent.name <> "'.")), s)
        | ok (some resolved) ↦ uploaded agent s (ctx.upload_avatar resolved image_url)
      ]

  unfoldable pub attached : AgentRead → Office → Result String Provisioned → Answer
  attached agent s (raised e) =
      (ok ("Provisioning failed for '" <> (agent.name <> ("': " <> e))), s)
  attached agent s (ok bot) =
      let token = given bot.outgoing_token in
      apply_update
        (record no_update {
          zulip_bot_id = some bot.bot_id;
          zulip_bot_email = some bot.bot_email;
          zulip_api_key = some bot.api_key;
          zulip_outgoing_token = token;
          provisioning_status = some (if is_some token then "active" else "awaiting_token");
        })
        "bot_provisioned"
        (if is_some token
          then "Provisioned bot for "
            <> (agent.name <> "; its webhook token was captured and it is ready.")
          else join "" (
              "Provisioned bot for " ∷ agent.name
              ∷ ", but its outgoing-webhook token could not be captured; run: attach_bot "
              ∷ agent.name ∷ " <token>." ∷ []))
        agent s

  unfoldable pub provision_for : AgentRead → Office → Answer
  unfolding attached
  provision_for agent s =
      attached agent s (
        ctx.provision agent.name (short_name_of agent.name) ctx.payload_url agent.readable_channels)

  unfoldable pub call : Call → Office → Answer
  call list_agents s = (ok (listing (Agents.list s.agents)), s)
  call (get_agent name) s = on_agent name (λ a t. (ok (profile a), t)) s
  call (create_agent uuid args) s = create uuid args s
  call (update_agent args) s = on_agent args.name (edit args) s
  call (enable_agent name) s = on_agent name (switch true) s
  call (disable_agent name) s =
      on_agent name
        (λ a.
          confirmed
            (join "" (
              "⚠\u{fe0f} This disables agent **" ∷ a.name
              ∷ "** (it will stop responding to mentions)." ∷ []))
            (switch false) a)
        s
  call (delete_agent name) s =
      on_agent name
        (λ a.
          confirmed
            (join "" (
              "⚠\u{fe0f} This permanently deletes agent **" ∷ a.name ∷ "** (bot "
              ∷ a.zulip_bot_email ∷ ")." ∷ []))
            remove a)
        s
  call (provision_bot name) s = on_agent name provision_for s
  call (attach_bot args) s = on_agent args.name (attach args) s
  call (set_bot_avatar name image_url) s = on_agent name (avatar image_url) s

  unfoldable pub calls : List Call → Office → Office
  calls [] s = s
  calls (c ∷ rest) s = calls rest (call c s).1
