-- ===== src/Agents/Laws.antt =====
-- services/agent_registry.py: the privileges of an agent, and the reading back of its secrets.
use mathlib.Core.Option
use moomacha.Agents.{
  Agents, agent_id, set_enabled, find_by_email, clashes, new_row, create, assign, update,
  resolve_by_bot_email, AgentRow, AgentCreate, AgentRead, AgentUpdate, ResolvedAgent,
}
use moomacha.Base.{
  ℕ, String, ◌≡◌, refl, Bool, true, false, some, [], ◌∷◌, ◌++◌, arith, eq_iff, ◌==◌, if◌then◌else◌,
  any,
}
use moomacha.Base.Results.{ok}
use moomacha.Pool.{SecretBox}
use moomacha.Base.Table

-- What an agent may do beyond its tools, and whether it is answered at all.
abbrev pub privileges : AgentRow → Bool × Bool × Bool
privileges r = (r.is_bastion, r.can_exec, r.enabled)

-- No partial update changes is_bastion, can_exec or enabled of any agent.
pub privileges-update :
    {E : Type 0} (box : SecretBox E) (uuid j : ℕ) (d : AgentUpdate) (rows : Agents)
    → Option.map privileges (Table.get agent_id j (update box uuid d rows).1)
      ≡ Option.map privileges (Table.get agent_id j rows)
unfolding update assign
privileges-update box uuid j d rows =
    ground (arith, Table.get-update agent_id (assign box d) j uuid rows (λ r. refl))

-- set_enabled sets the flag of the agent it names, and changes no other agent's flags and no other
-- flag.
pub privileges-set_enabled :
    (uuid j : ℕ) (enabled : Bool) (rows : Agents)
    → Option.map privileges (Table.get agent_id j (set_enabled uuid enabled rows).1)
      ≡ Option.map
          (λ r. (r.is_bastion, r.can_exec, if j == uuid then enabled else r.enabled))
          (Table.get agent_id j rows)
unfolding set_enabled
privileges-set_enabled uuid j enabled rows =
    ground (
      arith,
      Table.get-update agent_id (λ r. record r { enabled = enabled }) j uuid rows (λ r. refl),
    )

find_by_email-append :
    (d : AgentCreate) (row : AgentRow) (rows : Agents)
    → row.zulip_bot_email ≡ d.zulip_bot_email
    → any (clashes d) rows ≡ false
    → find_by_email d.zulip_bot_email (rows ++ row ∷ []) ≡ some row
unfolding find_by_email
find_by_email-append d row [] same h = ground (arith, eq_iff row.zulip_bot_email d.zulip_bot_email)
find_by_email-append d row (x ∷ rows) same h = ground (arith, find_by_email-append d row rows same)

-- The agent that a new row resolves to.
pub record IsFresh (d : AgentCreate) (agent : ResolvedAgent) : Type 0 where
  pub key : agent.zulip_api_key ≡ d.zulip_api_key
  pub token : agent.zulip_outgoing_token ≡ d.zulip_outgoing_token
  pub tools : agent.allowed_tools ≡ d.allowed_tools
  pub unprivileged : (agent.is_bastion ≡ false) × (agent.can_exec ≡ false)
  pub answering : agent.enabled ≡ true

fresh_agent : ℕ → AgentCreate → ResolvedAgent
fresh_agent uuid d = record {
  id = uuid;
  name = d.name;
  persona = d.persona;
  model_id = d.model_id;
  zulip_bot_id = some d.zulip_bot_id;
  zulip_bot_email = d.zulip_bot_email;
  zulip_api_key = d.zulip_api_key;
  zulip_outgoing_token = d.zulip_outgoing_token;
  context_message_count = d.context_message_count;
  readable_channels = d.readable_channels;
  allowed_tools = d.allowed_tools;
  is_bastion = false;
  can_exec = false;
  is_librarian = d.is_librarian;
  knowledge_artifact_ids = d.knowledge_artifact_ids;
  enabled = true;
  runtime_kind = d.runtime_kind;
  runtime_config = d.runtime_config;
}

-- If decryption undoes encryption, a created agent resolves by its email to its own keys, tools and
-- no privilege, and is enabled.
pub resolve-create :
    {E : Type 0} (box : SecretBox E) (uuid : ℕ) (d : AgentCreate) (rows rows' : Agents)
    (view : AgentRead)
    → ((s : String) → box.decrypt (box.encrypt s) ≡ ok s)
    → create box uuid d rows ≡ ok (view, rows')
    → (agent : ResolvedAgent) × (resolve_by_bot_email box d.zulip_bot_email rows' ≡ ok (some agent))
      × IsFresh d agent
unfolding create resolve_by_bot_email fresh_agent
resolve-create box uuid d rows rows' view law e = (
  fresh_agent uuid d,
  found,
  record { key = refl; token = refl; tools = refl; unprivileged = (refl, refl); answering = refl },
)
  where
    free : any (clashes d) rows ≡ false
    free = ground arith

    found : resolve_by_bot_email box d.zulip_bot_email rows' ≡ ok (some (fresh_agent uuid d))
    found = ground (
      arith,
      find_by_email-append d (new_row box uuid d) rows refl free,
      law d.zulip_api_key,
      law d.zulip_outgoing_token,
    )
