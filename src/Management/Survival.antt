-- ===== src/Management/Survival.antt =====
-- tools/management/tools.py: how the tools change the registry of agents, one case for each change.
-- What a property of the registry needs of each change that a tool can make to it.
use moomacha.Management.{confirmation_satisfied, resolve_one, Provisioned, ManagementContext}
use moomacha.Management.Tools.{
  Answer, on_agent, registered, register_agent, provisioned, create_with, create, switch, remove,
  confirmed, apply_update, edited, edit, attach, uploaded, avatar, attached, provision_for, call,
  CreateAgentArgs, UpdateAgentArgs, AttachBotArgs, Call, list_agents, get_agent, create_agent,
  update_agent, enable_agent, disable_agent, delete_agent, provision_bot, attach_bot,
  set_bot_avatar, Office,
}
use moomacha.Base.{
  ℕ, String, ◌≡◌, refl, inl, inr, true, false, ◌||◌, Option, none, some, [], ◌∷◌, ◌++◌, str_eq,
  Bool-cases, if_ind, any,
}
use moomacha.Base.Results.{found_ind, Result, ok, raised}
use moomacha.Agents.{Agents, set_enabled, AgentCreate, AgentRead, AgentUpdate}
use moomacha.Agents

pub record Survives {E : Type 0} (ctx : ManagementContext E) (P : Agents → Type 0) (rows : Agents)
    : Type 0 where
  pub idle : P rows
  pub updates : (id : ℕ) (d : AgentUpdate) → P (Agents.update ctx.box id d rows).1
  pub inserts :
      (uuid : ℕ) (d : AgentCreate)
      → any (Agents.clashes d) rows ≡ false
      → P (rows ++ (Agents.new_row ctx.box uuid d ∷ []))
  pub enables : (a : AgentRead) → P (set_enabled a.id true rows).1
  pub disables :
      (n : String) (a : AgentRead)
      → resolve_one ctx n rows ≡ ok a
      → confirmation_satisfied ctx a.name ≡ true
      → P (set_enabled a.id false rows).1
  pub deletes :
      (n : String) (a : AgentRead)
      → resolve_one ctx n rows ≡ ok a
      → confirmation_satisfied ctx a.name ≡ true
      → P (Agents.delete a.id rows).1

module _ {E : Type 0} (ctx : ManagementContext E) (P : Agents → Type 0) (s : Office)
    (h : Survives ctx P s.agents) where
  abbrev held : P s.agents
  held = h.idle

  abbrev Safe : Result E String × Office → Type 0
  Safe x = P x.1.agents

  on_agent-Safe :
      (n : String) (act : AgentRead → Office → Answer ctx)
      → ((a : AgentRead) → resolve_one ctx n s.agents ≡ ok a → Safe (act a s))
      → Safe (on_agent ctx n act s)
  unfolding on_agent
  on_agent-Safe n act safe = go (resolve_one ctx n s.agents) refl
    where
      go :
          (r : Result String AgentRead)
          → resolve_one ctx n s.agents ≡ r
          → Safe (elim r [ raised err ↦ (ok err, s) | ok agent ↦ act agent s ])
      go (raised err) e = held
      go (ok a) e = safe a e

  apply_update-Safe :
      (d : AgentUpdate) (event reply : String) (a : AgentRead)
      → Safe (apply_update ctx d event reply a s)
  unfolding apply_update
  apply_update-Safe d event reply a = h.updates a.id d

  edited-Safe : (d : AgentUpdate) (a : AgentRead) (r : Option AgentRead) → Safe (edited ctx d a s r)
  unfolding edited
  edited-Safe d a none = held
  edited-Safe d a (some updated) = apply_update-Safe d _ _ a

  edit-Safe : (args : UpdateAgentArgs) (a : AgentRead) → Safe (edit ctx args a s)
  unfolding edit
  edit-Safe args a = edited-Safe _ a _

  attach-Safe : (args : AttachBotArgs) (a : AgentRead) → Safe (attach ctx args a s)
  unfolding attach
  attach-Safe args a =
      if_ind Safe (str_eq args.outgoing_token "") (λ empty. held)
        (λ some_token. apply_update-Safe _ _ _ a)

  uploaded-Safe : (a : AgentRead) (r : Result String String) → Safe (uploaded ctx a s r)
  unfolding uploaded
  uploaded-Safe a (raised e) = held
  uploaded-Safe a (ok url) = held

  avatar-Safe : (url : String) (a : AgentRead) → Safe (avatar ctx url a s)
  unfolding avatar
  avatar-Safe url a =
      if_ind Safe (str_eq url "") (λ empty. held)
        (λ some_url.
          if_ind Safe (str_eq a.zulip_bot_email "") (λ no_bot. held)
            (λ has_bot.
              found_ind Safe (Agents.resolve_by_bot_email ctx.box a.zulip_bot_email s.agents)
                (λ e found. held) (λ found. held) (λ r found. uploaded-Safe a _)))

  attached-Safe : (a : AgentRead) (r : Result String Provisioned) → Safe (attached ctx a s r)
  unfolding attached
  attached-Safe a (raised e) = held
  attached-Safe a (ok bot) = apply_update-Safe _ _ _ a

  register_agent-Safe :
      (uuid : ℕ) (d : AgentCreate) (followup : String) → Safe (register_agent ctx uuid d followup s)
  unfolding register_agent Agents.create registered
  register_agent-Safe uuid d followup = elim (Bool-cases (any (Agents.clashes d) s.agents)) [
    | inl taken ↦ rw (taken, register_agent) held
    | inr free ↦ rw (free, register_agent) (h.inserts uuid d free)
  ]

  provisioned-Safe :
      (uuid : ℕ) (args : CreateAgentArgs) (r : Result String Provisioned)
      → Safe (provisioned ctx uuid args s r)
  unfolding provisioned
  provisioned-Safe uuid args (raised e) = held
  provisioned-Safe uuid args (ok bot) = register_agent-Safe uuid _ _

  create_with-Safe :
      (uuid : ℕ) (args : CreateAgentArgs) (d : Option AgentCreate)
      → Safe (create_with ctx uuid args s d)
  unfolding create_with
  create_with-Safe uuid args (some d) = register_agent-Safe uuid d ""
  create_with-Safe uuid args none = provisioned-Safe uuid args _

  create-Safe : (uuid : ℕ) (args : CreateAgentArgs) → Safe (create ctx uuid args s)
  unfolding create
  create-Safe uuid args =
      if_ind Safe (str_eq args.name "" || str_eq args.persona "") (λ missing. held)
        (λ fine. create_with-Safe uuid args _)

  confirmed-Safe :
      (question : String) (act : AgentRead → Office → Answer ctx) (a : AgentRead)
      → (confirmation_satisfied ctx a.name ≡ true → Safe (act a s))
      → Safe (confirmed ctx question act a s)
  unfolding confirmed
  confirmed-Safe question act a safe =
      if_ind Safe (confirmation_satisfied ctx a.name) safe (λ refused. held)

  -- Whatever the tool.
  pub call-Safe : (c : Call) → P (call ctx c s).1.agents
  unfolding call provision_for switch remove
  call-Safe list_agents = held
  call-Safe (get_agent n) = on_agent-Safe n _ (λ a e. held)
  call-Safe (create_agent uuid args) = create-Safe uuid args
  call-Safe (update_agent args) = on_agent-Safe args.name _ (λ a e. edit-Safe args a)
  call-Safe (enable_agent n) = on_agent-Safe n _ (λ a e. h.enables a)
  call-Safe (disable_agent n) =
      on_agent-Safe n _ (λ a e. confirmed-Safe _ (switch ctx false) a (h.disables n a e))
  call-Safe (delete_agent n) =
      on_agent-Safe n _ (λ a e. confirmed-Safe _ (remove ctx) a (h.deletes n a e))
  call-Safe (provision_bot n) = on_agent-Safe n _ (λ a e. attached-Safe a _)
  call-Safe (attach_bot args) = on_agent-Safe args.name _ (λ a e. attach-Safe args a)
  call-Safe (set_bot_avatar n url) = on_agent-Safe n _ (λ a e. avatar-Safe url a)
