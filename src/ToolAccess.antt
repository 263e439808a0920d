-- ===== src/ToolAccess.antt =====
-- control-plane/src/control_plane/runtime/tools/registry.py and runtime.py: which tools an agent is
-- told of, and which calls the chokepoint `ToolRuntime.execute` lets through. `Parsed` stands for
-- the validated arguments of any tool, `World` for all that an adapter can change.
pub mod Permission
pub mod Exposure
use moomacha.Base.{
  ℕ, String, ◌<>◌, Bool, true, false, not, ◌&&◌, ◌||◌, Option, none, some, List, [], ◌∷◌, ◌++◌,
  str_eq, if◌then◌else◌,
}
use moomacha.Base.Results.{Result, ok, raised}
use moomacha.Agents.{ResolvedAgent}

pub record ToolResult : Type 0 where
  pub success : Bool
  pub content : String

pub record ToolContext : Type 0 where
  pub agent : ResolvedAgent
  pub channel : String
  pub topic : String
  pub playwright_session : Option String
  pub invoking_user : Option String
  pub invoking_text : Option String
  pub source_message_id : Option ℕ
  pub memory_ns : Option String
  pub conversation_type : String
  pub direct_recipient_ids : Option (List ℕ)

-- `validate` is the tool's pydantic model, `schema` its JSON schema; the adapter may raise.
pub record ToolEntry (Parsed World : Type 0) : Type 0 where
  pub description : String
  pub schema : String
  pub validate : String → Result String Parsed
  pub adapter : Parsed → ToolContext → World → Result String ToolResult × World
  pub management : Bool
  pub requires_exec : Bool

module _ {Parsed World : Type 0} where
  -- `self._tools[name] = entry`: the place of a name that is there is kept.
  pub register :
      String
      → ToolEntry Parsed World
      → List (String × ToolEntry Parsed World)
      → List (String × ToolEntry Parsed World)
  register name entry [] = (name, entry) ∷ []
  register name entry ((n, e) ∷ tools) =
      if str_eq n name then (n, entry) ∷ tools else (n, e) ∷ register name entry tools

  unfoldable pub lookup :
      String → List (String × ToolEntry Parsed World) → Option (ToolEntry Parsed World)
  lookup name [] = none
  lookup name ((n, e) ∷ tools) = if str_eq n name then some e else lookup name tools

  pub permitted_by_flags : Bool → Bool → ToolEntry Parsed World → Bool
  permitted_by_flags is_bastion can_exec entry =
      if entry.management && not is_bastion
      then false
      else if entry.requires_exec && not can_exec
      then false
      else true

-- `x in xs`
unfoldable pub contains : String → List String → Bool
contains x [] = false
contains x (y ∷ ys) = str_eq y x || contains x ys

module _ {Parsed World : Type 0} (tools : List (String × ToolEntry Parsed World)) where
  -- The loop over `allowed_tools`: unregistered names pass through.
  pub unprivileged : Bool → Bool → List String → List String
  unprivileged is_bastion can_exec [] = []
  unprivileged is_bastion can_exec (name ∷ allowed) =
      let rest = unprivileged is_bastion can_exec allowed in
      elim (lookup name tools) [
        | none ↦ name ∷ rest
        | some entry ↦ if permitted_by_flags is_bastion can_exec entry then name ∷ rest else rest
      ]

-- `[n for n, e in self._tools.items() if flag(e) and n not in names]`
module _ {Parsed World : Type 0} where
  pub implied :
      (ToolEntry Parsed World → Bool)
      → List String
      → List (String × ToolEntry Parsed World)
      → List String
  unfolding contains
  implied flag names [] = []
  implied flag names ((n, e) ∷ tools) =
      if flag e && not (contains n names)
      then n ∷ implied flag names tools
      else implied flag names tools

pub denied : String → ToolResult
denied name = record {
  success = false;
  content = "Tool '" <> (name <> "' is not permitted for this agent.");
}

module _ {Parsed World : Type 0} where
  pub run_adapter :
      String → String → ToolEntry Parsed World → ToolContext → World → ToolResult × World
  run_adapter name raw_args entry ctx w = elim (entry.validate raw_args) [
    | raised e ↦ (
      record { success = false; content = "Invalid arguments for '" <> (name <> ("': " <> e)) },
      w,
    )
    | ok parsed ↦
        let (result, w') = entry.adapter parsed ctx w in
        elim result [
          | ok r ↦ (r, w')
          | raised e ↦
              (record { success = false; content = "Tool '" <> (name <> ("' error: " <> e)) }, w')
        ]
  ]

module _ {Parsed World : Type 0} (tools : List (String × ToolEntry Parsed World)) where
  with_management : Bool → List String → List String
  with_management is_bastion names =
      if is_bastion then names ++ implied (λ e. e.management) names tools else names

  with_exec : Bool → List String → List String
  with_exec can_exec names =
      if can_exec then names ++ implied (λ e. e.requires_exec) names tools else names

  pub resolve_names : List String → Bool → Bool → List String
  unfolding with_management with_exec
  resolve_names allowed is_bastion can_exec =
      with_exec can_exec
        (with_management is_bastion (unprivileged tools is_bastion can_exec allowed))

  describe : List String → List (String × String)
  describe [] = []
  describe (name ∷ names) = elim (lookup name tools) [
    | none ↦ describe names
    | some entry ↦ (name, entry.description) ∷ describe names
  ]

  pub describe_tools : List String → Bool → Bool → List (String × String)
  unfolding describe
  describe_tools allowed is_bastion can_exec = describe (resolve_names allowed is_bastion can_exec)

  schemas_for : List String → List (String × String × String)
  schemas_for [] = []
  schemas_for (name ∷ names) = elim (lookup name tools) [
    | none ↦ schemas_for names
    | some entry ↦ (name, entry.description, entry.schema) ∷ schemas_for names
  ]

  -- A schema is the function's name, description and parameters.
  pub build_schemas : List String → Bool → Bool → List (String × String × String)
  unfolding schemas_for
  build_schemas allowed is_bastion can_exec =
      schemas_for (resolve_names allowed is_bastion can_exec)

  pub dispatch : String → String → ToolContext → World → ToolResult × World
  unfolding denied
  dispatch name raw_args ctx w = elim (lookup name tools) [
    | none ↦ (record { success = false; content = "Unknown tool '" <> (name <> "'.") }, w)
    | some entry ↦
        let is_bastion = ctx.agent.is_bastion in
        let can_exec = ctx.agent.can_exec in
        if entry.management && not is_bastion
        then (denied name, w)
        else if entry.requires_exec && not can_exec
        then (denied name, w)
        else if not (
            contains name ctx.agent.allowed_tools
            || (entry.management && is_bastion || entry.requires_exec && can_exec))
        then (denied name, w)
        else run_adapter name raw_args entry ctx w
  ]

-- What the audit event of a call carries, beside the latency.
pub record ToolCallEvent : Type 0 where
  pub name : String
  pub success : Bool
  pub args : String
  pub result : String
  pub channel : String
  pub topic : String
  pub invoking_user : Option String
  pub source_message_id : Option ℕ
  pub agent_id : ℕ

-- `clip n s` is Python's `s[:n]`; `events` is the emitter, where the turn has one.
module _ {Parsed World : Type 0} (clip : ℕ → String → String)
    (events : Option (ToolCallEvent → World → World))
    (tools : List (String × ToolEntry Parsed World)) where
  pub execute : String → String → ToolContext → World → ToolResult × World
  execute name raw_args ctx w =
      let (result, w') = dispatch tools name raw_args ctx w in
      elim events [
        | none ↦ (result, w')
        | some emit ↦ (
          result,
          emit
              (record {
                name = name;
                success = result.success;
                args = raw_args;
                result = clip 4000 result.content;
                channel = ctx.channel;
                topic = ctx.topic;
                invoking_user = ctx.invoking_user;
                source_message_id = ctx.source_message_id;
                agent_id = ctx.agent.id;
              })
              w',
        )
      ]
