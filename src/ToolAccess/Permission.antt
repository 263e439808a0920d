-- ===== src/ToolAccess/Permission.antt =====
-- The chokepoint of runtime/tools/runtime.py: which calls reach an adapter.
use moomacha.Base.{String, ◌≡◌, Bool, ◌&&◌, ◌||◌, none, some, List, arith, if◌then◌else◌}
use moomacha.Agents.{ResolvedAgent}
use moomacha.ToolAccess.{
  lookup, permitted_by_flags, contains, denied, run_adapter, dispatch, ToolContext, ToolEntry,
}

module _ {Parsed World : Type 0} where
  -- A tool is open to an agent by its flags, and by its flags or its list.
  unfoldable pub is_permitted : String → ResolvedAgent → ToolEntry Parsed World → Bool
  unfolding permitted_by_flags
  is_permitted name agent entry =
      permitted_by_flags agent.is_bastion agent.can_exec entry
      && (entry.management || (entry.requires_exec || contains name agent.allowed_tools))

module _ {Parsed World : Type 0} (tools : List (String × ToolEntry Parsed World)) where
  -- A call of a registered tool runs the adapter if the flags permit it and it is privileged or on
  -- the list; any other call is denied and leaves the world alone.
  pub dispatch_lem :
      (name raw_args : String) (ctx : ToolContext) (w : World) (entry : ToolEntry Parsed World)
      → lookup name tools ≡ some entry
      → dispatch tools name raw_args ctx w ≡ (
          if is_permitted name ctx.agent entry
          then run_adapter name raw_args entry ctx w
          else (denied name, w))
  unfolding dispatch is_permitted denied
  dispatch_lem name raw_args ctx w entry e = ground (arith, e)

  -- An unknown tool never runs.
  pub dispatch_unknown :
      (name raw_args : String) (ctx : ToolContext) (w : World)
      → lookup name tools ≡ none
      → (dispatch tools name raw_args ctx w).1 ≡ w
  unfolding dispatch
  dispatch_unknown name raw_args ctx w e = rw (e, dispatch)
