-- ===== src/SpinUp/Templates.antt =====
-- The archetype tool of control-plane/src/control_plane/tools/management/sessions.py:
-- `build_archetype`. `now` is the time in the new row.
use moomacha.Base.{
  ℕ, String, ◌≡◌, refl, not, Option, none, some, List, [], str_eq, if◌then◌else◌, or_else, if_ind,
  Option_ind,
}
use moomacha.Base.Json.{obj, end}
use moomacha.Base.Results.{Result, ok, raised}
use moomacha.Archetypes.{
  Catalog, get_by_name, get_by_name-upsert, create-eq-upsert, ArchetypeDefinition, CatalogError,
}
use moomacha.SpinUp.{truthy, Context}
use moomacha.Archetypes

pub record BuildArgs : Type 0 where
  pub name : Option String
  pub persona : Option String
  pub model_id : Option String
  pub allowed_tools : Option (List String)

pub data BuildReply : Type 0 where
  build_not_available : BuildReply
  build_missing_arguments : BuildReply
  build_exists : String → BuildReply
  build_failed : BuildReply
  build_saved : String → BuildReply

pub built : {E : Type 0} → Context E → BuildArgs → String → String → ArchetypeDefinition
built ctx args name persona = record {
  name = name;
  persona = persona;
  model_id = or_else (truthy args.model_id) ctx.default_model;
  context_message_count = 20;
  allowed_tools = or_else args.allowed_tools [];
  knowledge_artifact_ids = [];
  mcp_servers = [];
  runtime_kind = "deepagents";
  runtime_config = obj end;
}

-- A commit that fails on the unique name leaves the tool as an exception.
pub save_archetype : String → Result CatalogError Catalog → Catalog → BuildReply × Catalog
save_archetype name (ok after) catalog = (build_saved name, after)
save_archetype name (raised e) catalog = (build_failed, catalog)

pub build_named :
    {E : Type 0} → Context E → BuildArgs → ℕ → Catalog → String → String → BuildReply × Catalog
unfolding save_archetype
build_named ctx args now catalog name persona =
    let saved = Archetypes.create now (built ctx args name persona) catalog in
    elim (get_by_name name catalog) [
      | some _ ↦ (build_exists name, catalog)
      | none ↦ save_archetype name saved catalog
    ]

pub build_archetype : {E : Type 0} → Context E → BuildArgs → ℕ → Catalog → BuildReply × Catalog
unfolding build_named
build_archetype ctx args now catalog =
    if not ctx.stores_ready then (build_not_available, catalog) else elim (truthy args.name) [
      | none ↦ (build_missing_arguments, catalog)
      | some name ↦ elim (truthy args.persona) [
        | none ↦ (build_missing_arguments, catalog)
        | some persona ↦ build_named ctx args now catalog name persona
      ]
    ]

-- What the reply says of the catalog that is left.
abbrev pub Builds : Catalog → BuildReply × Catalog → Type 0
Builds before (build_saved name, after) =
    (get_by_name name before ≡ none)
    × ((d : ArchetypeDefinition) × (d.name ≡ name)
        × ((other : String)
            → get_by_name other after
              ≡ (if str_eq other name then some d else get_by_name other before)))
Builds before (build_failed, after) = ⊥
Builds before (build_exists name, after) = after ≡ before
Builds before (build_missing_arguments, after) = after ≡ before
Builds before (build_not_available, after) = after ≡ before

module _ {E : Type 0} (ctx : Context E) (args : BuildArgs) (now : ℕ) (catalog : Catalog) where
  build_named-Builds :
      (name persona : String) → Builds catalog (build_named ctx args now catalog name persona)
  unfolding build_named built
  build_named-Builds name persona =
      Option_ind (Builds catalog) (get_by_name name catalog)
        (λ fresh. rw (create-eq-upsert now (built ctx args name persona) catalog) (
          rw fresh (
            fresh,
            (
              built ctx args name persona,
              refl,
              λ other. get_by_name-upsert now other (built ctx args name persona) catalog,
            ),
          )))
        (λ old taken. refl)

  -- A saved archetype had a new name, which then finds a definition of that name, and every other
  -- name what it found before; any other reply changes nothing, and the save never fails on the
  -- name.
  pub build_archetype-Builds : Builds catalog (build_archetype ctx args now catalog)
  unfolding build_archetype
  build_archetype-Builds =
      if_ind (Builds catalog) (not ctx.stores_ready) (λ off. refl)
        (λ on.
          Option_ind (Builds catalog) (truthy args.name) (λ e. refl)
            (λ name e.
              Option_ind (Builds catalog) (truthy args.persona) (λ e'. refl)
                (λ persona e'. build_named-Builds name persona)))
