-- ===== src/Archetypes.antt =====
-- control-plane/src/control_plane/services/archetype_catalog.py and schemas/archetype.py: the
-- catalog of saved archetypes. `lower` and `contains` are Python's `str.lower` and `in`.
use moomacha.Base.{
  ℕ, String, ◌≡◌, inl, inr, Bool, Option, none, some, List, [], ◌∷◌, ◌++◌, map, arith, str_eq,
  eq_iff, if◌then◌else◌, Option-cases, is_some, filter, order_by,
}
use moomacha.Base.Json.{Json}
use moomacha.Base.Results.{Result, ok, raised}
use moomacha.Rows.{Snapshot}

pub record McpServerDef : Type 0 where
  pub name : String
  pub url : String
  pub auth_ref : Option String
  pub tool_prefix : Option String

pub record ArchetypeDefinition : Type 0 where
  pub name : String
  pub persona : String
  pub model_id : String
  pub context_message_count : ℕ
  pub allowed_tools : List String
  pub knowledge_artifact_ids : List String
  pub mcp_servers : List McpServerDef
  pub runtime_kind : String
  pub runtime_config : Json

-- A row is its definition, with the time at which it was made.
pub record ArchetypeRow : Type 0 where
  pub definition : ArchetypeDefinition
  pub open definition use *
  pub created_at : ℕ

abbrev pub Catalog : Type 0
Catalog = List ArchetypeRow

-- The column `name` is unique: a second row of a name is refused by the database.
pub data CatalogError : Type 0 where
  integrity_error : CatalogError

pub get_by_name : String → Catalog → Option ArchetypeDefinition
get_by_name name [] = none
get_by_name name (row ∷ rows) =
    if str_eq row.name name then some row.definition else get_by_name name rows

unfoldable pub create : ℕ → ArchetypeDefinition → Catalog → Result CatalogError Catalog
unfolding get_by_name
create now defn rows = elim (get_by_name defn.name rows) [
  | none ↦ ok (rows ++ (record { definition = defn; created_at = now } ∷ []))
  | some _ ↦ raised integrity_error
]

replace : ArchetypeDefinition → Catalog → Catalog
replace defn [] = []
replace defn (row ∷ rows) =
    if str_eq row.name defn.name
    then record row { definition = defn } ∷ rows
    else row ∷ replace defn rows

pub upsert : ℕ → ArchetypeDefinition → Catalog → Catalog
unfolding get_by_name replace
upsert now defn rows = elim (get_by_name defn.name rows) [
  | none ↦ rows ++ (record { definition = defn; created_at = now } ∷ [])
  | some _ ↦ replace defn rows
]

pub list_all : Catalog → List ArchetypeDefinition
list_all rows = map (λ r. r.definition) (order_by (λ r. r.created_at) rows)

unfoldable pub search :
    (lower : String → String) (contains : String → String → Bool) (query : String)
    → Catalog
    → List ArchetypeDefinition
search lower contains query rows =
    map (λ r. r.definition)
      (filter (λ r. contains (lower query) (lower r.name)) (order_by (λ r. r.created_at) rows))

-- `model_dump()`: every key is present.
abbrev pub model_dump : ArchetypeDefinition → Snapshot
model_dump d = record {
  name = some d.name;
  persona = some d.persona;
  model_id = some d.model_id;
  context_message_count = some d.context_message_count;
  allowed_tools = some d.allowed_tools;
  knowledge_artifact_ids = some d.knowledge_artifact_ids;
  runtime_kind = some d.runtime_kind;
  runtime_config = some d.runtime_config;
}

get_by_name-append :
    (name : String) (row : ArchetypeRow) (rows : Catalog)
    → get_by_name row.name rows ≡ none
    → get_by_name name (rows ++ row ∷ [])
      ≡ (if str_eq name row.name then some row.definition else get_by_name name rows)
unfolding get_by_name
get_by_name-append name row [] e = ground (arith, eq_iff name row.name, eq_iff row.name name)
get_by_name-append name row (x ∷ rows) e = ground (
  arith,
  eq_iff name row.name,
  eq_iff x.name name,
  eq_iff x.name row.name,
  get_by_name-append name row rows,
)

get_by_name-replace :
    (name : String) (d : ArchetypeDefinition) (rows : Catalog) (old : ArchetypeDefinition)
    → get_by_name d.name rows ≡ some old
    → get_by_name name (replace d rows)
      ≡ (if str_eq name d.name then some d else get_by_name name rows)
unfolding get_by_name replace
get_by_name-replace name d [] old e = cc
get_by_name-replace name d (x ∷ rows) old e = ground (
  arith,
  eq_iff name d.name,
  eq_iff d.name name,
  eq_iff x.name name,
  eq_iff x.name d.name,
  get_by_name-replace name d rows old,
)

-- After an upsert its name finds the new definition, and every other name what it found before.
pub get_by_name-upsert :
    (now : ℕ) (name : String) (d : ArchetypeDefinition) (rows : Catalog)
    → get_by_name name (upsert now d rows)
      ≡ (if str_eq name d.name then some d else get_by_name name rows)
unfolding upsert
get_by_name-upsert now name d rows = elim (Option-cases (get_by_name d.name rows)) [
  | inl e ↦
      rw (e, upsert) (get_by_name-append name (record { definition = d; created_at = now }) rows e)
  | inr (old, e) ↦ rw (e, upsert) (get_by_name-replace name d rows old e)
]

-- A create fails exactly if the name is taken, and else does what an upsert does.
pub create-eq-upsert :
    (now : ℕ) (d : ArchetypeDefinition) (rows : Catalog)
    → create now d rows ≡ (
        if is_some (get_by_name d.name rows)
        then raised integrity_error
        else ok (upsert now d rows))
unfolding create upsert
create-eq-upsert now d rows = elim (Option-cases (get_by_name d.name rows)) [
  | inl e ↦ rw (e, create, upsert)
  | inr (old, e) ↦ rw (e, create, upsert)
]
