-- ===== src/Knowledge.antt =====
-- control-plane/src/control_plane/services/knowledge_artifact_store.py and skill_catalog.py, with the
-- tools of runtime/tools/knowledge_artifacts.py. The database's order by name and the reading of a uuid
-- are parameters, and so is the first line of a text.
pub mod Bound
use moomacha.Base.{
  ℕ, String, ◌<>◌, Bool, true, false, ◌&&◌, ◌||◌, Option, none, some, List, [], ◌∷◌, ◌++◌, map,
  str_eq, ◌==◌, if◌then◌else◌, filter, any,
}
use moomacha.Base.Text.{slice_to, join}
use moomacha.ToolAccess.{contains, ToolResult, ToolContext}

pub record KnowledgeArtifactRow : Type 0 where
  pub id : ℕ
  pub name : String
  pub body : String

pub record SkillRow : Type 0 where
  pub name : String
  pub body : String
  pub model_era : String
  pub active : Bool
  pub triggers : List String

abbrev pub Artifacts : Type 0
Artifacts = List KnowledgeArtifactRow

-- The row of a name, which is unique.
pub find_named : String → Artifacts → Option KnowledgeArtifactRow
find_named name [] = none
find_named name (r ∷ rows) = if str_eq r.name name then some r else find_named name rows

pub get_by_name : String → Artifacts → Option KnowledgeArtifactRow
unfolding find_named
get_by_name = find_named

rewrite_body : String → String → Artifacts → Artifacts
rewrite_body name body rows =
    map (λ r. if str_eq r.name name then record r { body = body } else r) rows

pub upsert : (uuid : ℕ) → (name body : String) → Artifacts → Artifacts
unfolding get_by_name rewrite_body
upsert uuid name body rows = elim (get_by_name name rows) [
  | none ↦ rows ++ (record { id = uuid; name = name; body = body } ∷ [])
  | some _ ↦ rewrite_body name body rows
]

abbrev pub has_id : List ℕ → KnowledgeArtifactRow → Bool
has_id ids r = any (λ i. r.id == i) ids

module _ (by_name : Artifacts → Artifacts) (read_uuid : String → Option ℕ)
    (first_line : String → String) where
  pub list_by_ids : List ℕ → Artifacts → Artifacts
  list_by_ids ids rows = by_name (filter (has_id ids) rows)

  -- Ids that are no uuid are skipped.
  pub ids_of : List String → List ℕ
  ids_of [] = []
  ids_of (raw ∷ raws) = elim (read_uuid raw) [ none ↦ ids_of raws | some id ↦ id ∷ ids_of raws ]

  pub bound_ids : ToolContext → List ℕ
  unfolding ids_of
  bound_ids ctx = ids_of ctx.agent.knowledge_artifact_ids

  line_of : KnowledgeArtifactRow → String
  line_of r = "- " <> (r.name <> (": " <> (if str_eq r.body "" then "" else first_line r.body)))

  listed : Artifacts → ToolResult
  unfolding line_of
  listed [] = record { success = true; content = "(no knowledge artifacts bound to you)" }
  listed (r ∷ rows) = record { success = true; content = join "\n" (map line_of (r ∷ rows)) }

  pub list_artifacts : ToolContext → Artifacts → ToolResult
  unfolding listed list_by_ids bound_ids
  list_artifacts ctx rows = listed (list_by_ids (bound_ids ctx) rows)

  pub read_match : String → Option KnowledgeArtifactRow → ToolResult
  read_match name none = record {
    success = false;
    content = "Artifact '" <> (name <> "' is not available to you.");
  }
  read_match name (some r) = record { success = true; content = slice_to 12000 r.body }

  pub read_artifact : String → ToolContext → Artifacts → ToolResult
  unfolding read_match list_by_ids bound_ids find_named
  read_artifact name ctx rows = read_match name (find_named name (list_by_ids (bound_ids ctx) rows))

-- `SkillCatalog.upsert`; a new row goes last.
pub upsert_skill : SkillRow → List SkillRow → List SkillRow
upsert_skill skill [] = skill ∷ []
upsert_skill skill (r ∷ rows) =
    if str_eq r.name skill.name then skill ∷ rows else r ∷ upsert_skill skill rows

abbrev pub is_loaded : String → SkillRow → Bool
is_loaded model_era r = r.active && (str_eq r.model_era "" || str_eq r.model_era model_era)

-- `SkillCatalog.load`, in the order of the table.
pub load_skills : List String → String → List SkillRow → List SkillRow
load_skills names model_era rows =
    filter (is_loaded model_era) (filter (λ r. contains r.name names) rows)
