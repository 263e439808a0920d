-- ===== src/Knowledge/Bound.antt =====
-- knowledge_artifacts.py: an agent reads the artifacts that are bound to it.
use moomacha.Knowledge.{
  Artifacts, find_named, has_id, list_by_ids, bound_ids, read_match, read_artifact,
  KnowledgeArtifactRow,
}
use moomacha.Base.{
  ℕ, String, ◌≡◌, refl, subst, ◌⊎◌, inl, inr, true, false, Option, none, some, [], ◌∷◌, arith,
  str_eq, eq_iff, Bool-cases, filter, All, All-filter, All-filter_test, In, All-and, self-In,
}
use moomacha.Base.Text.{slice_to}
use moomacha.ToolAccess.{ToolResult, ToolContext}

module _ (by_name : Artifacts → Artifacts) (read_uuid : String → Option ℕ)
    (first_line : String → String) where
  -- The failure, or the start of the body of a row that is bound to the agent under the name.
  abbrev pub Reads : String → ToolContext → Artifacts → ToolResult → Type 0
  Reads name ctx rows result =
      (result.success ≡ false)
      ⊎ ((r : KnowledgeArtifactRow) × In r rows
          × (has_id (bound_ids by_name read_uuid first_line ctx) r ≡ true)
          × (r.name ≡ name)
          × (result.content ≡ slice_to 12000 r.body))

  -- A row of the table that is bound.
  abbrev IsBoundRow : ToolContext → Artifacts → KnowledgeArtifactRow → Type 0
  IsBoundRow ctx rows r = In r rows × (has_id (bound_ids by_name read_uuid first_line ctx) r ≡ true)

  find_named-All :
      (P : KnowledgeArtifactRow → Type 0) (name : String) (xs : Artifacts)
      (r : KnowledgeArtifactRow)
      → All P xs
      → find_named name xs ≡ some r
      → P r × (r.name ≡ name)
  unfolding find_named
  find_named-All P name [] r h e = absurd (ground (arith, e))
  find_named-All P name (x ∷ xs) r h e = elim (Bool-cases (str_eq x.name name)) [
    | inl same ↦
        subst (λ o. elim o as (λ y. Type 0) [ none ↦ Unit | some y ↦ P y × (y.name ≡ name) ])
          (rw same at e) (h.0, (eq_iff x.name name).0 same)
    | inr other ↦ find_named-All P name xs r h.1 (rw other at e)
  ]

  -- If the order of the database keeps what holds of each row: read_artifact refuses, or gives the
  -- start of the body of a stored artifact that is bound to the agent and has the name.
  pub read_artifact-Reads :
      (name : String) (ctx : ToolContext) (rows : Artifacts)
      → ((P : KnowledgeArtifactRow → Type 0) (xs : Artifacts) → All P xs → All P (by_name xs))
      → Reads name ctx rows (read_artifact by_name read_uuid first_line name ctx rows)
  unfolding read_artifact list_by_ids
  read_artifact-Reads name ctx rows kept =
      let ids = bound_ids by_name read_uuid first_line ctx in
      let bound : All (IsBoundRow ctx rows) (by_name (filter (has_id ids) rows)) =
        kept (IsBoundRow ctx rows) (filter (has_id ids) rows) (
          All-and (λ r. In r rows) (λ r. has_id ids r ≡ true) (filter (has_id ids) rows)
            (All-filter (λ r. In r rows) (has_id ids) rows (self-In rows))
            (All-filter_test (has_id ids) rows)) in
      go (find_named name (by_name (filter (has_id ids) rows))) (λ r e.
        find_named-All (IsBoundRow ctx rows) name (by_name (filter (has_id ids) rows)) r bound e)
    where
      go :
          (o : Option KnowledgeArtifactRow)
          → ((r : KnowledgeArtifactRow) → o ≡ some r → IsBoundRow ctx rows r × (r.name ≡ name))
          → Reads name ctx rows (read_match by_name read_uuid first_line name o)
      go none h = inl refl
      go (some r) h = let ((m, b), same) = h r refl in inr (r, m, b, same, refl)
