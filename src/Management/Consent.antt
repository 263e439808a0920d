-- ===== src/Management/Consent.antt =====
-- tools/management: which agents a call of a tool can disable or delete.
use moomacha.Management.{no_single, exact_or_partial, resolve_one, ManagementContext}
use moomacha.Management.Tools.{Office}
use moomacha.Base.{
  ℕ, String, ◌≡◌, refl, subst, ◌∙◌, ◌≢◌, inl, inr, Bool, true, not, some, List, [], ◌∷◌, ◌++◌,
  arith, ◌==◌, Bool-cases, Option_ind, filter, All, All-impl, All-filter, NodupKeys,
}
use moomacha.Base.Results.{ok, raised}
use moomacha.Agents.{Agents, agent_id, read, AgentRow, AgentRead}
use moomacha.Base.Table
use moomacha.Agents

module _ {E : Type 0} (ctx : ManagementContext E) where
  no_single-All :
      (P : AgentRead → Type 0) (name : String) (xs : List AgentRead) (a : AgentRead)
      → All P xs
      → no_single ctx name xs ≡ ok a
      → P a
  unfolding no_single
  no_single-All P name [] a h e = absurd (ground (arith, e))
  no_single-All P name (x ∷ []) a h e = subst (λ r. elim r [ ok b ↦ P b | raised f ↦ Unit ]) e h.0
  no_single-All P name (x ∷ y ∷ xs) a h e = absurd (ground (arith, e))

  exact_or_partial-All :
      (P : AgentRead → Type 0) (name : String) (exact partial : List AgentRead) (a : AgentRead)
      → All P exact
      → All P partial
      → exact_or_partial ctx name exact partial ≡ ok a
      → P a
  unfolding exact_or_partial
  exact_or_partial-All P name [] partial a h g e = no_single-All P name partial a g e
  exact_or_partial-All P name (x ∷ []) partial a h g e =
      subst (λ r. elim r [ ok b ↦ P b | raised f ↦ Unit ]) e h.0
  exact_or_partial-All P name (x ∷ y ∷ exact) partial a h g e = no_single-All P name partial a g e

  -- The stored row of an agent.
  abbrev pub RowOf : Agents → AgentRead → Type 0
  RowOf rows a = (x : AgentRow) × (Table.get agent_id a.id rows ≡ some x) × (x.name ≡ a.name)

  All-read :
      (P : AgentRead → Type 0) (rows : Agents)
      → All (λ r. P (read r)) rows
      → All P (Agents.list rows)
  unfolding Agents.list
  All-read P [] h = tt
  All-read P (r ∷ rows) h = (h.0, All-read P rows h.1)

  pub resolve_one-RowOf :
      (name : String) (rows : Agents) (a : AgentRead)
      → NodupKeys agent_id rows
      → resolve_one ctx name rows ≡ ok a
      → RowOf rows a
  unfolding resolve_one read
  resolve_one-RowOf name rows a unique e =
      let all : All (RowOf rows) (Agents.list rows) = All-read (RowOf rows) rows (
        All-impl (λ r. Table.get agent_id r.id rows ≡ some r) (λ r. RowOf rows (read r)) rows
          (λ r h. (r, h, refl)) (Table.get_self agent_id rows unique)) in
      exact_or_partial-All (RowOf rows) name _ _ a (All-filter (RowOf rows) _ _ all)
        (All-filter (RowOf rows) _ _ all) e

  -- The agent is there, under its name, and enabled.
  abbrev pub Kept : ℕ → String → Agents → Type 0
  Kept k name rows =
      (x : AgentRow) × (Table.get agent_id k rows ≡ some x) × (x.enabled ≡ true) × (x.name ≡ name)

  module _ (k : ℕ) (name : String) (s : Office) (held : Kept k name s.agents) where
    pub update-Kept :
        (f : AgentRow → AgentRow) (id : ℕ)
        → ((r : AgentRow) → (f r).id ≡ r.id)
        → ((r : AgentRow) → r.enabled ≡ true → (f r).enabled ≡ true)
        → ((r : AgentRow) → (f r).name ≡ r.name)
        → Kept k name (Table.update agent_id id f s.agents)
    update-Kept f id same still named =
        let (x, found, on, is) = held in
        elim (Bool-cases (k == id)) [
          | inl mine ↦ (
            f x,
            ground (arith, Table.get-update agent_id f k id s.agents same, mine, found),
            still x on,
            named x ∙ is,
          )
          | inr other ↦ (
            x,
            ground (arith, Table.get-update agent_id f k id s.agents same, other, found),
            on,
            is,
          )
        ]

    pub other-Kept :
        (f : AgentRow → AgentRow) (id : ℕ)
        → ((r : AgentRow) → (f r).id ≡ r.id)
        → id ≢ k
        → Kept k name (Table.update agent_id id f s.agents)
    other-Kept f id same other =
        let (x, found, on, is) = held in
        (x, ground (arith, Table.get-update agent_id f k id s.agents same, other, found), on, is)

    get-filter :
        (id : ℕ) (rows : Agents)
        → id ≢ k
        → Table.get agent_id k (filter (λ r. not (r.id == id)) rows) ≡ Table.get agent_id k rows
    unfolding Table.get
    get-filter id [] other = refl
    get-filter id (r ∷ rows) other = ground (arith, get-filter id rows other, other)

    pub delete-Kept : (id : ℕ) → id ≢ k → Kept k name (Agents.delete id s.agents).1
    unfolding Agents.delete
    delete-Kept id other =
        Option_ind (λ (x : Bool × Agents). Kept k name x.1) (Table.get agent_id id s.agents)
          (λ gone. held)
          (λ r found.
            let (x, stored, on, is) = held in (x, get-filter id s.agents other ∙ stored, on, is))

    pub get-append :
        (rows more : Agents) (x : AgentRow)
        → Table.get agent_id k rows ≡ some x
        → Table.get agent_id k (rows ++ more) ≡ some x
    unfolding Table.get
    get-append [] more x e = absurd (ground (arith, e))
    get-append (r ∷ rows) more x e = ground (arith, get-append rows more x, e)
