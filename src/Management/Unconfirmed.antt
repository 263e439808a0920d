-- ===== src/Management/Unconfirmed.antt =====
-- tools/management/tools.py: no tool disables or deletes an agent that the message does not confirm.
use moomacha.Management.{confirmation_satisfied, resolve_one, ManagementContext}
use moomacha.Management.Tools.{call, Call, Office}
use moomacha.Management.Consent.{
  RowOf, resolve_one-RowOf, Kept, update-Kept, other-Kept, delete-Kept, get-append,
}
use moomacha.Management.Survival.{call-Safe, Survives}
use moomacha.Base.{
  ℕ, String, ◌≡◌, refl, sym, ap, subst, ◌∙◌, ◌≢◌, true, false, none, some, [], ◌∷◌, ◌++◌, arith,
  NodupKeys,
}
use moomacha.Base.Results.{ok}
use moomacha.Agents.{Agents, set_enabled, AgentCreate, AgentRead}
use moomacha.Base.Table
use moomacha.Agents

module _ {E : Type 0} (ctx : ManagementContext E) (k : ℕ) (name : String) (s : Office)
    (held : Kept ctx k name s.agents) where
  same_name : (a : AgentRead) → RowOf ctx s.agents a → a.id ≡ k → a.name ≡ name
  same_name a (r, found, same) mine =
      let (x, stored, on, is) = held in
      let one : some r ≡ some x =
        sym found ∙ (ap (λ i. Table.get Agents.agent_id i s.agents) mine ∙ stored) in
      sym (subst (λ o. elim o as (λ z. Type 0) [ none ↦ Unit | some y ↦ y.name ≡ a.name ]) one same)
      ∙ is

  -- A name that is confirmed belongs to another agent.
  confirmed_other :
      (n : String) (a : AgentRead)
      → NodupKeys Agents.agent_id s.agents
      → confirmation_satisfied ctx name ≡ false
      → resolve_one ctx n s.agents ≡ ok a
      → confirmation_satisfied ctx a.name ≡ true
      → a.id ≢ k
  confirmed_other n a unique unconfirmed e satisfied mine =
      let named = same_name a (resolve_one-RowOf ctx n s.agents a unique e) mine in
      absurd (
        ground
          (arith, unconfirmed, subst (λ n. confirmation_satisfied ctx n ≡ true) named satisfied))

  inserted :
      (uuid : ℕ) (d : AgentCreate)
      → Kept ctx k name (s.agents ++ (Agents.new_row ctx.box uuid d ∷ []))
  inserted uuid d =
      let (x, found, on, is) = held in (x, get-append ctx k name s held s.agents _ x found, on, is)

  survives :
      NodupKeys Agents.agent_id s.agents
      → confirmation_satisfied ctx name ≡ false
      → Survives ctx (Kept ctx k name) s.agents
  unfolding Agents.update Agents.assign set_enabled
  survives unique unconfirmed = record {
    idle = held;
    updates = λ id d.
        update-Kept ctx k name s held (Agents.assign ctx.box d) id (λ r. refl) (λ r on. on)
          (λ r. refl);
    inserts = λ uuid d free. inserted uuid d;
    enables = λ a.
        update-Kept ctx k name s held (λ r. record r { enabled = true }) a.id (λ r. refl)
          (λ r on. refl) (λ r. refl);
    disables = λ n a e satisfied.
        other-Kept ctx k name s held (λ r. record r { enabled = false }) a.id (λ r. refl)
          (confirmed_other n a unique unconfirmed e satisfied);
    deletes = λ n a e satisfied.
        delete-Kept ctx k name s held a.id (confirmed_other n a unique unconfirmed e satisfied);
  }

  -- A call of any management tool, in a registry with each id once, leaves an enabled agent whose
  -- name the message does not confirm in the registry, under its name and enabled.
  pub unconfirmed_stays :
      (c : Call)
      → NodupKeys Agents.agent_id s.agents
      → confirmation_satisfied ctx name ≡ false
      → Kept ctx k name (call ctx c s).1.agents
  unconfirmed_stays c unique unconfirmed =
      call-Safe ctx (Kept ctx k name) s (survives unique unconfirmed) c
