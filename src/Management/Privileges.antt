-- ===== src/Management/Privileges.antt =====
-- tools/management/tools.py: no sequence of tools makes an agent privileged.
use moomacha.Management.{ManagementContext}
use moomacha.Management.Tools.{call, calls, Call, Office}
use moomacha.Management.Survival.{call-Safe, Survives}
use moomacha.Base.{
  ℕ, ◌≤◌, ◌≡◌, refl, Bool, true, false, ◌&&◌, ◌||◌, List, [], ◌∷◌, arith, ◌==◌, Option_ind, filter,
  count, count-append,
}
use moomacha.Agents.{Agents, set_enabled, AgentRow}
use moomacha.Base.Table
use moomacha.Agents

abbrev pub is_privileged : ℕ → AgentRow → Bool
is_privileged k r = (r.is_bastion || r.can_exec) && r.id == k

count-update :
    (p : AgentRow → Bool) (f : AgentRow → AgentRow) (id : ℕ) (rows : Agents)
    → ((r : AgentRow) → p (f r) ≡ p r)
    → count p (Table.update Agents.agent_id id f rows) ≡ count p rows
unfolding Table.update
count-update p f id [] same = refl
count-update p f id (r ∷ rows) same = ground (arith, count-update p f id rows same, same r)

count-filter-le : (p q : AgentRow → Bool) (rows : Agents) → count p (filter q rows) ≤ count p rows
count-filter-le p q [] = omega arith
count-filter-le p q (r ∷ rows) = ground (arith, count-filter-le p q rows)

module _ {E : Type 0} (ctx : ManagementContext E) (k : ℕ) where
  -- As many privileged rows of the id as n, or fewer.
  abbrev AtMost : ℕ → Agents → Type 0
  AtMost n rows = count (is_privileged k) rows ≤ n

  survives : (rows : Agents) → Survives ctx (AtMost (count (is_privileged k) rows)) rows
  unfolding Agents.update Agents.assign set_enabled Agents.new_row Agents.delete
  survives rows = record {
    idle = omega arith;
    updates = λ id d.
        rw (count-update (is_privileged k) (Agents.assign ctx.box d) id rows (λ r. refl))
          (omega arith);
    inserts = λ uuid d free. rw (count-append (is_privileged k) rows _) (omega arith);
    enables = λ a.
        rw (count-update (is_privileged k) (λ r. record r { enabled = true }) a.id rows (λ r. refl))
          (omega arith);
    disables = λ n a e satisfied.
        rw
          (count-update (is_privileged k) (λ r. record r { enabled = false }) a.id rows (λ r. refl))
          (omega arith);
    deletes = λ n a e satisfied.
        Option_ind (λ (x : Bool × Agents). AtMost (count (is_privileged k) rows) x.1)
          (Table.get Agents.agent_id a.id rows) (λ gone. omega arith)
          (λ r found. count-filter-le (is_privileged k) _ rows);
  }

  -- Over any calls of the management tools, with any arguments, no id gains a row that is bastion
  -- or may execute.
  pub calls-privileged-le :
      (cs : List Call) (s : Office)
      → count (is_privileged k) (calls ctx cs s).agents ≤ count (is_privileged k) s.agents
  unfolding calls
  calls-privileged-le [] s = omega arith
  calls-privileged-le (c ∷ cs) s =
      let next = (call ctx c s).1 in
      omega (
        arith,
        calls-privileged-le cs next,
        call-Safe ctx (AtMost (count (is_privileged k) s.agents)) s (survives s.agents) c,
      )
