-- ===== src/Worker/Disabling.antt =====
-- What a turn does to the registry of agents when the outside answers each effect.
use moomacha.Worker.{
  Step, return, ◌>>=◌, ◌>>◌, try_except, try_finally, perform, Failure, Place, Effect, say, edit,
  open_llm, close_llm, turn_start, turn_end, tripwire_event, disable, World, JobDeps,
}
use moomacha.Worker.Keeping.{bind_ind, caught}
use moomacha.Worker.Tripwire.{
  darkclaw_baseline_tools, offending, attempt, disable_agent, fire_tripwire,
}
use moomacha.Worker.Turn.{resolve_agent, place_of}
use moomacha.Worker.Process.{is_tripped, converse, turn_body, report, turn, process_job}
use moomacha.Base.{
  ℕ, ◌≡◌, refl, sym, ap, subst, ◌∙◌, true, false, none, some, List, ◌∷◌, arith, ◌==◌, if◌then◌else◌,
  ==_refl, get, get-update,
}
use moomacha.Base.Results.{is_ok, Result, ok, raised}
use moomacha.Jobs.{Job}
use moomacha.Agents.{Agents, agent_id, set_enabled, AgentRow, ResolvedAgent}

abbrev closing : Effect → Result Failure ℕ × World → Result Failure ℕ → Result Failure ℕ × World
closing e x s = elim s [
  | ok _ ↦ (x.0, record x.1 { trace = e ∷ x.1.trace })
  | raised g ↦ (raised g, record x.1 { trace = e ∷ x.1.trace })
]

module _ {Parsed Tools : Type 0} (deps : JobDeps Parsed Tools) where
  -- It ends well, and changes the agents in this way.
  abbrev Does : (Agents → Agents) → Step ℕ → Type 0
  Does f m = (w : World) → (is_ok (m w).0 ≡ true) × ((m w).1.agents ≡ f w.agents)

  Does-bind :
      (f g : Agents → Agents) (m : Step ℕ) (n : ℕ → Step ℕ)
      → Does f m
      → ((p : ℕ) → Does g (n p))
      → Does (λ a. g (f a)) (m >>= n)
  Does-bind f g m n before after w =
      bind_ind (λ x. (is_ok x.0 ≡ true) × (x.1.agents ≡ g (f w.agents))) m n w
        (λ e w' eq. absurd (ground (arith, subst (λ x. is_ok x.0 ≡ true) eq (before w).0)))
        (λ p w' eq.
          let (held, same) = after p w' in
          (held, same ∙ ap g (subst (λ x. x.1.agents ≡ f w.agents) eq (before w).1)))

  Does-then :
      (f g : Agents → Agents) (m n : Step ℕ) → Does f m → Does g n → Does (λ a. g (f a)) (m >> n)
  Does-then f g m n before after = Does-bind f g m (λ p. n) before (λ p. after)

  module _ (up : (t : List Effect) (e : Effect) → is_ok (deps.answers t e) ≡ true) where
    Does-perform : (e : Effect) → Does (λ a. a) (perform deps e)
    unfolding perform
    Does-perform e w = (up w.trace e, refl)

    Does-attempt : (f : Agents → Agents) (m : Step ℕ) → Does f m → Does f (attempt deps m)
    unfolding attempt
    Does-attempt f m does w = go (m w) (does w)
      where
        go :
            (x : Result Failure ℕ × World)
            → (is_ok x.0 ≡ true) × (x.1.agents ≡ f w.agents)
            → (is_ok (caught (λ e. return 0) x).0 ≡ true)
              × ((caught (λ e. return 0) x).1.agents ≡ f w.agents)
        go (ok a, w') held = held
        go (raised e, w') (held, same) = absurd (ground (arith, held))

    Does-disable : (id : ℕ) → Does (λ a. (set_enabled id false a).1) (disable_agent deps id)
    unfolding disable_agent
    Does-disable id w =
        bind_ind (λ x. (is_ok x.0 ≡ true) × (x.1.agents ≡ (set_enabled id false w.agents).1))
          (perform deps (disable id))
          (λ a w'. (ok a, record w' { agents = (set_enabled id false w'.agents).1 })) w
          (λ e w' eq.
            absurd
              (ground (arith, subst (λ x. is_ok x.0 ≡ true) eq (Does-perform (disable id) w).0)))
          (λ a w' eq. (
            refl,
            ap (λ a. (set_enabled id false a).1)
                (subst (λ x. x.1.agents ≡ w.agents) eq (Does-perform (disable id) w).1),
          ))

    Does-fire :
        (place : Place) (agent : ResolvedAgent) (p : ℕ)
        → deps.has_registry ≡ true
        → Does (λ a. (set_enabled agent.id false a).1) (fire_tripwire deps place agent p)
    unfolding fire_tripwire
    Does-fire place agent p held =
        let off = attempt deps (disable_agent deps agent.id) in
        let audit = attempt deps (
          perform deps
            (tripwire_event (offending agent.allowed_tools darkclaw_baseline_tools) agent.id)) in
        let last = attempt deps (perform deps (edit p "—")) in
        let word = attempt deps (perform deps (say place "Fuck")) in
        let set : Agents → Agents = λ a. (set_enabled agent.id false a).1 in
        let same : Agents → Agents = λ a. a in
        let guarded : Step ℕ = if deps.has_registry then off else return 0 in
        Does-then same set word (guarded >> audit >> last)
          (Does-attempt same _ (Does-perform (say place "Fuck")))
          (Does-then set same guarded (audit >> last)
            (subst (λ b. Does set (if b then off else return 0)) (sym held)
              (Does-attempt set _ (Does-disable agent.id)))
            (Does-then same same audit last (Does-attempt same _ (Does-perform _))
              (Does-attempt same _ (Does-perform _))))

    Does-turn :
        (job : Job) (agent : ResolvedAgent) (p : ℕ)
        → deps.has_registry ≡ true
        → is_tripped agent ≡ true
        → Does (λ a. (set_enabled agent.id false a).1) (turn_body deps job agent p)
    unfolding turn_body
    Does-turn job agent p held trips =
        let fired = fire_tripwire deps (place_of deps job) agent p in
        let ended = perform deps (turn_end "tripwire" none agent.id) in
        let set : Agents → Agents = λ a. (set_enabled agent.id false a).1 in
        let same : Agents → Agents = λ a. a in
        let rest : Step ℕ =
          if is_tripped agent then fired >> ended else converse deps job agent p in
        Does-then same set (perform deps (turn_start agent.id agent.runtime_kind agent.model_id))
          rest (Does-perform _)
          (subst (λ b. Does set (if b then fired >> ended else converse deps job agent p))
            (sym trips)
            (Does-then set same fired ended (Does-fire (place_of deps job) agent p held)
              (Does-perform _)))

    Does-try :
        (f : Agents → Agents) (m : Step ℕ) (handler : Failure → Step ℕ)
        → Does f m
        → Does f (try_except m handler)
    Does-try f m handler does w = go (m w) (does w)
      where
        go :
            (x : Result Failure ℕ × World)
            → (is_ok x.0 ≡ true) × (x.1.agents ≡ f w.agents)
            → (is_ok (caught handler x).0 ≡ true) × ((caught handler x).1.agents ≡ f w.agents)
        go (ok a, w') held = held
        go (raised e, w') (held, same) = absurd (ground (arith, held))

    Does-finally :
        (f : Agents → Agents) (m : Step ℕ) (e : Effect)
        → Does f m
        → Does f (try_finally m (perform deps e))
    unfolding perform
    Does-finally f m e does w = go (deps.answers (m w).1.trace e) (up (m w).1.trace e)
      where
        go :
            (s : Result Failure ℕ)
            → is_ok s ≡ true
            → (is_ok (closing e (m w) s).0 ≡ true) × ((closing e (m w) s).1.agents ≡ f w.agents)
        go (ok a) held = does w
        go (raised g) held = absurd (ground (arith, held))

    tripped-set :
        (job : Job) (agent : ResolvedAgent) (w : World)
        → resolve_agent deps job w ≡ ok (some agent)
        → is_tripped agent ≡ true
        → deps.has_registry ≡ true
        → (process_job deps job w).1.agents ≡ (set_enabled agent.id false w.agents).1
    unfolding process_job turn
    tripped-set job agent w resolved trips held =
        let same : Agents → Agents = λ a. a in
        let set : Agents → Agents = λ a. (set_enabled agent.id false a).1 in
        rw (resolved, process_job)
          ((Does-bind same set (perform deps (say (place_of deps job) "🤔 Working on it…"))
            (λ p. perform deps open_llm >> turn deps job agent p) (Does-perform _)
            (λ p.
              Does-then same set (perform deps open_llm) (turn deps job agent p) (Does-perform _) (
                Does-finally set (try_except (turn_body deps job agent p) (report deps agent p))
                  close_llm
                  (Does-try set (turn_body deps job agent p) (report deps agent p)
                    (Does-turn job agent p held trips))))
            w).1)

    -- If the outside answers each effect and the worker has a registry, and the agent of a job is
    -- tripped and has a row in it: after the job the row is the same but disabled, and the row of
    -- every other id is what it was.
    pub tripped-disabled :
        (job : Job) (agent : ResolvedAgent) (w : World) (row : AgentRow)
        → resolve_agent deps job w ≡ ok (some agent)
        → is_tripped agent ≡ true
        → deps.has_registry ≡ true
        → get agent_id agent.id w.agents ≡ some row
        → (get agent_id agent.id (process_job deps job w).1.agents
            ≡ some (record row { enabled = false }))
          × ((k : ℕ)
              → (k == agent.id) ≡ false
              → get agent_id k (process_job deps job w).1.agents ≡ get agent_id k w.agents)
    unfolding set_enabled
    tripped-disabled job agent w row resolved trips held stored =
        let off : AgentRow → AgentRow = λ r. record r { enabled = false } in
        rw (tripped-set job agent w resolved trips held) (
          ground (
            arith,
            get-update agent_id off agent.id agent.id w.agents (λ r. refl),
            stored,
            ==_refl agent.id,
          ),
          λ k other. ground (arith, get-update agent_id off k agent.id w.agents (λ r. refl), other),
        )
