-- ===== src/Worker/Containment.antt =====
-- An agent that holds a tool beyond its baseline: the runner never runs, and the agent is disabled.
use moomacha.Worker.{
  Step, return, ◌>>◌, try_except, try_finally, perform, Failure, budget_exceeded, timed_out, failed,
  Place, Effect, say, edit, open_llm, close_llm, turn_start, turn_end, error_event, tripwire_event,
  disable, run, World, JobDeps,
}
use moomacha.Worker.Keeping.{Keeps, Keeps-bind, Keeps-try_except, Keeps-perform, Relation}
use moomacha.Worker.Tripwire.{
  darkclaw_baseline_tools, offending, attempt, disable_agent, fire_tripwire,
}
use moomacha.Worker.Turn.{resolve_agent, place_of, give_up}
use moomacha.Worker.Process.{is_tripped, converse, turn_body, report, turn, process_job}
use moomacha.Base.{
  ℕ, String, ◌≡◌, refl, sym, subst, ◌∙◌, Bool, true, false, none, some, ◌∷◌, arith, if◌then◌else◌,
  count,
}
use moomacha.Base.Results.{Result, ok, raised}
use moomacha.Jobs.{Job}
use moomacha.Agents.{set_enabled, ResolvedAgent}

abbrev pub is_run : Effect → Bool
is_run (run _) = true
is_run _ = false

-- As many runs as before.
quiet : Relation
quiet = record {
  Holds = λ t u. count is_run u ≡ count is_run t;
  Allowed = λ e. is_run e ≡ false;
  none_done = λ t. refl;
  one_done = λ t e h. ground (arith, h);
  then_done = λ t u v f g. g ∙ f;
}

module _ {Parsed Tools : Type 0} (deps : JobDeps Parsed Tools) where
  silent : (e : Effect) → is_run e ≡ false → Keeps quiet (perform deps e)
  unfolding quiet
  silent e h = Keeps-perform quiet deps e h

  then_silent : (m n : Step ℕ) → Keeps quiet m → Keeps quiet n → Keeps quiet (m >> n)
  then_silent m n before after = Keeps-bind quiet m (λ a. n) before (λ a. after)

  give_up-silent :
      (agent : ResolvedAgent) (p : ℕ) (notice error_type message status : String)
      → Keeps quiet (give_up deps agent p notice error_type message status)
  unfolding give_up
  give_up-silent agent p notice error_type message status =
      let reported = perform deps (error_event error_type message agent.id) in
      let ended = perform deps (turn_end status none agent.id) in
      then_silent (perform deps (edit p notice)) (reported >> ended) (silent _ refl)
        (then_silent reported ended (silent _ refl) (silent _ refl))

  report-silent :
      (agent : ResolvedAgent) (p : ℕ) (e : Failure) → Keeps quiet (report deps agent p e)
  unfolding report
  report-silent agent p (budget_exceeded n) = give_up-silent agent p _ _ _ _
  report-silent agent p timed_out = give_up-silent agent p _ _ _ _
  report-silent agent p (failed name message) = give_up-silent agent p _ _ _ _

  attempt-silent : (m : Step ℕ) → Keeps quiet m → Keeps quiet (attempt deps m)
  unfolding attempt quiet
  attempt-silent m kept = Keeps-try_except quiet m (λ e. return 0) kept (λ e w. refl)

  disable_agent-silent : (id : ℕ) → Keeps quiet (disable_agent deps id)
  unfolding disable_agent quiet
  disable_agent-silent id =
      Keeps-bind quiet (perform deps (disable id))
        (λ a w. (ok a, record w { agents = (set_enabled id false w.agents).1 }))
        (silent (disable id) refl) (λ a w. refl)

  off-silent :
      (b : Bool) (id : ℕ)
      → Keeps quiet (if b then attempt deps (disable_agent deps id) else return 0)
  unfolding quiet
  off-silent true id = attempt-silent (disable_agent deps id) (disable_agent-silent id)
  off-silent false id = λ w. refl

  fire_tripwire-silent :
      (place : Place) (agent : ResolvedAgent) (p : ℕ)
      → Keeps quiet (fire_tripwire deps place agent p)
  unfolding fire_tripwire
  fire_tripwire-silent place agent p =
      let last = attempt deps (perform deps (edit p "—")) in
      let audit = attempt deps (
        perform deps
          (tripwire_event (offending agent.allowed_tools darkclaw_baseline_tools) agent.id)) in
      let off : Step ℕ =
        if deps.has_registry then attempt deps (disable_agent deps agent.id) else return 0 in
      let word = attempt deps (perform deps (say place "Fuck")) in
      then_silent word (off >> audit >> last) (attempt-silent _ (silent _ refl)) (
        then_silent off (audit >> last) (off-silent deps.has_registry agent.id) (
          then_silent audit last (attempt-silent _ (silent _ refl))
            (attempt-silent _ (silent _ refl))))

  finally_silent :
      (m : Step ℕ) (e : Effect)
      → is_run e ≡ false
      → Keeps quiet m
      → Keeps quiet (try_finally m (perform deps e))
  unfolding quiet perform
  finally_silent m e h before w = go (deps.answers (m w).1.trace e)
    where
      go :
          (s : Result Failure ℕ)
          → count is_run
              (elim s as (λ x. Result Failure ℕ × World) [
                | ok _ ↦ ((m w).0, record (m w).1 { trace = e ∷ (m w).1.trace })
                | raised f ↦ (raised f, record (m w).1 { trace = e ∷ (m w).1.trace })
              ]).1.trace
            ≡ count is_run w.trace
      go (ok a) = ground (arith, h, before w)
      go (raised f) = ground (arith, h, before w)

  turn_body-silent :
      (job : Job) (agent : ResolvedAgent) (p : ℕ)
      → is_tripped agent ≡ true
      → Keeps quiet (turn_body deps job agent p)
  unfolding turn_body
  turn_body-silent job agent p trips =
      let ended = perform deps (turn_end "tripwire" none agent.id) in
      let fired = fire_tripwire deps (place_of deps job) agent p in
      let rest : Step ℕ = if is_tripped agent then fired >> ended else converse deps job agent p in
      Keeps-bind quiet (perform deps (turn_start agent.id agent.runtime_kind agent.model_id))
        (λ a. rest) (silent _ refl)
        (λ a.
          subst (λ b. Keeps quiet (if b then fired >> ended else converse deps job agent p))
            (sym trips)
            (then_silent fired ended (fire_tripwire-silent (place_of deps job) agent p)
              (silent _ refl)))

  -- Whatever the outside answers: for a job whose agent opted into the tripwire and holds a tool
  -- beyond the baseline, process_job adds no run of a runner to the trace.
  pub tripped_never_runs :
      (job : Job) (agent : ResolvedAgent) (w : World)
      → resolve_agent deps job w ≡ ok (some agent)
      → is_tripped agent ≡ true
      → count is_run (process_job deps job w).1.trace ≡ count is_run w.trace
  unfolding process_job quiet turn
  tripped_never_runs job agent w resolved trips =
      rw (resolved, process_job)
        (Keeps-bind quiet (perform deps (say (place_of deps job) "🤔 Working on it…"))
          (λ p. perform deps open_llm >> turn deps job agent p) (silent _ refl)
          (λ p. then_silent (perform deps open_llm) (turn deps job agent p) (silent _ refl) (
            finally_silent (try_except (turn_body deps job agent p) (report deps agent p)) close_llm
              refl
              (Keeps-try_except quiet (turn_body deps job agent p) (report deps agent p)
                (turn_body-silent job agent p trips) (report-silent agent p))))
          w)
