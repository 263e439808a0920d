-- ===== src/Worker/Edited.antt =====
-- Which steps of a turn try to edit the placeholder, whatever the outside answers.
use moomacha.Worker.{
  Step, return, ◌>>=◌, ◌>>◌, try_except, perform, Failure, budget_exceeded, timed_out, failed,
  Place, Effect, say, edit, turn_start, turn_end, error_event, tripwire_event, run, World,
  HistoryMessage, RunnerInput, JobDeps,
}
use moomacha.Worker.Keeping.{bind_ind, caught, Keeps, Keeps-bind, Keeps-perform, Relation}
use moomacha.Worker.Tripwire.{
  darkclaw_baseline_tools, offending, attempt, disable_agent, fire_tripwire,
}
use moomacha.Worker.Turn.{
  place_of, read_history, memory_ns_of, runner_input, kind_of, touch_session, give_up, answer_turn,
}
use moomacha.Worker.Process.{is_tripped, run_selected, select_and_run, converse, turn_body, report}
use moomacha.Base.{
  ℕ, String, ◌<>◌, ◌≡◌, subst, Bool, true, false, none, some, List, ◌∷◌, arith, ◌==◌, if◌then◌else◌,
  ==_refl, if_ind, Option_ind, any,
}
use moomacha.Base.Results.{result_ind, Result, ok, raised}
use moomacha.Base.Text.{slice_to}
use moomacha.Jobs.{Job}
use moomacha.ToolAccess.{contains}
use moomacha.Agents.{ResolvedAgent}

abbrev pub is_edit : ℕ → Effect → Bool
is_edit p (edit i _) = i == p
is_edit p _ = false

abbrev pub IsEdited : ℕ → List Effect → Type 0
IsEdited p t = any (is_edit p) t ≡ true

-- Edits are not undone.
keeping : ℕ → Relation
keeping p = record {
  Holds = λ t u. IsEdited p t → IsEdited p u;
  Allowed = λ e. Unit;
  none_done = λ t h. h;
  one_done = λ t e a h. ground (arith, h);
  then_done = λ t u v f g h. g (f h);
}

-- If it ends well, the placeholder has been edited.
abbrev pub EditsIfOk : ℕ → Result Failure ℕ × World → Type 0
EditsIfOk p (ok _, w) = IsEdited p w.trace
EditsIfOk p (raised _, w) = Unit

EditsIfOk-edited : (p : ℕ) (x : Result Failure ℕ × World) → IsEdited p x.1.trace → EditsIfOk p x
EditsIfOk-edited p (ok a, w) h = h
EditsIfOk-edited p (raised e, w) h = tt

EditsIfOk-bind :
    {A : Type 0} (p : ℕ) (m : Step A) (f : A → Step ℕ)
    → ((a : A) (w : World) → EditsIfOk p (f a w))
    → (w : World) → EditsIfOk p ((m >>= f) w)
EditsIfOk-bind p m f after w = bind_ind (EditsIfOk p) m f w (λ e w' eq. tt) (λ a w' eq. after a w')

EditsIfOk-if :
    (p : ℕ) (b : Bool) (m n : Step ℕ)
    → ((w : World) → EditsIfOk p (m w))
    → ((w : World) → EditsIfOk p (n w))
    → (w : World) → EditsIfOk p ((if b then m else n) w)
EditsIfOk-if p true m n held gone = held
EditsIfOk-if p false m n held gone = gone

EditsIfOk-then :
    (p : ℕ) (m n : Step ℕ)
    → ((w : World) → EditsIfOk p (m w))
    → Keeps (keeping p) n
    → (w : World) → EditsIfOk p ((m >> n) w)
unfolding keeping
EditsIfOk-then p m n before after w =
    bind_ind (EditsIfOk p) m (λ a. n) w (λ e w' eq. tt)
      (λ a w' eq. EditsIfOk-edited p (n w') (after w' (subst (EditsIfOk p) eq (before w))))

pub try_except-Edits :
    (p : ℕ) (m : Step ℕ) (handler : Failure → Step ℕ) (w : World)
    → EditsIfOk p (m w)
    → ((e : Failure) (w' : World) → IsEdited p (handler e w').1.trace)
    → IsEdited p (try_except m handler w).1.trace
try_except-Edits p m handler w fine after = go (m w) fine
  where
    go : (x : Result Failure ℕ × World) → EditsIfOk p x → IsEdited p (caught handler x).1.trace
    go (ok a, w') h = h
    go (raised e, w') h = after e w'

module _ {Parsed Tools : Type 0} (deps : JobDeps Parsed Tools) where
  keeps : (p : ℕ) (e : Effect) → Keeps (keeping p) (perform deps e)
  unfolding keeping
  keeps p e = Keeps-perform (keeping p) deps e tt

  -- Once the edit is tried, what follows does not matter.
  edit_first :
      (p : ℕ) (text : String) (n : Step ℕ)
      → Keeps (keeping p) n
      → (w : World) → IsEdited p ((perform deps (edit p text) >> n) w).1.trace
  unfolding perform keeping
  edit_first p text n after w =
      bind_ind (λ x. IsEdited p x.1.trace) (perform deps (edit p text)) (λ a. n) w
        (λ e w' eq. subst (λ x. IsEdited p x.1.trace) eq (ground (arith, ==_refl p)))
        (λ a w' eq. after w' (subst (λ x. IsEdited p x.1.trace) eq (ground (arith, ==_refl p))))

  pub give_up-Edits :
      (agent : ResolvedAgent) (p : ℕ) (notice error_type message status : String) (w : World)
      → IsEdited p (give_up deps agent p notice error_type message status w).1.trace
  unfolding give_up
  give_up-Edits agent p notice error_type message status w =
      edit_first p notice
        (perform deps (error_event error_type message agent.id)
          >> perform deps (turn_end status none agent.id))
        (Keeps-bind (keeping p) (perform deps (error_event error_type message agent.id))
          (λ a. perform deps (turn_end status none agent.id)) (keeps p _) (λ a. keeps p _))
        w

  touch_session-Keeps : (p : ℕ) (job : Job) → Keeps (keeping p) (touch_session deps job)
  unfolding touch_session keeping
  touch_session-Keeps p job w =
      Option_ind (λ (x : Result Failure ℕ × World). IsEdited p w.trace → IsEdited p x.1.trace)
        job.session_id (λ gone h. h)
        (λ sid found.
          if_ind (λ (x : Result Failure ℕ × World). IsEdited p w.trace → IsEdited p x.1.trace)
            deps.has_session_store
            (λ held.
              result_ind
                (λ (x : Result Failure ℕ × World). IsEdited p w.trace → IsEdited p x.1.trace)
                (deps.touches w.trace) (λ e h. h) (λ n h. h))
            (λ missing h. h))

  answer_turn-Edits :
      (job : Job) (agent : ResolvedAgent) (p : ℕ) (text : String) (w : World)
      → IsEdited p (answer_turn deps job agent p text w).1.trace
  unfolding answer_turn
  answer_turn-Edits job agent p text w =
      let ended = perform deps (turn_end "ok" (some (slice_to 500 text)) agent.id) in
      edit_first p text (touch_session deps job >> ended)
        (Keeps-bind (keeping p) (touch_session deps job) (λ a. ended) (touch_session-Keeps p job)
          (λ a. keeps p _))
        w

  edit_tried :
      (p : ℕ) (text : String) (w : World)
      → EditsIfOk p (attempt deps (perform deps (edit p text)) w)
  unfolding attempt perform
  edit_tried p text w = go (deps.answers w.trace (edit p text))
    where
      go :
          (r : Result Failure ℕ)
          → EditsIfOk p (caught (λ e. return 0) (r, record w { trace = edit p text ∷ w.trace }))
      go (ok a) = ground (arith, ==_refl p)
      go (raised e) = ground (arith, ==_refl p)

  fire_tripwire-Edits :
      (place : Place) (agent : ResolvedAgent) (p : ℕ) (w : World)
      → EditsIfOk p (fire_tripwire deps place agent p w)
  unfolding fire_tripwire attempt perform
  fire_tripwire-Edits place agent p w =
      let last = attempt deps (perform deps (edit p "—")) in
      let audit = attempt deps (
        perform deps
          (tripwire_event (offending agent.allowed_tools darkclaw_baseline_tools) agent.id)) in
      let off : Step ℕ =
        if deps.has_registry then attempt deps (disable_agent deps agent.id) else return 0 in
      EditsIfOk-bind p (attempt deps (perform deps (say place "Fuck"))) (λ a. off >> audit >> last)
        (λ a.
          EditsIfOk-bind p off (λ b. audit >> last)
            (λ b. EditsIfOk-bind p audit (λ c. last) (λ c w'. edit_tried p "—" w')))
        w

  run_selected-Edits :
      (job : Job) (agent : ResolvedAgent) (p : ℕ) (input : RunnerInput) (w : World)
      → EditsIfOk p (run_selected deps job agent p input w)
  unfolding run_selected
  run_selected-Edits job agent p input w =
      go (deps.run input (record w { trace = run agent.id ∷ w.trace }))
    where
      go :
          (x : Result Failure String × World)
          → EditsIfOk p (elim x.0 [
            | ok text ↦ answer_turn deps job agent p text x.1
            | raised timed_out ↦
                give_up deps agent p
                  ("⏱\u{fe0f} This turn timed out after " <> (deps.turn_timeout_seconds <> "s."))
                  "turn_timeout"
                  ("timed out after " <> (deps.turn_timeout_seconds <> "s"))
                  "timeout"
                  x.1
            | raised e ↦ (raised e, x.1)
          ])
      go (ok text, w') = EditsIfOk-edited p _ (answer_turn-Edits job agent p text w')
      go (raised timed_out, w') = EditsIfOk-edited p _ (give_up-Edits agent p _ _ _ _ w')
      go (raised (budget_exceeded n), w') = tt
      go (raised (failed name message), w') = tt

  select_and_run-Edits :
      (job : Job) (agent : ResolvedAgent) (p : ℕ) (history : List HistoryMessage) (ns : String)
      (w : World)
      → EditsIfOk p (select_and_run deps job agent p history ns w)
  unfolding select_and_run
  select_and_run-Edits job agent p history ns w =
      EditsIfOk-if p (contains (kind_of deps agent) deps.runner_kinds)
        (run_selected deps job agent p (runner_input deps job agent history ns))
        (give_up deps agent p
          "⚠\u{fe0f} I'm not configured with a valid runtime; an admin needs to fix this."
          "unknown_runtime_kind" ("runtime_kind=" <> kind_of deps agent) "failed")
        (run_selected-Edits job agent p (runner_input deps job agent history ns))
        (λ w'. EditsIfOk-edited p _ (give_up-Edits agent p _ _ _ _ w')) w

  converse-Edits :
      (job : Job) (agent : ResolvedAgent) (p : ℕ) (w : World)
      → EditsIfOk p (converse deps job agent p w)
  unfolding converse
  converse-Edits job agent p =
      EditsIfOk-bind p (read_history deps job agent)
        (λ history.
          memory_ns_of deps job agent >>= λ ns. select_and_run deps job agent p history ns)
        (λ history.
          EditsIfOk-bind p (memory_ns_of deps job agent)
            (λ ns. select_and_run deps job agent p history ns)
            (λ ns. select_and_run-Edits job agent p history ns))

  pub turn_body-Edits :
      (job : Job) (agent : ResolvedAgent) (p : ℕ) (w : World)
      → EditsIfOk p (turn_body deps job agent p w)
  unfolding turn_body
  turn_body-Edits job agent p =
      let ended = perform deps (turn_end "tripwire" none agent.id) in
      let contained = fire_tripwire deps (place_of deps job) agent p >> ended in
      let body : Step ℕ = if is_tripped agent then contained else converse deps job agent p in
      EditsIfOk-bind p (perform deps (turn_start agent.id agent.runtime_kind agent.model_id))
        (λ a. body)
        (λ a.
          EditsIfOk-if p (is_tripped agent) contained (converse deps job agent p)
            (EditsIfOk-then p (fire_tripwire deps (place_of deps job) agent p) ended
              (fire_tripwire-Edits (place_of deps job) agent p) (keeps p _))
            (converse-Edits job agent p))

  pub report-Edits :
      (agent : ResolvedAgent) (p : ℕ) (e : Failure) (w : World)
      → IsEdited p (report deps agent p e w).1.trace
  unfolding report
  report-Edits agent p (budget_exceeded n) w = give_up-Edits agent p _ _ _ _ w
  report-Edits agent p timed_out w = give_up-Edits agent p _ _ _ _ w
  report-Edits agent p (failed name message) w = give_up-Edits agent p _ _ _ _ w
