-- ===== src/Worker/Survival.antt =====
-- When a job's failure stays within it: what process_job does outside its `try` block succeeds.
use moomacha.Worker.{
  Step, ◌>>◌, try_except, try_finally, perform, Failure, budget_exceeded, timed_out, failed, Effect,
  say, edit, open_llm, close_llm, turn_end, error_event, World, JobDeps,
}
use moomacha.Worker.Keeping.{bind_ind, caught}
use moomacha.Worker.Turn.{resolve_agent, place_of, give_up}
use moomacha.Worker.Process.{turn_body, report, turn, process_job}
use moomacha.Base.{ℕ, String, ◌≡◌, refl, subst, Bool, true, false, none, List, ◌∷◌, arith}
use moomacha.Base.Results.{is_ok, found_ind, Result, ok, raised}
use moomacha.Jobs.{Job}
use moomacha.Agents.{ResolvedAgent}

-- What process_job does before its `try` block, in the `except` clauses and at the end: it posts and
-- edits messages, makes and closes the client of the language model, and reports the end of the turn.
abbrev pub is_outside_try : Effect → Bool
is_outside_try (say _ _) = true
is_outside_try (edit _ _) = true
is_outside_try open_llm = true
is_outside_try close_llm = true
is_outside_try (turn_end _ _ _) = true
is_outside_try (error_event _ _ _) = true
is_outside_try _ = false

module _ {Parsed Tools : Type 0} (deps : JobDeps Parsed Tools) (job : Job) where
  abbrev placeholder : Effect
  placeholder = say (place_of deps job) "🤔 Working on it…"

  -- The outside answers these effects. The start of the turn, the history, the tripwire and the
  -- registry may fail.
  abbrev pub IsUp : Type 0
  IsUp = (t : List Effect) (e : Effect) → is_outside_try e ≡ true → is_ok (deps.answers t e) ≡ true

  performs :
      IsUp
      → (e : Effect) → is_outside_try e ≡ true
      → (w : World) → is_ok (perform deps e w).0 ≡ true
  unfolding perform
  performs up e outside w = up w.trace e outside

  then_ok :
      (m n : Step ℕ)
      → ((w : World) → is_ok (m w).0 ≡ true)
      → ((w : World) → is_ok (n w).0 ≡ true)
      → (w : World) → is_ok ((m >> n) w).0 ≡ true
  then_ok m n before after w =
      bind_ind (λ x. is_ok x.0 ≡ true) m (λ a. n) w
        (λ e w' eq. subst (λ x. is_ok x.0 ≡ true) eq (before w)) (λ a w' eq. after w')

  try_ok :
      (m : Step ℕ) (handler : Failure → Step ℕ)
      → ((e : Failure) (w : World) → is_ok (handler e w).0 ≡ true)
      → (w : World) → is_ok (try_except m handler w).0 ≡ true
  try_ok m handler after w = go (m w)
    where
      go : (x : Result Failure ℕ × World) → is_ok (caught handler x).0 ≡ true
      go (ok a, w') = refl
      go (raised e, w') = after e w'

  finally_ok :
      (m : Step ℕ) (e : Effect)
      → is_outside_try e ≡ true
      → IsUp
      → ((w : World) → is_ok (m w).0 ≡ true)
      → (w : World) → is_ok (try_finally m (perform deps e) w).0 ≡ true
  unfolding perform
  finally_ok m e outside up before w =
      go (deps.answers (m w).1.trace e) (up (m w).1.trace e outside)
    where
      go :
          (s : Result Failure ℕ)
          → is_ok s ≡ true
          → is_ok
              (elim s as (λ x. Result Failure ℕ × World) [
                | ok _ ↦ ((m w).0, record (m w).1 { trace = e ∷ (m w).1.trace })
                | raised f ↦ (raised f, record (m w).1 { trace = e ∷ (m w).1.trace })
              ]).0
            ≡ true
      go (ok a) held = before w
      go (raised f) held = absurd (ground (arith, held))

  give_up_ok :
      (agent : ResolvedAgent) (p : ℕ) (notice error_type message status : String)
      → IsUp
      → (w : World) → is_ok (give_up deps agent p notice error_type message status w).0 ≡ true
  unfolding give_up
  give_up_ok agent p notice error_type message status up =
      let reported = perform deps (error_event error_type message agent.id) in
      let ended = perform deps (turn_end status none agent.id) in
      then_ok (perform deps (edit p notice)) (reported >> ended) (performs up _ refl)
        (then_ok reported ended (performs up _ refl) (performs up _ refl))

  report_ok :
      (agent : ResolvedAgent) (p : ℕ) (e : Failure)
      → IsUp
      → (w : World) → is_ok (report deps agent p e w).0 ≡ true
  unfolding report
  report_ok agent p (budget_exceeded n) up w = give_up_ok agent p _ _ _ _ up w
  report_ok agent p timed_out up w = give_up_ok agent p _ _ _ _ up w
  report_ok agent p (failed name message) up w = give_up_ok agent p _ _ _ _ up w

  turn_ok :
      (agent : ResolvedAgent) (p : ℕ)
      → IsUp
      → (w : World) → is_ok (turn deps job agent p w).0 ≡ true
  unfolding turn
  turn_ok agent p up =
      finally_ok (try_except (turn_body deps job agent p) (report deps agent p)) close_llm refl up (
        try_ok (turn_body deps job agent p) (report deps agent p) (λ e w. report_ok agent p e up w))

  -- If the agent is looked up without an error, the outside takes each message, edit, error event
  -- and end of the turn, and the client of the language model is made and closed without an error,
  -- then process_job raises nothing, whatever the runner, the stores, the registry and the other
  -- events raise.
  pub process_job-survives :
      (w : World)
      → IsUp
      → is_ok (resolve_agent deps job w) ≡ true
      → is_ok (process_job deps job w).0 ≡ true
  unfolding process_job
  process_job-survives w up resolved =
      found_ind (λ (x : Result Failure ℕ × World). is_ok x.0 ≡ true) (resolve_agent deps job w)
        (λ e found. subst (λ r. is_ok r ≡ true) found resolved) (λ found. refl)
        (λ agent found.
          bind_ind (λ x. is_ok x.0 ≡ true) (perform deps placeholder)
            (λ p. perform deps open_llm >> turn deps job agent p) w
            (λ e w' eq. subst (λ x. is_ok x.0 ≡ true) eq (performs up placeholder refl w))
            (λ p w' eq.
              then_ok (perform deps open_llm) (turn deps job agent p) (performs up open_llm refl)
                (turn_ok agent p up) w'))
