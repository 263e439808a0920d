-- ===== src/Worker/Settled.antt =====
-- How a job leaves its placeholder and its client of the language model.
use moomacha.Worker.{
  Step, ◌>>◌, try_except, try_finally, perform, Failure, Effect, say, open_llm, close_llm, World,
  JobDeps,
}
use moomacha.Worker.Keeping.{bind_ind}
use moomacha.Worker.Turn.{resolve_agent, place_of}
use moomacha.Worker.Process.{turn_body, report, turn, process_job}
use moomacha.Worker.Edited.{IsEdited, try_except-Edits, turn_body-Edits, report-Edits}
use moomacha.Base.{ℕ, ◌≡◌, refl, sym, ap, ◌∙◌, ◌⊎◌, inl, inr, false, List, ◌∷◌}
use moomacha.Base.Results.{is_ok, found_ind, Result, ok, raised}
use moomacha.Jobs.{Job}
use moomacha.Agents.{ResolvedAgent}

module _ {Parsed Tools : Type 0} (deps : JobDeps Parsed Tools) (job : Job) where
  abbrev placeholder : Effect
  placeholder = say (place_of deps job) "🤔 Working on it…"

  -- The job is dropped; or it fails before the turn; or the edit of the placeholder has been tried, and
  -- the last effect closes the client.
  abbrev pub Settles : World → Result Failure ℕ × World → Type 0
  Settles w (r, w') =
      (w' ≡ w)
      ⊎ ((is_ok r ≡ false) × (w'.trace ≡ placeholder ∷ w.trace))
      ⊎ ((is_ok r ≡ false) × (w'.trace ≡ open_llm ∷ placeholder ∷ w.trace))
      ⊎ ((p : ℕ) × (rest : List Effect) × (deps.answers w.trace placeholder ≡ ok p)
          × (w'.trace ≡ close_llm ∷ rest)
          × IsEdited p rest)

  closed_last :
      (m : Step ℕ) (w : World)
      → (try_finally m (perform deps close_llm) w).1.trace ≡ close_llm ∷ (m w).1.trace
  unfolding perform
  closed_last m w = go (deps.answers (m w).1.trace close_llm)
    where
      go :
          (s : Result Failure ℕ)
          → (elim s as (λ x. Result Failure ℕ × World) [
            | ok _ ↦ ((m w).0, record (m w).1 { trace = close_llm ∷ (m w).1.trace })
            | raised e ↦ (raised e, record (m w).1 { trace = close_llm ∷ (m w).1.trace })
          ]).1.trace
            ≡ close_llm ∷ (m w).1.trace
      go (ok a) = refl
      go (raised e) = refl

  turn-Settles :
      (agent : ResolvedAgent) (p : ℕ) (w w' : World)
      → deps.answers w.trace placeholder ≡ ok p
      → Settles w (turn deps job agent p w')
  unfolding turn
  turn-Settles agent p w w' said =
      let tried = try_except (turn_body deps job agent p) (report deps agent p) in
      inr (
        inr (
          inr (
            p,
            (tried w').1.trace,
            said,
            closed_last tried w',
            try_except-Edits p (turn_body deps job agent p) (report deps agent p) w'
                (turn_body-Edits deps job agent p w') (report-Edits deps agent p),
          )))

  opened :
      (agent : ResolvedAgent) (p : ℕ) (w w' : World)
      → deps.answers w.trace placeholder ≡ ok p
      → w'.trace ≡ placeholder ∷ w.trace
      → Settles w ((perform deps open_llm >> turn deps job agent p) w')
  unfolding perform
  opened agent p w w' said posted =
      bind_ind (Settles w) (perform deps open_llm) (λ a. turn deps job agent p) w'
        (λ e w'' eq.
          inr (inr (inl (refl, sym (ap (λ x. x.1.trace) eq) ∙ ap (λ t. open_llm ∷ t) posted))))
        (λ a w'' eq. turn-Settles agent p w w'' said)

  -- Whatever the outside answers and the runner does, a job is dropped with no effect, or fails
  -- before the turn; or an edit of the placeholder that was posted has been tried, and the last
  -- effect closes the client of the language model.
  pub process_job-Settles : (w : World) → Settles w (process_job deps job w)
  unfolding process_job perform
  process_job-Settles w =
      found_ind (Settles w) (resolve_agent deps job w) (λ e found. inl refl) (λ found. inl refl)
        (λ agent found.
          bind_ind (Settles w) (perform deps placeholder)
            (λ p. perform deps open_llm >> turn deps job agent p) w
            (λ e w' eq. inr (inl (refl, sym (ap (λ x. x.1.trace) eq))))
            (λ p w' eq. opened agent p w w' (ap (λ x. x.0) eq) (sym (ap (λ x. x.1.trace) eq))))
