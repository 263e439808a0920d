-- ===== src/Artifacts/Resuming.antt =====
-- routes/artifacts.py: how often the submissions to an artifact resume its agent.
use moomacha.Jobs.{enqueue_submission, enqueue_agent_turn, Event, interactive_submission_received}
use moomacha.Artifacts.{
  art_id, is_opened, existing_submission, get_verified, expire_if_due, settled, closed_outcome,
  commit_submission, accept_submission, Status, opened, submitted, expired, revoked, ArtifactRow,
  SubmissionRow, Store, Outcome, accepted, duplicate, conflict, was_expired, was_revoked,
  SubmissionResult,
}
use moomacha.Artifacts.Route.{
  load, sent, resume, answer, submit_body, read_body, submit, submissions, SubmitBody, RouteState,
  RouteDeps, Reply, error_reply, Request,
}
use moomacha.Base.{
  ℕ, suc, ◌+◌, ◌≤◌, String, ◌≡◌, refl, sym, ap, subst, ◌∙◌, ◌≢◌, ◌⊎◌, inl, inr, Bool, false, not,
  ◌&&◌, ◌||◌, Option, none, some, List, [], ◌∷◌, arith, ltb, leb, ◌==◌, if◌then◌else◌, if_ind,
  Option_ind, length, count, count-append, get,
}
use moomacha.Base.Results.{found_ind, Result, ok, raised}
use moomacha.Artifacts

abbrev pub is_resume : ℕ → Event → Bool
is_resume id (interactive_submission_received _ _ artifact_id _ _) = artifact_id == id
is_resume id _ = false

abbrev resumes : ℕ → RouteState → ℕ
resumes id s = count (is_resume id) s.ledger.events

abbrev recorded : ℕ → List SubmissionRow → ℕ
recorded id subs = elim (existing_submission id subs) [ none ↦ 0 | some _ ↦ 1 ]

recorded-le-one : (id : ℕ) (subs : List SubmissionRow) → recorded id subs ≤ 1
recorded-le-one id subs =
    Option_ind (λ n. n ≤ 1) (existing_submission id subs) (λ gone. omega arith)
      (λ w found. omega arith)

-- The agent is resumed for a recorded submission only.
abbrev Sound : ℕ → RouteState → Type 0
Sound id s = resumes id s ≤ recorded id s.store.submissions

-- A submission leaves the table of submissions alone, or is the first one of its artifact.
abbrev Records : SubmissionRow → Store → SubmissionResult × Store × List Artifacts.Event → Type 0
Records sub store x =
    ((x.0.outcome ≢ accepted) × (x.1.submissions ≡ store.submissions))
    ⊎ ((existing_submission sub.artifact_id store.submissions ≡ none)
        × (x.1.submissions ≡ sub ∷ store.submissions))

settled_refuses :
    (submission_id : String) (found : Option SubmissionRow) (status : Status)
    → (settled submission_id found (closed_outcome status)).outcome ≢ accepted
unfolding settled closed_outcome
settled_refuses submission_id none status h = ground (arith, h)
settled_refuses submission_id (some w) status h = ground (arith, h)

accept-Records :
    (sub : SubmissionRow) (clock : ℕ → ℕ) (store : Store)
    → Records sub store (accept_submission sub (λ s. s) clock store)
unfolding accept_submission commit_submission
accept-Records sub clock store =
    Option_ind (Records sub store) (get art_id sub.artifact_id store.artifacts)
      (λ gone. inl (λ h. ground (arith, h), refl))
      (λ art stored.
        if_ind (Records sub store) (is_opened art && leb art.expires_at (clock 0))
          (λ late. inl (λ h. ground (arith, h), refl))
          (λ fine.
            if_ind (Records sub store) (not (is_opened art))
              (λ shut. inl (settled_refuses sub.submission_id _ art.status, refl))
              (λ open_now.
                Option_ind (Records sub store)
                  (existing_submission sub.artifact_id store.submissions)
                  (λ unclaimed. inr (unclaimed, refl))
                  (λ winner found.
                    inl (settled_refuses sub.submission_id (some winner) submitted, refl)))))

module _ (deps : RouteDeps) where
  -- No other store, and one more event of the artifact at most.
  abbrev Adds : ℕ → RouteState → Reply × RouteState → Type 0
  Adds id s x =
      (x.1.store ≡ s.store) × ((k : ℕ) → resumes k x.1 ≤ resumes k s + (if id == k then 1 else 0))

  sent-Adds :
      (row : ArtifactRow) (sub : SubmissionRow) (s : RouteState) (r : Result String ℕ)
      → Adds sub.artifact_id s (sent deps row sub s r)
  unfolding sent enqueue_agent_turn enqueue_submission
  sent-Adds row sub s (raised e) = (refl, λ k. omega arith)
  sent-Adds row sub s (ok message_id) =
      (refl, λ k. rw (count-append (is_resume k) s.ledger.events _) (ground arith))

  resume-Adds :
      (row : ArtifactRow) (sub : SubmissionRow) (token : String) (s : RouteState)
      → Adds sub.artifact_id s (resume deps row sub token s)
  unfolding resume
  resume-Adds row sub token s =
      found_ind (Adds sub.artifact_id s) (deps.resolve_agent row.creator_agent_id)
        (λ e found. (refl, λ k. omega arith)) (λ found. (refl, λ k. omega arith))
        (λ agent found. sent-Adds row sub (record s { posted = _ ∷ s.posted }) _)

  answer-Adds :
      (row : ArtifactRow) (sub : SubmissionRow) (token : String) (r : SubmissionResult)
      (s : RouteState)
      → Adds sub.artifact_id s (answer deps row sub token r s)
  unfolding answer
  answer-Adds row sub token r s = go r.outcome r.submission
    where
      go :
          (o : Outcome) (found : Option SubmissionRow)
          → Adds sub.artifact_id s
              (answer deps row sub token (record { outcome = o; submission = found }) s)
      go conflict found = (refl, λ k. omega arith)
      go was_expired found = (refl, λ k. omega arith)
      go was_revoked found = (refl, λ k. omega arith)
      go duplicate none = (refl, λ k. omega arith)
      go duplicate (some w) = (refl, λ k. omega arith)
      go accepted found = resume-Adds row sub token s

  refused :
      (row : ArtifactRow) (sub : SubmissionRow) (token : String) (r : SubmissionResult)
      (s : RouteState)
      → r.outcome ≢ accepted
      → (answer deps row sub token r s).1 ≡ s
  unfolding answer
  refused row sub token r s h = go r.outcome r.submission h
    where
      go :
          (o : Outcome) (found : Option SubmissionRow)
          → o ≢ accepted
          → (answer deps row sub token (record { outcome = o; submission = found }) s).1 ≡ s
      go conflict found h = refl
      go was_expired found h = refl
      go was_revoked found h = refl
      go duplicate none h = refl
      go duplicate (some w) h = refl
      go accepted found h = absurd (h refl)

  load-submissions :
      (id : ℕ) (token : String) (now : ℕ) (store : Store)
      → (load deps id token now store).1.submissions ≡ store.submissions
  unfolding load expire_if_due
  load-submissions id token now store =
      Option_ind (λ (x : Option ArtifactRow × Store). x.1.submissions ≡ store.submissions)
        (get_verified deps.hash_token id token store) (λ gone. refl)
        (λ row found.
          if_ind
            (λ (x : Bool × ArtifactRow × Store × List Artifacts.Event).
              x.2.submissions ≡ store.submissions)
            (not (is_opened row) || not (leb row.expires_at now)) (λ idle. refl)
            (λ due.
              Option_ind
                (λ (x : Bool × ArtifactRow × Store × List Artifacts.Event).
                  x.2.submissions ≡ store.submissions)
                (get art_id row.id store.artifacts) (λ gone. refl)
                (λ db_row stored.
                  if_ind
                    (λ (x : Bool × ArtifactRow × Store × List Artifacts.Event).
                      x.2.submissions ≡ store.submissions)
                    (not (is_opened db_row)) (λ shut. refl) (λ open_now. refl))))

  submitted-Sound :
      (row : ArtifactRow) (sub : SubmissionRow) (token : String) (clock : ℕ → ℕ) (s : RouteState)
      (k : ℕ)
      → Sound k s
      → (let x = accept_submission sub (λ s. s) clock s.store in
          Sound k (answer deps row sub token x.0 (record s { store = x.1 })).1)
  unfolding existing_submission
  submitted-Sound row sub token clock s k sound =
      go (accept_submission sub (λ s. s) clock s.store) (accept-Records sub clock s.store)
    where
      go :
          (x : SubmissionResult × Store × List Artifacts.Event)
          → Records sub s.store x
          → Sound k (answer deps row sub token x.0 (record s { store = x.1 })).1
      go x (inl (other, same)) =
          subst (Sound k) (sym (refused row sub token x.0 (record s { store = x.1 }) other))
            (subst (λ t. resumes k s ≤ recorded k t) (sym same) sound)
      go x (inr (unclaimed, first)) =
          let (kept, more) = answer-Adds row sub token x.0 (record s { store = x.1 }) in
          let taken : recorded k (sub ∷ s.store.submissions)
              ≡ (if sub.artifact_id == k then 1 else recorded k s.store.submissions) =
            ground arith in
          let before : (sub.artifact_id ≡ k) → recorded k s.store.submissions ≡ 0 = λ e.
            subst (λ i. recorded i s.store.submissions ≡ 0) e (rw (unclaimed, recorded) refl) in
          subst
            (λ t.
              resumes k (answer deps row sub token x.0 (record s { store = x.1 })).1 ≤ recorded k t)
            (sym (ap (λ t. t.submissions) kept ∙ first))
            (ground (arith, more k, taken, before, sound))

  body-Sound :
      (id : ℕ) (token : String) (clock : ℕ → ℕ) (row : ArtifactRow) (body : SubmitBody)
      (s : RouteState) (k : ℕ)
      → Sound k s
      → Sound k (submit_body deps id token clock row body s).1
  unfolding submit_body
  body-Sound id token clock row body s k = submitted-Sound row _ token clock s k

  read_body-Sound :
      (id : ℕ) (token : String) (raw : List ℕ) (clock : ℕ → ℕ) (row : ArtifactRow) (s : RouteState)
      (k : ℕ)
      → Sound k s
      → Sound k (read_body deps id token raw clock row s).1
  unfolding read_body
  read_body-Sound id token raw clock row s k sound =
      if_ind (λ (x : Reply × RouteState). Sound k x.1) (ltb deps.max_payload_bytes (length raw))
        (λ large. sound)
        (λ small.
          Option_ind (λ (x : Reply × RouteState). Sound k x.1) (deps.parse raw) (λ bad. sound)
            (λ body good. body-Sound id token (λ i. clock (suc i)) row body s k sound))

  submit-Sound :
      (id : ℕ) (token : String) (raw : List ℕ) (clock : ℕ → ℕ) (s : RouteState) (k : ℕ)
      → Sound k s
      → Sound k (submit deps id token raw clock s).1
  unfolding submit
  submit-Sound id token raw clock s k sound =
      let x = load deps id token (clock 0) s.store in
      let s' : RouteState = record s { store = x.1 } in
      let still : Sound k s' =
        subst (λ t. resumes k s ≤ recorded k t) (sym (load-submissions id token (clock 0) s.store))
          sound in
      Option_ind (λ (y : Reply × RouteState). Sound k y.1) x.0 (λ gone. still)
        (λ row found. of_status row row.status s' still)
    where
      of_status :
          (row : ArtifactRow) (status : Status) (s' : RouteState)
          → Sound k s'
          → Sound k
              (elim status as (λ x. Reply × RouteState) [
                | expired ↦ (error_reply 410 "expired", s')
                | revoked ↦ (error_reply 410 "revoked", s')
                | opened ↦ read_body deps id token raw clock row s'
                | submitted ↦ read_body deps id token raw clock row s'
              ]).1
      of_status row expired s' h = h
      of_status row revoked s' h = h
      of_status row opened s' h = read_body-Sound id token raw clock row s' k h
      of_status row submitted s' h = read_body-Sound id token raw clock row s' k h

  submissions-Sound :
      (k : ℕ) (requests : List Request) (s : RouteState)
      → Sound k s
      → Sound k (submissions deps requests s)
  unfolding submissions
  submissions-Sound k [] s sound = sound
  submissions-Sound k (r ∷ requests) s sound =
      submissions-Sound k requests (submit deps r.artifact_id r.token r.raw r.clock s).1
        (submit-Sound r.artifact_id r.token r.raw r.clock s k sound)

  -- Over any requests to submit that follow each other, starting with no resumption of an
  -- artifact's agent: the submissions to that artifact resume its agent at most once.
  pub resumed_once :
      (id : ℕ) (requests : List Request) (s : RouteState)
      → count (is_resume id) s.ledger.events ≡ 0
      → count (is_resume id) (submissions deps requests s).ledger.events ≤ 1
  resumed_once id requests s none_yet = omega (
    arith,
    submissions-Sound id requests s (omega (arith, none_yet)),
    recorded-le-one id (submissions deps requests s).store.submissions,
  )
