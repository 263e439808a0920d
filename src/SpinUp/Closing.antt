-- ===== src/SpinUp/Closing.antt =====
-- `close_session`: the binding of sessions to bots, and the topic that it closes.
use moomacha.Base.{
  ℕ, String, ◌≡◌, refl, sym, subst, ◌≢◌, inl, inr, true, Option, none, some, [], ◌∷◌, arith,
  Bool-cases, Option-cases, or_else, filter, All, All_of_filter,
}
use moomacha.Base.Results.{Result, ok, raised}
use moomacha.Rows.{SessionRow}
use moomacha.Sessions.{Sessions, is_open_for, at_most_one, StoreError}
use moomacha.Sessions.Laws.{IsClear, resolve_some}
use moomacha.Lifecycle.{Db}
use moomacha.Lifecycle.Bound.{holder, open_with, IsBound-close, IsBound-release, IsBound}
use moomacha.SpinUp.{
  truthy, close_session, Context, Reply, not_available, missing_arguments, store_failed, no_session,
  session_closed,
}
use moomacha.SpinUp.Outcome.{close-IsClear}
use moomacha.Pool
use moomacha.Sessions

resolved_ind {ℓ} :
    {A : Type 0} (P : A → Type ℓ) (found : Result StoreError (Option SessionRow))
    {failed missing : A} {closing : SessionRow → A}
    → P failed
    → P missing
    → ((s : SessionRow) → found ≡ ok (some s) → P (closing s))
    → P (elim found [ raised _ ↦ failed | ok none ↦ missing | ok (some s) ↦ closing s ])
resolved_ind P (raised e) f m c = f
resolved_ind P (ok none) f m c = m
resolved_ind P (ok (some s)) f m c = c s refl

-- After the reply `session_closed` no open session has the topic; any other reply changed nothing.
abbrev pub ClosesTopic : String → String → Db → Reply × Db → Type 0
ClosesTopic channel topic db (session_closed, after) = IsClear channel topic after.sessions
ClosesTopic channel topic db (_, after) = after ≡ db

module _ {E : Type 0} (ctx : Context E) (channel topic : Option String) (clock : ℕ → ℕ) (db : Db)
    (v : IsBound db) where
  bound_holder :
      (c t : String) (s : SessionRow) (b : ℕ)
      → Sessions.resolve_for_topic c t db.sessions ≡ ok (some s)
      → s.pool_bot_id ≡ some b
      → holder b s.id db.pool ≡ true
  unfolding open_with
  bound_holder c t s b e has =
      let fact = resolve_some c t db.sessions s v.session_keys e in
      v.bound s.id b (ground (arith, fact.0, fact.1))

  abbrev after_close : SessionRow → Db
  after_close s = record {
    pool = elim s.pool_bot_id [ none ↦ db.pool | some b ↦ Pool.release b (clock 0) db.pool ];
    sessions = (Sessions.close s.id (clock 1) db.sessions).1;
  }

  after_close-IsBound :
      (c t : String) (s : SessionRow)
      → Sessions.resolve_for_topic c t db.sessions ≡ ok (some s)
      → IsBound (after_close s)
  unfolding Sessions.close Sessions.set_state
  after_close-IsBound c t s e = elim (Option-cases s.pool_bot_id) [
    | inl no_bot ↦ rw no_bot (IsBound-close db s.id (clock 1) v)
    | inr (b, has) ↦
        rw has (IsBound-release db s.id b (clock 0) (clock 1) (bound_holder c t s b e has) v)
  ]

  after_close-IsClear :
      (c t : String) (s : SessionRow)
      → Sessions.resolve_for_topic c t db.sessions ≡ ok (some s)
      → IsClear c t (after_close s).sessions
  unfolding Sessions.close Sessions.set_state Sessions.resolve_for_topic
  after_close-IsClear c t s e = close-IsClear c t s.id (clock 1) db.sessions (
      All_of_filter (λ r. r.id ≡ s.id) (is_open_for c t) db.sessions
        (subst (All (λ r. r.id ≡ s.id)) (sym (one (filter (is_open_for c t) db.sessions) e))
          (refl, tt)))
    where
      one : (l : Sessions) → at_most_one l ≡ ok (some s) → l ≡ s ∷ []
      one [] h = absurd (ground arith)
      one (x ∷ []) h = ground arith
      one (x ∷ y ∷ l) h = absurd (ground arith)

  -- Every run changes nothing, or closes the one open session of its topic.
  close_session_ind {ℓ} :
      (P : Reply × Db → Type ℓ)
      → ((r : Reply) → r ≢ session_closed → P (r, db))
      → ((c t : String) (s : SessionRow)
          → truthy channel ≡ some c
          → truthy topic ≡ some t
          → Sessions.resolve_for_topic c t db.sessions ≡ ok (some s)
          → P (session_closed, after_close s))
      → P (close_session ctx channel topic clock db)
  unfolding close_session
  close_session_ind P refused fine = elim (Bool-cases ctx.stores_ready) [
    | inr off ↦ rw (off, close_session) (refused not_available (λ e. cc))
    | inl on ↦ elim (Option-cases (truthy channel)) [
      | inl e ↦ rw (on, e, close_session) (refused missing_arguments (λ e. cc))
      | inr (c, ec) ↦ elim (Option-cases (truthy topic)) [
        | inl e ↦ rw (on, ec, e, close_session) (refused missing_arguments (λ e. cc))
        | inr (t, et) ↦
            rw (on, ec, et, close_session)
              (resolved_ind P (Sessions.resolve_for_topic c t db.sessions)
                (refused store_failed (λ e. cc)) (refused no_session (λ e. cc))
                (λ s h. fine c t s ec et h))
      ]
    ]
  ]

  -- The channel and the topic of the call; an absent or empty one stands as the empty string.
  abbrev ClosesOwnTopic : Reply × Db → Type 0
  ClosesOwnTopic = ClosesTopic (or_else (truthy channel) "") (or_else (truthy topic) "") db

  refused-ClosesTopic : (r : Reply) → r ≢ session_closed → ClosesOwnTopic (r, db)
  refused-ClosesTopic session_closed h = absurd (h refl)
  refused-ClosesTopic _ h = refl

  -- With bound sessions, close_session keeps every open session's bot leased, and to that session.
  pub close_session-IsBound : IsBound (close_session ctx channel topic clock db).1
  close_session-IsBound =
      close_session_ind (λ r. IsBound r.1) (λ r h. v) (λ c t s ec et h. after_close-IsBound c t s h)

  -- With bound sessions: after the reply that it closed, no open session has the topic; after any
  -- other reply the database is as it was.
  pub close_session-ClosesTopic :
      ClosesTopic
        (or_else (truthy channel) "")
        (or_else (truthy topic) "")
        db
        (close_session ctx channel topic clock db)
  close_session-ClosesTopic =
      close_session_ind ClosesOwnTopic refused-ClosesTopic
        (λ c t s ec et h. rw (ec, et) (after_close-IsClear c t s h))
