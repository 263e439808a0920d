-- ===== src/Resolver/Laws.antt =====
-- What the resolver of pool bots answers, and what it does to sessions.
use moomacha.Base.{
  ℕ, String, ◌≡◌, refl, inl, inr, true, false, Option, none, some, arith, Bool-cases, if_ind,
  Option_ind,
}
use moomacha.Base.Results.{found_ind, Result, ok, raised}
use moomacha.Rows.{state_eq, PoolBotRow, live, dormant, SessionRow}
use moomacha.Pool.{SecretBox, PoolBotCreds}
use moomacha.Sessions.{Sessions, session_id, is_open_for, in_state}
use moomacha.Sessions.Laws.{find-update, resolve_some}
use moomacha.Lifecycle.{Db}
use moomacha.Lifecycle.Bound.{open_with, IsBound-update, IsBound}
use moomacha.Agents.{ResolvedAgent}
use moomacha.Resolver.{
  agent_from_snapshot, awaken, answer, resolve_session, resolve_pool_bot_for_webhook,
  PoolBotResolution, pool_bot_no_session, pool_bot_turn, ResolveError, secret_failed, store_raised,
}
use moomacha.Pool
use moomacha.Sessions

module _ {E : Type 0} (box : SecretBox E) (email channel topic : String) (now : ℕ) (db : Db) where
  -- Every answer comes from the database as it was, or from a session of the topic that wakes up.
  resolve_ind {ℓ} :
      (P : Result (ResolveError E) (Option PoolBotResolution) × Db → Type ℓ)
      → ((e : ResolveError E) → P (raised e, db))
      → P (ok none, db)
      → ((token : String) → P (ok (some (pool_bot_no_session token)), db))
      → ((bot : PoolBotRow) (creds : PoolBotCreds) (s : SessionRow)
          → Pool.find_by_email email db.pool ≡ some bot
          → Sessions.resolve_for_topic channel topic db.sessions ≡ ok (some s)
          → P (ok (some (answer bot creds channel (awaken now s db).0)), (awaken now s db).1))
      → P (resolve_pool_bot_for_webhook box email channel topic now db)
  unfolding resolve_pool_bot_for_webhook resolve_session answer
  resolve_ind P bad unknown silent found =
      Option_ind P (Pool.find_by_email email db.pool) (λ e. unknown)
        (λ bot e.
          found_ind P (Pool.resolve_creds box bot.id db.pool) (λ x k. bad (secret_failed x))
            (λ k. unknown)
            (λ creds k.
              found_ind P (Sessions.resolve_for_topic channel topic db.sessions)
                (λ x h. bad (store_raised x)) (λ h. silent creds.outgoing_token)
                (λ s h. found bot creds s e h)))

  module _ (v : IsBound db) (s : SessionRow)
      (open_now : Sessions.resolve_for_topic channel topic db.sessions ≡ ok (some s)) where
    abbrev fact : (Sessions.find s.id db.sessions ≡ some s) × (is_open_for channel topic s ≡ true)
    fact = resolve_some channel topic db.sessions s v.session_keys open_now

    awaken-IsBound : IsBound (awaken now s db).1
    unfolding awaken Sessions.reopen Sessions.set_state
    awaken-IsBound = elim (Bool-cases (state_eq s.state dormant)) [
      | inr awake ↦ rw (awake, awaken) v
      | inl asleep ↦
          rw (asleep, awaken)
            (IsBound-update db s.id (in_state live now) (λ r. refl)
              (λ b r e h. v.bound s.id b (unfold open_with in ground (arith, e, fact.0, asleep))) v)
    ]

    -- The session that comes back: in the table, open for the topic, and not dormant.
    record Woken (r : Option SessionRow × Db) : Type 0 where
      row : SessionRow
      back : r.0 ≡ some row
      stored : Sessions.find row.id r.1.sessions ≡ some row
      in_topic : is_open_for channel topic row ≡ true
      awake : state_eq row.state dormant ≡ false

    awaken-Woken : Woken (awaken now s db)
    unfolding awaken Sessions.reopen Sessions.set_state
    awaken-Woken =
        if_ind Woken (state_eq s.state dormant)
          (λ asleep. record {
            row = in_state live now s;
            back = ground (arith, fact.0);
            stored =
                ground (
                  arith,
                  fact.0,
                  find-update s.id s.id (in_state live now) db.sessions (λ r. refl),
                );
            in_topic = ground (arith, fact.1);
            awake = refl;
          })
          (λ awake. record {
            row = s;
            back = refl;
            stored = fact.0;
            in_topic = fact.1;
            awake = awake;
          })

  -- A turn is for the mentioned bot, with no privilege, in a session that is open for the topic and
  -- not dormant.
  pub record IsTurn (agent : ResolvedAgent) (session_id : ℕ) (after : Db) : Type 0 where
    pub bot : PoolBotRow
    pub mentioned : Pool.find_by_email email db.pool ≡ some bot
    pub same_id : agent.id ≡ bot.id
    pub unprivileged : (agent.is_bastion ≡ false) × (agent.can_exec ≡ false)
    pub row : SessionRow
    pub same_session : row.id ≡ session_id
    pub stored : Sessions.find row.id after.sessions ≡ some row
    pub in_topic : is_open_for channel topic row ≡ true
    pub awake : state_eq row.state dormant ≡ false

  -- What an answer says of the database it leaves.
  abbrev pub Answers : Result (ResolveError E) (Option PoolBotResolution) × Db → Type 0
  Answers (ok (some (pool_bot_turn token agent session_id)), after) = IsTurn agent session_id after
  Answers (ok (some (pool_bot_no_session token)), after) = after ≡ db
  Answers (ok none, after) = after ≡ db
  Answers (raised e, after) = after ≡ db

  -- With bound sessions: a turn is for the mentioned bot, without privileges, in a session that is
  -- now open for the topic and not dormant; any other answer changes nothing.
  pub resolve_pool_bot-Answers :
      IsBound db → Answers (resolve_pool_bot_for_webhook box email channel topic now db)
  unfolding answer agent_from_snapshot
  resolve_pool_bot-Answers v =
      resolve_ind Answers (λ e. refl) refl (λ token. refl)
        (λ bot creds s e h.
          let woken = awaken-Woken v s h in
          rw (woken.back) (record {
            bot = bot;
            mentioned = e;
            same_id = refl;
            unprivileged = (refl, refl);
            row = woken.row;
            same_session = refl;
            stored = woken.stored;
            in_topic = woken.in_topic;
            awake = woken.awake;
          }))

  -- With bound sessions, resolving a pool bot, with the reopening it may do, keeps every open
  -- session's bot leased, and to that session.
  pub resolve_pool_bot-IsBound :
      IsBound db → IsBound (resolve_pool_bot_for_webhook box email channel topic now db).1
  resolve_pool_bot-IsBound v =
      resolve_ind (λ r. IsBound r.1) (λ e. v) v (λ token. v)
        (λ bot creds s e h. awaken-IsBound v s h)
