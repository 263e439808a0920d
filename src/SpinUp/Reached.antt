-- ===== src/SpinUp/Reached.antt =====
-- The databases that the services reach from a fresh pool, one call after another.
use moomacha.Base.{
  ℕ, String, ◌≡◌, refl, ap, ◌∙◌, ◌≢◌, inl, inr, true, Option, none, some, [], arith, ==_iff,
  ==_refl, Bool-cases, Option-cases, get, NodupKeys,
}
use moomacha.Rows.{
  status_eq, state_eq, BotStatus, free, leased, PoolBotRow, SessionState, provisioning, live,
  dormant, closed, SessionRow,
}
use moomacha.Pool.{Bots, bot_id, lease, SecretBox}
use moomacha.Sessions.{Sessions}
use moomacha.Archetypes.{Catalog}
use moomacha.Lifecycle.{reaper_tick, recover_pool_consistency, Db}
use moomacha.Lifecycle.Bound.{holder, open_with, IsBound-exclusive, IsBound}
use moomacha.Lifecycle.Reaping.{IsBound-reaper_tick}
use moomacha.Lifecycle.Restarting.{IsBound-recover}
use moomacha.SpinUp.{spin_up_session, close_session, Context, SpinUpArgs}
use moomacha.SpinUp.Tools.{spin_up-IsBound}
use moomacha.SpinUp.Closing.{close_session-IsBound}
use moomacha.Resolver.{resolve_pool_bot_for_webhook}
use moomacha.Resolver.Laws.{resolve_pool_bot-IsBound}
use moomacha.Pool
use moomacha.Sessions

-- A step: a tool of the bastion, a message to a pool bot, a tick of the reaper, or a start of the
-- service with its recovery. A new session has an id that is not in use.
pub data Step (E : Type 0) : Db → Db → Type 0 where
  spins_up :
      (ctx : Context E) (catalog : Catalog) (args : SpinUpArgs) (sid created : ℕ) (clock : ℕ → ℕ)
      (db : Db)
      → Sessions.find sid db.sessions ≡ none
      → Step E db (spin_up_session ctx catalog args sid created clock db).1
  closes :
      (ctx : Context E) (room thread : Option String) (clock : ℕ → ℕ) (db : Db)
      → Step E db (close_session ctx room thread clock db).1
  resolves :
      (box : SecretBox E) (email room thread : String) (now : ℕ) (db : Db)
      → Step E db (resolve_pool_bot_for_webhook box email room thread now db).1
  reaps :
      (now idle_seconds : ℕ) (clock : ℕ → ℕ) (db : Db)
      → Step E db (record db { sessions = reaper_tick now idle_seconds clock db.sessions })
  restarts :
      (clock : ℕ → ℕ → ℕ) (clock' : ℕ → ℕ) (db : Db)
      → Step E db (recover_pool_consistency clock clock' db)

-- Reached from a pool with each bot once, before any session.
pub data Reached (E : Type 0) : Db → Type 0 where
  fresh : (bots : Bots) → NodupKeys bot_id bots → Reached E (record { pool = bots; sessions = [] })
  next : {db db' : Db} → Reached E db → Step E db db' → Reached E db'

closed_of_eq : (x : SessionState) → state_eq x closed ≡ true → x ≡ closed
closed_of_eq provisioning e = absurd (cc e)
closed_of_eq live e = absurd (cc e)
closed_of_eq dormant e = absurd (cc e)
closed_of_eq closed e = refl

leased_of_eq : (x : BotStatus) → status_eq x leased ≡ true → x ≡ leased
leased_of_eq free e = absurd (cc e)
leased_of_eq leased e = refl

opens :
    (sessions : Sessions) (k : ℕ) (s : SessionRow) (bot : ℕ)
    → Sessions.find k sessions ≡ some s
    → s.state ≢ closed
    → s.pool_bot_id ≡ some bot
    → open_with k bot sessions ≡ true
unfolding open_with
opens sessions k s bot found not_closed has = elim (Bool-cases (state_eq s.state closed)) [
  | inl shut ↦ absurd (not_closed (closed_of_eq s.state shut))
  | inr still ↦ ground (arith, found, still, has, ==_refl bot)
]

holds :
    (k b : ℕ) (pool : Bots)
    → holder b k pool ≡ true
    → (bot : PoolBotRow) × (Pool.find b pool ≡ some bot)
      × (bot.status ≡ leased)
      × (bot.current_session_id ≡ some k)
unfolding holder
holds k b pool h = elim (Option-cases (Pool.find b pool)) [
  | inl gone ↦ absurd (ground (arith, gone, h))
  | inr (bot, found) ↦ elim (Option-cases bot.current_session_id) [
    | inl nobody ↦ absurd (ground (arith, found, nobody, h))
    | inr (sid, lease) ↦ (
      bot,
      found,
      leased_of_eq bot.status (ground (arith, found, lease, h)),
      lease ∙ ap some ((==_iff sid k).0 (ground (arith, found, lease, h))),
    )
  ]
]

module _ {E : Type 0} where
  step-IsBound : {db db' : Db} → Step E db db' → IsBound db → IsBound db'
  step-IsBound (spins_up ctx catalog args sid created clock db unused) v =
      spin_up-IsBound ctx catalog args sid created clock db v unused
  step-IsBound (closes ctx room thread clock db) v =
      close_session-IsBound ctx room thread clock db v
  step-IsBound (resolves box email room thread now db) v =
      resolve_pool_bot-IsBound box email room thread now db v
  step-IsBound (reaps now idle_seconds clock db) v = IsBound-reaper_tick now idle_seconds clock db v
  step-IsBound (restarts clock clock' db) v = IsBound-recover clock clock' db v

  reached-IsBound : {db : Db} → Reached E db → IsBound db
  unfolding get
  reached-IsBound (fresh bots once) = record {
    bound = λ k b h. unfold open_with Sessions.find in absurd (cc h);
    pool_keys = once;
    session_keys = tt;
  }
  reached-IsBound (next before step) = step-IsBound step (reached-IsBound before)

  -- After any spin-ups with unused ids, closings, messages to pool bots, ticks of the reaper and
  -- restarts, one after another from a fresh pool with each bot once: two sessions that are not
  -- closed and have the same bot are one session, and the bot is leased to it.
  pub reached-exclusive :
      {db : Db} (j k b : ℕ) (s t : SessionRow)
      → Reached E db
      → Sessions.find j db.sessions ≡ some s
      → Sessions.find k db.sessions ≡ some t
      → s.state ≢ closed
      → t.state ≢ closed
      → s.pool_bot_id ≡ some b
      → t.pool_bot_id ≡ some b
      → (j ≡ k)
        × (bot : PoolBotRow) × (Pool.find b db.pool ≡ some bot)
        × (bot.status ≡ leased)
        × (bot.current_session_id ≡ some j)
  reached-exclusive {db} j k b s t reached sj tk s_open t_open sb tb =
      let v = reached-IsBound reached in
      let mine = opens db.sessions j s b sj s_open sb in
      let (bot, found, taken, lease) = holds j b db.pool (v.bound j b mine) in
      (
        IsBound-exclusive db j k b v mine (opens db.sessions k t b tk t_open tb),
        bot,
        found,
        taken,
        lease,
      )
