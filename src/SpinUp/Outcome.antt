-- ===== src/SpinUp/Outcome.antt =====
-- What `spin_up_session` leaves behind, by its reply.
use moomacha.Base.{
  ℕ, String, ◌≡◌, refl, subst, Bool, true, false, some, arith, All, update, All-update,
}
use moomacha.Rows.{PoolBotRow, live, closed, SessionRow}
use moomacha.Sessions.{Sessions, session_id, is_open_for, in_state}
use moomacha.Sessions.Laws.{find-update, IsClear}
use moomacha.Lifecycle.{Db}
use moomacha.Lifecycle.Bound.{holder, IsBound-update, IsBound-release, IsBound}
use moomacha.SpinUp.{finish, Reply, no_capacity, rolled_back, spun_up}
use moomacha.Sessions

-- Session `sid` is live in the topic, with a bot whose lease names it.
pub record IsBorn (channel topic : String) (sid : ℕ) (db : Db) : Type 0 where
  pub row : SessionRow
  pub bot : ℕ
  pub stored : Sessions.find sid db.sessions ≡ some row
  pub awake : row.state ≡ live
  pub in_topic : (row.channel ≡ channel) × (row.topic ≡ topic)
  pub bound_to : row.pool_bot_id ≡ some bot
  pub held : holder bot sid db.pool ≡ true

-- Success means a born session; a failure after the row was made means that the topic is free
-- again; any other reply means that nothing changed.
abbrev pub Outcome : String → String → ℕ → Db → Reply × Db → Type 0
Outcome channel topic sid db (spun_up email, after) = IsBorn channel topic sid after
Outcome channel topic sid db (rolled_back, after) = IsClear channel topic after.sessions
Outcome channel topic sid db (no_capacity, after) = IsClear channel topic after.sessions
Outcome channel topic sid db (reply, after) = after ≡ db

abbrev pub OnlyOpen : String → String → ℕ → SessionRow → Type 0
OnlyOpen channel topic sid r = is_open_for channel topic r ≡ true → r.id ≡ sid

-- Closing the only open session of a topic frees the topic.
pub close-IsClear :
    (channel topic : String) (sid now : ℕ) (sessions : Sessions)
    → All (OnlyOpen channel topic sid) sessions
    → IsClear channel topic (update session_id sid (in_state closed now) sessions)
close-IsClear channel topic sid now sessions only =
    All-update session_id (OnlyOpen channel topic sid) (λ s. is_open_for channel topic s ≡ false)
      (in_state closed now) sid sessions (λ s _ _. ground arith) (λ s h other. ground arith) only

module _ (channel topic : String) (sid : ℕ) (bot : PoolBotRow) (clock : ℕ → ℕ) (db0 db : Db)
    (s : SessionRow) (v : IsBound db) (held : holder bot.id sid db.pool ≡ true)
    (stored : Sessions.find sid db.sessions ≡ some s) where
  abbrev pub bound_db : Db
  bound_db = record db { sessions = Sessions.bind_pool_bot sid bot.id db.sessions }

  bind-IsBound : IsBound bound_db
  unfolding Sessions.bind_pool_bot
  bind-IsBound =
      IsBound-update db sid (λ row. record row { pool_bot_id = some bot.id }) (λ r. refl)
        (λ b r e h. subst (λ x. holder x sid db.pool ≡ true) (ground arith) held) v

  bound_row : Sessions.find sid bound_db.sessions ≡ some (record s { pool_bot_id = some bot.id })
  unfolding Sessions.bind_pool_bot
  bound_row = ground (
    arith,
    stored,
    find-update sid sid (λ row. record row { pool_bot_id = some bot.id }) db.sessions (λ r. refl),
  )

  pub finish-IsBound : (born : Bool) → IsBound (finish born sid bot clock bound_db).1
  unfolding finish Sessions.mark_live Sessions.close Sessions.set_state
  finish-IsBound true =
      IsBound-update bound_db sid (in_state live (clock 4)) (λ r. refl)
        (λ b r e h. subst (λ x. holder x sid db.pool ≡ true) (ground (arith, bound_row)) held)
        bind-IsBound
  finish-IsBound false = IsBound-release bound_db sid bot.id (clock 4) (clock 5) held bind-IsBound

  pub finish-Outcome :
      (born : Bool)
      → (s.channel ≡ channel) × (s.topic ≡ topic)
      → All (OnlyOpen channel topic sid) db.sessions
      → Outcome channel topic sid db0 (finish born sid bot clock bound_db)
  unfolding finish Sessions.mark_live Sessions.close Sessions.set_state
  finish-Outcome true place only = record {
    row = in_state live (clock 4) (record s { pool_bot_id = some bot.id });
    bot = bot.id;
    stored = ground (
      arith,
      bound_row,
      find-update sid sid (in_state live (clock 4)) bound_db.sessions (λ r. refl),
    );
    awake = refl;
    in_topic = place;
    bound_to = refl;
    held = held;
  }
  finish-Outcome false place only = close-IsClear channel topic sid (clock 5) bound_db.sessions (
      unfold Sessions.bind_pool_bot in
      All-update session_id (OnlyOpen channel topic sid) (OnlyOpen channel topic sid)
        (λ row. record row { pool_bot_id = some bot.id }) sid db.sessions (λ r h _. h) (λ r h _. h)
        only)
