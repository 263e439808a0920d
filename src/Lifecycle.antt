-- ===== src/Lifecycle.antt =====
-- The pool and the sessions together: services/session_lifecycle.py, services/session_reaper.py and
-- services/orphan_recovery.py of control-plane/src/control_plane.
-- `clock i` is what the i-th `_now()` of a call reads. Failures of the database are not modelled.
pub mod Bound
pub mod Reclaim
pub mod Reaping
pub mod Recovery
pub mod Restarting
use moomacha.Base.{
  ℕ, suc, Bool, true, false, not, ◌||◌, Option, none, some, [], ◌∷◌, ◌==◌, update, sweep,
}
use moomacha.Rows.{state_eq, PoolBotRow, provisioning, dormant, closed}
use moomacha.Pool.{Bots, bot_id, as_free}
use moomacha.Sessions.{Sessions, session_id, in_state}
use moomacha.Pool
use moomacha.Sessions

pub record Db : Type 0 where
  pub pool : Bots
  pub sessions : Sessions

-- Closes the oldest dormant session and frees its bot.
unfoldable pub reclaim_for_capacity : (ℕ → ℕ) → Db → Option PoolBotRow × Db
reclaim_for_capacity clock db = elim (Sessions.oldest_dormant db.sessions) [
  | none ↦ (none, db)
  | some victim ↦
      let sessions = (Sessions.close victim.id (clock 0) db.sessions).1 in
      elim victim.pool_bot_id [
        | none ↦ (none, record { pool = db.pool; sessions = sessions })
        | some bot ↦
            let pool = Pool.release bot (clock 1) db.pool in
            (Pool.find bot pool, record { pool = pool; sessions = sessions })
      ]
]

-- `SessionReaperLoop.tick`: the idle sessions are read first, and then marked one by one.
unfoldable pub reaper_tick : ℕ → ℕ → (ℕ → ℕ) → Sessions → Sessions
reaper_tick now idle_seconds clock sessions =
    sweep session_id (λ _. true) (λ i. in_state dormant (clock i)) 0
      (Sessions.find_idle now idle_seconds sessions) sessions

-- The first loop of `recover_pool_consistency`: `release_for_session` and `close`, each reading
-- the time anew.
pub close_abandoned : (ℕ → ℕ → ℕ) → ℕ → Sessions → Db → Db
close_abandoned clock i [] db = db
close_abandoned clock i (s ∷ rest) db = close_abandoned clock (suc i) rest (record {
  pool = Pool.release_for_session s.id (λ j. clock i (suc j)) db.pool;
  sessions = update session_id s.id (in_state closed (clock i 0)) db.sessions;
})

-- The condition under which a lease counts as orphaned.
pub is_orphan : Sessions → PoolBotRow → Bool
is_orphan sessions bot = elim bot.current_session_id [
  | none ↦ true
  | some sid ↦ elim (Sessions.find sid sessions) [
    | none ↦ true
    | some s ↦
        state_eq s.state closed || not (elim s.pool_bot_id [ none ↦ false | some b ↦ b == bot.id ])
  ]
]

-- The second loop of `recover_pool_consistency`.
pub release_orphans : (ℕ → ℕ) → Db → Db
release_orphans clock db = record db {
  pool =
      sweep bot_id (is_orphan db.sessions) (λ i. as_free (clock i)) 0 (Pool.find_leased db.pool)
        db.pool;
}

pub recover_pool_consistency : (ℕ → ℕ → ℕ) → (ℕ → ℕ) → Db → Db
recover_pool_consistency clock clock' db =
    release_orphans clock'
      (close_abandoned clock 0 (Sessions.list_by_state provisioning db.sessions) db)
