-- ===== src/Lifecycle/Recovery.antt =====
-- Startup reconciliation (services/orphan_recovery.py), and the databases that it leaves alone.
use moomacha.Base.{
  ℕ, suc, ◌≡◌, refl, ap, ◌∙◌, ◌≢◌, ◌⊎◌, inl, inr, Bool, true, false, some, [], ◌∷◌, arith, ==_iff,
  Bool-cases, Option-cases, filter, All, All-impl, All-filter_of_impl, In, filter-In, filter-none,
  sweep, All-sweep, sweep_idle,
}
use moomacha.Rows.{state_eq, leased, PoolBotRow, provisioning, closed, SessionRow}
use moomacha.Pool.{bot_id, is_leased, as_free, lease}
use moomacha.Sessions.{Sessions, session_id, in_state}
use moomacha.Lifecycle.{close_abandoned, is_orphan, release_orphans, recover_pool_consistency, Db}
use moomacha.Pool
use moomacha.Sessions

abbrev pub is_abandoned : SessionRow → Bool
is_abandoned s = state_eq s.state provisioning

-- No session is abandoned, and every lease belongs to an open session that points back.
record IsClean (db : Db) : Type 0 where
  pub no_abandoned : All (λ s. is_abandoned s ≡ false) db.sessions
  pub no_orphan : All (λ b. is_leased b ≡ true → is_orphan db.sessions b ≡ false) db.pool

close_abandoned-sessions :
    (clock : ℕ → ℕ → ℕ) (i : ℕ) (seen : Sessions) (db : Db)
    → (close_abandoned clock i seen db).sessions
      ≡ sweep session_id (λ _. true) (λ j. in_state closed (clock j 0)) i seen db.sessions
unfolding close_abandoned sweep
close_abandoned-sessions clock i [] db = refl
close_abandoned-sessions clock i (s ∷ rest) db = close_abandoned-sessions clock (suc i) rest _

close_abandoned-no_abandoned :
    (clock : ℕ → ℕ → ℕ) (db : Db)
    → All
        (λ s. is_abandoned s ≡ false)
        (close_abandoned clock 0 (Sessions.list_by_state provisioning db.sessions) db).sessions
unfolding Sessions.list_by_state
close_abandoned-no_abandoned clock db =
    rw (close_abandoned-sessions clock 0 (filter is_abandoned db.sessions) db) (
      All-sweep session_id (λ s. is_abandoned s ≡ false) (λ _. true)
        (λ j. in_state closed (clock j 0)) 0 (filter is_abandoned db.sessions) db.sessions
        (λ i r. refl) (λ r e. cc)
        (All-impl (λ s. is_abandoned s ≡ true → In s (filter is_abandoned db.sessions))
          (λ s. (is_abandoned s ≡ false) ⊎ In s (filter is_abandoned db.sessions)) db.sessions
          (λ s h. elim (Bool-cases (is_abandoned s)) [ inl e ↦ inr (h e) | inr e ↦ inl e ])
          (filter-In is_abandoned db.sessions)))

release_orphans-no_orphan :
    (clock : ℕ → ℕ) (db : Db)
    → All
        (λ b. is_leased b ≡ true → is_orphan db.sessions b ≡ false)
        (release_orphans clock db).pool
unfolding release_orphans Pool.find_leased
release_orphans-no_orphan clock db =
    All-sweep bot_id (λ b. is_leased b ≡ true → is_orphan db.sessions b ≡ false)
      (is_orphan db.sessions) (λ i. as_free (clock i)) 0 (filter is_leased db.pool) db.pool
      (λ i r e. cc) (λ r e _. e)
      (All-impl (λ b. is_leased b ≡ true → In b (filter is_leased db.pool))
        (λ b.
          (is_leased b ≡ true → is_orphan db.sessions b ≡ false) ⊎ In b (filter is_leased db.pool))
        db.pool
        (λ b h. elim (Bool-cases (is_leased b)) [ inl e ↦ inr (h e) | inr e ↦ inl (λ e'. cc) ])
        (filter-In is_leased db.pool))

recover-IsClean :
    (clock : ℕ → ℕ → ℕ) (clock' : ℕ → ℕ) (db : Db)
    → IsClean (recover_pool_consistency clock clock' db)
unfolding recover_pool_consistency release_orphans
recover-IsClean clock clock' db = record {
  no_abandoned = close_abandoned-no_abandoned clock db;
  no_orphan = release_orphans-no_orphan clock' (close_abandoned clock 0 _ db);
}

-- The session that a bot's lease names is there, is not closed, and has this bot.
pub IsServing : Sessions → PoolBotRow → Type 0
IsServing sessions b =
    (sid : ℕ) × (s : SessionRow) × (b.current_session_id ≡ some sid)
    × (Sessions.find sid sessions ≡ some s)
    × (s.state ≢ closed)
    × (s.pool_bot_id ≡ some b.id)

is_orphan-IsServing :
    (sessions : Sessions) (b : PoolBotRow) → is_orphan sessions b ≡ false → IsServing sessions b
unfolding is_orphan IsServing
is_orphan-IsServing sessions b h = elim (Option-cases b.current_session_id) [
  | inl no_lease ↦ absurd (ground (arith, no_lease, h))
  | inr (sid, lease) ↦ elim (Option-cases (Sessions.find sid sessions)) [
    | inl gone ↦ absurd (ground (arith, lease, gone, h))
    | inr (s, found) ↦ elim (Option-cases s.pool_bot_id) [
      | inl no_bot ↦ absurd (ground (arith, lease, found, no_bot, h))
      | inr (bot, has) ↦ (
        sid,
        s,
        lease,
        found,
        λ shut. absurd (ground (arith, lease, found, shut, h)),
        has ∙ ap some ((==_iff bot b.id).0 (ground (arith, lease, found, has, h))),
      )
    ]
  ]
]

-- From any database, recovery leaves no provisioning session, and every leased bot names a session
-- that is there, is not closed and has this bot.
pub recover-IsServing :
    (clock : ℕ → ℕ → ℕ) (clock' : ℕ → ℕ) (db : Db)
    → All (λ s. s.state ≢ provisioning) (recover_pool_consistency clock clock' db).sessions
      × All
          (λ b. b.status ≡ leased → IsServing (recover_pool_consistency clock clock' db).sessions b)
          (recover_pool_consistency clock clock' db).pool
recover-IsServing clock clock' db =
    let after = recover_pool_consistency clock clock' db in
    let clean = recover-IsClean clock clock' db in
    (
      All-impl (λ s. is_abandoned s ≡ false) (λ s. s.state ≢ provisioning) after.sessions
          (λ s h e. absurd (ground (arith, h, e))) clean.no_abandoned,
      All-impl (λ b. is_leased b ≡ true → is_orphan after.sessions b ≡ false)
          (λ b. b.status ≡ leased → IsServing after.sessions b) after.pool
          (λ b h e. is_orphan-IsServing after.sessions b (h (ground (arith, e)))) clean.no_orphan,
    )

-- Recovery changes nothing in a database that is already clean.
recover_of_IsClean :
    (clock : ℕ → ℕ → ℕ) (clock' : ℕ → ℕ) (db : Db)
    → IsClean db
    → recover_pool_consistency clock clock' db ≡ db
unfolding recover_pool_consistency release_orphans close_abandoned Sessions.list_by_state
    Pool.find_leased
recover_of_IsClean clock clock' db clean =
    rw (filter-none is_abandoned db.sessions clean.no_abandoned) (
      ap (λ p. record db { pool = p })
        (sweep_idle bot_id (is_orphan db.sessions) (λ i. as_free (clock' i)) 0
          (filter is_leased db.pool) db.pool
          (All-filter_of_impl (λ b. is_orphan db.sessions b ≡ false) is_leased db.pool
            clean.no_orphan)))

-- A second recovery, at any later times, changes nothing.
pub recover-recover :
    (clock : ℕ → ℕ → ℕ) (clock' : ℕ → ℕ) (later : ℕ → ℕ → ℕ) (later' : ℕ → ℕ) (db : Db)
    → recover_pool_consistency later later' (recover_pool_consistency clock clock' db)
      ≡ recover_pool_consistency clock clock' db
recover-recover clock clock' later later' db =
    recover_of_IsClean later later' _ (recover-IsClean clock clock' db)
