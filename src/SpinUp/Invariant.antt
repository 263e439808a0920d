-- ===== src/SpinUp/Invariant.antt =====
-- The acquisition of a bot by `spin_up_session`, and the binding of sessions to bots.
use moomacha.Base.{
  ℕ, suc, String, ◌≡◌, ◌∙◌, inl, inr, true, false, Option, some, arith, Option-cases, All,
}
use moomacha.Rows.{state_eq, PoolBotRow, dormant, closed, SessionRow}
use moomacha.Pool.{next_free}
use moomacha.Pool.Laws.{lease_row, lease-none}
use moomacha.Sessions.{Sessions, in_state}
use moomacha.Lifecycle.{reclaim_for_capacity, Db}
use moomacha.Lifecycle.Bound.{holder, holder-lease, IsBound-lease, IsBound}
use moomacha.Lifecycle.Reclaim.{IsBound-reclaim, All-reclaim, find-reclaim}
use moomacha.SpinUp.{acquire_bot}
use moomacha.Pool
use moomacha.Sessions

-- A bot that was acquired is leased to the session that asked, no session lost its own, sessions
-- were at most closed, and one that was not dormant is as it was.
pub record Acquired (sid : ℕ) (db : Db) (bot : Option PoolBotRow) (after : Db) : Type 1 where
  pub held : (row : PoolBotRow) → bot ≡ some row → holder row.id sid after.pool ≡ true
  pub still_bound : IsBound after
  pub only_closed :
      (P : SessionRow → Type 0)
      → ((s : SessionRow) (now : ℕ) → P s → P (in_state closed now s))
      → All P db.sessions
      → All P after.sessions
  pub kept :
      (k : ℕ) (s : SessionRow)
      → Sessions.find k db.sessions ≡ some s
      → state_eq s.state dormant ≡ false
      → Sessions.find k after.sessions ≡ some s

module _ (sid : ℕ) (name : String) where
  lease-held :
      (now : ℕ) (db : Db) (row : PoolBotRow)
      → IsBound db
      → (Pool.lease sid name now db.pool).0 ≡ some row
      → holder row.id sid (Pool.lease sid name now db.pool).1 ≡ true
  lease-held now db row v h = elim (Option-cases (next_free db.pool)) [
    | inl e ↦ absurd (ground (arith, lease-none sid now name db.pool e))
    | inr (chosen, e) ↦
        let same : row.id ≡ chosen.id = ground (arith, lease_row sid now name db.pool chosen e) in
        rw (holder-lease row.id sid sid now name db.pool chosen v.pool_keys e) (ground arith)
  ]

  lease-IsBound :
      (now : ℕ) (db : Db)
      → IsBound db
      → IsBound (record db { pool = (Pool.lease sid name now db.pool).1 })
  lease-IsBound now db v = elim (Option-cases (next_free db.pool)) [
    | inl e ↦ rw (lease-none sid now name db.pool e) v
    | inr (chosen, e) ↦ IsBound-lease db sid now name chosen e v
  ]

  -- `acquire_bot`, on every path.
  pub acquire_bot-Acquired :
      (clock : ℕ → ℕ) (db : Db)
      → IsBound db
      → Acquired sid db (acquire_bot sid name clock db).0 (acquire_bot sid name clock db).1
  unfolding acquire_bot
  acquire_bot-Acquired clock db v = elim (Option-cases (Pool.lease sid name (clock 0) db.pool).0) [
    | inr (row, e) ↦
        rw (e, acquire_bot)
          (record {
            held = λ r h. lease-held (clock 0) db r v (e ∙ h);
            still_bound = lease-IsBound (clock 0) db v;
            only_closed = λ P stable h. h;
            kept = λ k s h _. h;
          })
    | inl e ↦ elim (Option-cases (reclaim_for_capacity (λ i. clock (suc i)) db).0) [
      | inl none_freed ↦
          rw (e, none_freed, acquire_bot)
            (record {
              held = λ r h. cc;
              still_bound = IsBound-reclaim (λ i. clock (suc i)) db v;
              only_closed = All-reclaim (λ i. clock (suc i)) db v;
              kept = find-reclaim (λ i. clock (suc i)) db v;
            })
      | inr (freed, f) ↦
          let w = IsBound-reclaim (λ i. clock (suc i)) db v in
          rw (e, f, acquire_bot)
            (record {
              held = λ r h.
                  lease-held (clock 3) (reclaim_for_capacity (λ i. clock (suc i)) db).1 r w h;
              still_bound =
                  lease-IsBound (clock 3) (reclaim_for_capacity (λ i. clock (suc i)) db).1 w;
              only_closed = All-reclaim (λ i. clock (suc i)) db v;
              kept = find-reclaim (λ i. clock (suc i)) db v;
            })
    ]
  ]
