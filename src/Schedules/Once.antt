-- ===== src/Schedules/Once.antt =====
-- Histories of calls of the schedule store, and how often a one-shot schedule fires in them.
use moomacha.Base.{
  ℕ, ◌+◌, ◌≤◌, String, ◌≡◌, refl, ◌≢◌, inl, inr, List, [], ◌∷◌, ◌++◌, arith, Bool-cases,
  Option-cases, count, All, count-append, get, NodupKeys,
}
use moomacha.Base.Results.{Result, ok, raised}
use moomacha.Schedules.{
  Table, row_id, is_active, create_one_shot, due_rows, in_topic, cancel, create_recurring, handle,
  claim_due, cancelled, ClaimOutcome,
}
use moomacha.Schedules.Arming.{
  is_fire, armed, IsShot, update-IsShot, armed-update, sweep-IsShot, handle-Ends, fires-claim_due,
  cancel-Ends, armed-append, append-IsShot, armed-le-one,
}

-- The calls that change the table. A row is created under a uuid of its own.
pub data Call : Type 0 where
  claims : (now grace_seconds limit : ℕ) → Call
  cancels : ℕ → String → String → Call
  creates_one_shot : ℕ → ℕ → String → String → String → ℕ → Call
  creates_recurring : ℕ → ℕ → String → String → String → String → String → ℕ → Call

-- The call gives the id to no new row.
abbrev pub Spares : ℕ → Call → Type 0
Spares k (creates_one_shot uuid _ _ _ _ _) = uuid ≢ k
Spares k (creates_recurring uuid _ _ _ _ _ _ _) = uuid ≢ k
Spares k (claims _ _ _) = Unit
Spares k (cancels _ _ _) = Unit

module _ (next_cron : String → ℕ → String → Result String ℕ) where
  -- One call: the table it leaves, and the outcomes that it hands to the scheduler.
  unfoldable pub call : Call → Table → Table × List ClaimOutcome
  call (claims now grace limit) table =
      let (after, outcomes, events) = claim_due next_cron now grace limit table in (after, outcomes)
  call (cancels id channel topic) table =
      let (done, after, events) = cancel id channel topic table in (after, [])
  call (creates_one_shot uuid agent channel topic text run_at) table =
      ((create_one_shot uuid agent channel topic text run_at table).1, [])
  call (creates_recurring uuid agent channel topic text cron timezone now) table =
      elim (create_recurring next_cron uuid agent channel topic text cron timezone now table) [
        | raised e ↦ (table, [])
        | ok (row, after, event) ↦ (after, [])
      ]

  pub history : List Call → Table → Table × List ClaimOutcome
  history [] table = (table, [])
  history (c ∷ calls) table =
      let (after, outcomes) = call c table in
      let (last, more) = history calls after in (last, outcomes ++ more)

  -- A call spends what it fires, and keeps what the id stands for.
  abbrev pub Spends : ℕ → Table → Table × List ClaimOutcome → Type 0
  Spends k table (after, outcomes) =
      (count (is_fire k) outcomes + armed k after ≤ armed k table) × IsShot k after

  cancel-Spends :
      (k id : ℕ) (channel topic : String) (table : Table)
      → IsShot k table
      → Spends k table ((cancel id channel topic table).1, [])
  unfolding cancel
  cancel-Spends k id channel topic table h = elim (Option-cases (get row_id id table)) [
    | inl e ↦ rw (e, cancel) (omega arith, h)
    | inr (r, e) ↦ elim (Bool-cases (in_topic channel topic r)) [
      | inr other ↦ rw (e, cancel) (rw other (omega arith, h))
      | inl here ↦ elim (Bool-cases (is_active r)) [
        | inr idle ↦ rw (e, cancel) (rw (here, idle) (omega arith, h))
        | inl on ↦
            rw (e, cancel)
              (rw (here, on)
                (
                  ground (
                    arith,
                    armed-update (λ x. record x { status = cancelled }) cancel-Ends k id table h,
                  ),
                  update-IsShot (λ x. record x { status = cancelled }) cancel-Ends k id table h,
                ))
      ]
    ]
  ]

  pub call-Spends :
      (k : ℕ) (c : Call) (table : Table)
      → Spares k c
      → IsShot k table
      → Spends k table (call c table)
  unfolding call create_one_shot create_recurring
  call-Spends k (claims now grace limit) table s h = (
    fires-claim_due next_cron now grace k limit table h,
    unfold claim_due in
        sweep-IsShot (λ r. (handle next_cron now grace r).row) (handle-Ends next_cron now grace) k 0
          (due_rows now limit table) table h,
  )
  call-Spends k (cancels id channel topic) table s h = cancel-Spends k id channel topic table h
  call-Spends k (creates_one_shot uuid agent channel topic text run_at) table s h =
      (omega (arith, armed-append k table _ s), append-IsShot k table _ s h)
  call-Spends k (creates_recurring uuid agent channel topic text cron timezone now) table s h =
      go (next_cron cron now timezone) refl
    where
      go :
          (next : Result String ℕ)
          → next_cron cron now timezone ≡ next
          → Spends k table
              (call (creates_recurring uuid agent channel topic text cron timezone now) table)
      go (raised e) found = rw (found, call) (omega arith, h)
      go (ok t) found =
          rw (found, call) (omega (arith, armed-append k table _ s), append-IsShot k table _ s h)

  fires-history :
      (k : ℕ) (calls : List Call) (table : Table)
      → All (Spares k) calls
      → IsShot k table
      → count (is_fire k) (history calls table).1 ≤ armed k table
  unfolding history
  fires-history k [] table s h = omega arith
  fires-history k (c ∷ calls) table s h =
      let (spent, still) = call-Spends k c table s.0 h in
      omega (
        arith,
        count-append (is_fire k) (call c table).1 (history calls (call c table).0).1,
        spent,
        fires-history k calls (call c table).0 s.1 still,
      )

  -- Over any list of claims, cancellations and creations under other ids, the one-shot schedules of
  -- one id fire at most once, if each id has one row at first.
  pub one_shot_fires_once :
      (k : ℕ) (calls : List Call) (table : Table)
      → NodupKeys row_id table
      → IsShot k table
      → All (Spares k) calls
      → count (is_fire k) (history calls table).1 ≤ 1
  one_shot_fires_once k calls table unique shot spares =
      omega (arith, fires-history k calls table spares shot, armed-le-one k table unique)
