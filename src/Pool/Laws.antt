-- ===== src/Pool/Laws.antt =====
-- What leasing and releasing do to the pool, for the modules that use it shut.
use mathlib.Core.Option
use moomacha.Base.{
  ℕ, ◌≤◌, String, ◌≡◌, refl, true, none, some, arith, ◌==◌, if◌then◌else◌, filter, All, All-filter,
  All-filter_test, All_of_filter, get, NodupKeys, get-update, get_self, first_by-le, All-first_by,
}
use moomacha.Rows.{free, PoolBotRow}
use moomacha.Pool.{Bots, bot_id, is_free, as_leased, as_free, next_free, lease, release, find}

pub find-release :
    (j k now : ℕ) (bots : Bots)
    → find j (release k now bots)
      ≡ (if j == k then Option.map (as_free now) (find j bots) else find j bots)
unfolding find release
find-release j k now bots = get-update bot_id (as_free now) j k bots (λ r. refl)

-- The chosen bot is free, is in the table, and no free bot has been idle for longer.
pub record IsNextFree (bots : Bots) (row : PoolBotRow) : Type 0 where
  pub stored : find row.id bots ≡ some row
  pub available : row.status ≡ free
  pub oldest : All (λ r. is_free r ≡ true → row.last_active_at ≤ r.last_active_at) bots

-- In a pool where each id has one row, the bot that a lease takes is in the table, free, and idle
-- for longest among the free ones.
pub next_free-IsNextFree :
    (bots : Bots) (row : PoolBotRow)
    → NodupKeys bot_id bots
    → next_free bots ≡ some row
    → IsNextFree bots row
unfolding next_free find
next_free-IsNextFree bots row unique e = record {
  stored =
      All-first_by (λ r. r.last_active_at) (λ r. get bot_id r.id bots ≡ some r)
        (filter is_free bots) row
        (All-filter (λ r. get bot_id r.id bots ≡ some r) is_free bots (get_self bot_id bots unique))
        e;
  available =
      let test =
        All-first_by (λ r. r.last_active_at) (λ r. is_free r ≡ true) (filter is_free bots) row
          (All-filter_test is_free bots) e in
      ground arith;
  oldest =
      All_of_filter (λ r. row.last_active_at ≤ r.last_active_at) is_free bots
        (first_by-le (λ r. r.last_active_at) (filter is_free bots) row e);
}

pub find-lease :
    (j sid now : ℕ) (name : String) (bots : Bots) (row : PoolBotRow)
    → next_free bots ≡ some row
    → find j (lease sid name now bots).1
      ≡ (if j == row.id then Option.map (as_leased sid name now) (find j bots) else find j bots)
unfolding find lease
find-lease j sid now name bots row e =
    rw (e, lease) (get-update bot_id (as_leased sid name now) j row.id bots (λ r. refl))

pub lease_row :
    (sid now : ℕ) (name : String) (bots : Bots) (row : PoolBotRow)
    → next_free bots ≡ some row
    → (lease sid name now bots).0 ≡ some (as_leased sid name now row)
unfolding lease
lease_row sid now name bots row e = rw (e, lease)

-- No lease without a free bot.
pub lease-none :
    (sid now : ℕ) (name : String) (bots : Bots)
    → next_free bots ≡ none
    → lease sid name now bots ≡ (none, bots)
unfolding lease
lease-none sid now name bots e = rw (e, lease)
