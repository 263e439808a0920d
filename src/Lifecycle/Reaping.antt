-- ===== src/Lifecycle/Reaping.antt =====
-- services/session_reaper.py: a tick on bound sessions.
use moomacha.Base.{
  ℕ, suc, ◌≡◌, refl, Bool, true, none, some, [], ◌∷◌, arith, filter, All, All-impl, All-filter,
  All-filter_test, All-and, get, update, NodupKeys, get-update, get_self, sweep,
}
use moomacha.Rows.{state_eq, live, dormant, SessionRow}
use moomacha.Sessions.{Sessions, session_id, in_state, is_idle}
use moomacha.Lifecycle.{reaper_tick, Db}
use moomacha.Lifecycle.Bound.{is_open, open_with, IsBound-update, IsBound}
use moomacha.Sessions

-- The session of this id, if there is one, is not closed.
abbrev still_open : ℕ → Sessions → Bool
still_open k sessions = elim (get session_id k sessions) [ none ↦ true | some s ↦ is_open s ]

still_open-dormant :
    (k j now : ℕ) (sessions : Sessions)
    → still_open k sessions ≡ true
    → still_open k (update session_id j (in_state dormant now) sessions) ≡ true
still_open-dormant k j now sessions h =
    ground (arith, get-update session_id (in_state dormant now) k j sessions (λ r. refl))

IsBound-dormant :
    (db : Db) (j now : ℕ)
    → still_open j db.sessions ≡ true
    → IsBound db
    → IsBound (record db { sessions = update session_id j (in_state dormant now) db.sessions })
unfolding Sessions.find
IsBound-dormant db j now open_now v =
    IsBound-update db j (in_state dormant now) (λ s. refl)
      (λ b s found h. v.bound j b (unfold open_with in ground (arith, found, open_now, h))) v

-- The sessions of the list become dormant one by one.
IsBound-sweep :
    (clock : ℕ → ℕ) (i : ℕ) (seen : Sessions) (db : Db)
    → All (λ s. still_open s.id db.sessions ≡ true) seen
    → IsBound db
    → IsBound (record db {
      sessions = sweep session_id (λ _. true) (λ i. in_state dormant (clock i)) i seen db.sessions;
    })
unfolding sweep
IsBound-sweep clock i [] db opens v = v
IsBound-sweep clock i (s ∷ seen) db opens v =
    let marked = update session_id s.id (in_state dormant (clock i)) db.sessions in
    IsBound-sweep clock (suc i) seen (record db { sessions = marked })
      (All-impl (λ r. still_open r.id db.sessions ≡ true) (λ r. still_open r.id marked ≡ true) seen
        (λ r h. still_open-dormant r.id s.id (clock i) db.sessions h) opens.1)
      (IsBound-dormant db s.id (clock i) opens.0 v)

live_open :
    (sessions : Sessions)
    → NodupKeys session_id sessions
    → All (λ s. still_open s.id sessions ≡ true) (filter (λ s. state_eq s.state live) sessions)
live_open sessions nodup =
    let is_live : SessionRow → Bool = λ s. state_eq s.state live in
    All-impl (λ s. (get session_id s.id sessions ≡ some s) × (is_live s ≡ true))
      (λ s. still_open s.id sessions ≡ true) (filter is_live sessions)
      (λ s h. let (stored, alive) = h in ground (arith, stored, alive))
      (All-and (λ s. get session_id s.id sessions ≡ some s) (λ s. is_live s ≡ true)
        (filter is_live sessions)
        (All-filter _ is_live sessions (get_self session_id sessions nodup))
        (All-filter_test is_live sessions))

-- A tick of the reaper keeps every open session's bot leased, and to that session.
pub IsBound-reaper_tick :
    (now idle_seconds : ℕ) (clock : ℕ → ℕ) (db : Db)
    → IsBound db
    → IsBound (record db { sessions = reaper_tick now idle_seconds clock db.sessions })
unfolding reaper_tick Sessions.find_idle
IsBound-reaper_tick now idle_seconds clock db v =
    IsBound-sweep clock 0 (Sessions.find_idle now idle_seconds db.sessions) db
      (All-filter _ (is_idle now idle_seconds) _ (live_open db.sessions v.session_keys)) v
