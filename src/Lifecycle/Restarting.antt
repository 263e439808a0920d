-- ===== src/Lifecycle/Restarting.antt =====
-- services/orphan_recovery.py on bound sessions.
use moomacha.Base.{
  ℕ, suc, ◌≡◌, refl, subst, ◌≢◌, inl, inr, Bool, true, false, none, some, [], ◌∷◌, arith, ◌==◌,
  ==_iff, Bool-cases, Option-cases, if_ind, All, All-impl, All-filter, get, update, NodupKeys,
  get-key, update-NodupKeys, get_self, sweep, get-sweep,
}
use moomacha.Rows.{PoolBotRow, closed}
use moomacha.Pool.{Bots, bot_id, is_leased, as_free, lease}
use moomacha.Sessions.{Sessions, session_id, in_state}
use moomacha.Lifecycle.{close_abandoned, is_orphan, release_orphans, recover_pool_consistency, Db}
use moomacha.Lifecycle.Bound.{holder, open_with, open_with-update, IsBound-close, IsBound}
use moomacha.Pool
use moomacha.Sessions

get-release_for_session :
    (j k : ℕ) (clock : ℕ → ℕ) (pool : Bots)
    → get bot_id k pool ≡ none
    → get bot_id k (Pool.release_for_session j clock pool) ≡ none
unfolding Pool.release_for_session get
get-release_for_session j k clock [] h = refl
get-release_for_session j k clock (r ∷ pool) h =
    ground (arith, get-release_for_session j k (λ i. clock (suc i)) pool)

release_for_session-NodupKeys :
    (j : ℕ) (clock : ℕ → ℕ) (pool : Bots)
    → NodupKeys bot_id pool
    → NodupKeys bot_id (Pool.release_for_session j clock pool)
unfolding Pool.release_for_session
release_for_session-NodupKeys j clock [] h = tt
release_for_session-NodupKeys j clock (r ∷ pool) h = ground (
  arith,
  get-release_for_session j r.id (λ i. clock (suc i)) pool h.0,
  release_for_session-NodupKeys j (λ i. clock (suc i)) pool h.1,
)

holder-release_for_session :
    (b j k : ℕ) (clock : ℕ → ℕ) (pool : Bots)
    → (k == j) ≡ false
    → holder b k pool ≡ true
    → holder b k (Pool.release_for_session j clock pool) ≡ true
unfolding Pool.release_for_session holder Pool.find get
holder-release_for_session b j k clock [] other h = h
holder-release_for_session b j k clock (r ∷ pool) other h =
    ground (arith, holder-release_for_session b j k (λ i. clock (suc i)) pool other)

-- One round of the first loop.
IsBound-abandon :
    (db : Db) (j now : ℕ) (clock : ℕ → ℕ)
    → IsBound db
    → IsBound (record {
      pool = Pool.release_for_session j clock db.pool;
      sessions = update session_id j (in_state closed now) db.sessions;
    })
IsBound-abandon db j now clock v = record {
  bound = λ k b h. elim (Bool-cases (k == j)) [
    | inl same ↦ elim (Option-cases (Sessions.find j db.sessions)) [
      | inl gone ↦
          absurd
            (ground (arith, open_with-update k b j (in_state closed now) db.sessions (λ s. refl)))
      | inr (s, found) ↦
          absurd
            (ground (arith, open_with-update k b j (in_state closed now) db.sessions (λ s. refl)))
    ]
    | inr other ↦
        holder-release_for_session b j k clock db.pool other
          ((IsBound-close db j now v).bound k b h)
  ];
  pool_keys = release_for_session-NodupKeys j clock db.pool v.pool_keys;
  session_keys = (IsBound-close db j now v).session_keys;
}

IsBound-close_abandoned :
    (clock : ℕ → ℕ → ℕ) (i : ℕ) (seen : Sessions) (db : Db)
    → IsBound db
    → IsBound (close_abandoned clock i seen db)
unfolding close_abandoned
IsBound-close_abandoned clock i [] db v = v
IsBound-close_abandoned clock i (s ∷ seen) db v =
    IsBound-close_abandoned clock (suc i) seen _ (IsBound-abandon db s.id (clock i 0) _ v)

sweep-NodupKeys :
    (test : PoolBotRow → Bool) (clock : ℕ → ℕ) (i : ℕ) (seen pool : Bots)
    → NodupKeys bot_id pool
    → NodupKeys bot_id (sweep bot_id test (λ i. as_free (clock i)) i seen pool)
unfolding sweep
sweep-NodupKeys test clock i [] pool h = h
sweep-NodupKeys test clock i (r ∷ seen) pool h = sweep-NodupKeys test clock (suc i) seen _ (
    if_ind (NodupKeys bot_id) (test r)
      (λ hit. update-NodupKeys bot_id (as_free (clock i)) r.id pool (λ r. refl) h) (λ miss. h))

-- The bot of an open session is no orphan.
bound-kept :
    (db : Db) (k b : ℕ) (bot : PoolBotRow)
    → IsBound db
    → open_with k b db.sessions ≡ true
    → Pool.find b db.pool ≡ some bot
    → is_orphan db.sessions bot ≡ false
unfolding holder open_with is_orphan
bound-kept db k b bot v open_now found =
    let held = v.bound k b open_now in
    let same : bot.id ≡ b = unfold Pool.find in get-key bot_id b db.pool bot found in
    elim (Option-cases bot.current_session_id) [
      | inl no_lease ↦ absurd (ground (arith, held, found, no_lease))
      | inr (sid, lease) ↦
          let is_k : sid ≡ k = (==_iff sid k).0 (ground (arith, held, found, lease)) in
          elim (Option-cases (Sessions.find k db.sessions)) [
            | inl gone ↦ absurd (ground (arith, open_now, gone))
            | inr (s, stored) ↦
                let stored' : Sessions.find sid db.sessions ≡ some s = rw (is_k) stored in
                elim (Option-cases s.pool_bot_id) [
                  | inl no_bot ↦ absurd (ground (arith, open_now, stored, no_bot))
                  | inr (c, has) ↦ ground (arith, open_now, stored, stored', has, lease, same)
                ]
          ]
    ]

-- A bot of an open session is not freed.
spared :
    (db : Db) (k b : ℕ)
    → IsBound db
    → open_with k b db.sessions ≡ true
    → All (λ r. is_orphan db.sessions r ≡ true → bot_id r ≢ b) (Pool.find_leased db.pool)
unfolding Pool.find_leased
spared db k b v open_now =
    All-filter (λ r. is_orphan db.sessions r ≡ true → bot_id r ≢ b) is_leased db.pool
      (All-impl (λ r. get bot_id (bot_id r) db.pool ≡ some r)
        (λ r. is_orphan db.sessions r ≡ true → bot_id r ≢ b) db.pool
        (λ r stored orphan same.
          let kept =
            bound-kept db k b r v open_now
              (unfold Pool.find in subst (λ x. get bot_id x db.pool ≡ some r) same stored) in
          absurd (cc (orphan, kept)))
        (get_self bot_id db.pool v.pool_keys))

holder_of_same :
    (b k : ℕ) (pool pool' : Bots)
    → get bot_id b pool' ≡ get bot_id b pool
    → holder b k pool ≡ true
    → holder b k pool' ≡ true
unfolding holder Pool.find
holder_of_same b k pool pool' same h = ground (arith, same, h)

IsBound-release_orphans :
    (clock : ℕ → ℕ) (db : Db) → IsBound db → IsBound (release_orphans clock db)
unfolding release_orphans
IsBound-release_orphans clock db v = record {
  bound = λ k b h.
      holder_of_same b k db.pool _
        (get-sweep bot_id (is_orphan db.sessions) (λ i. as_free (clock i)) 0 b
          (Pool.find_leased db.pool) db.pool (λ i r. refl) (spared db k b v h))
        (v.bound k b h);
  pool_keys = sweep-NodupKeys (is_orphan db.sessions) clock 0 _ db.pool v.pool_keys;
  session_keys = v.session_keys;
}

-- Recovery keeps every open session's bot leased, and to that session.
pub IsBound-recover :
    (clock : ℕ → ℕ → ℕ) (clock' : ℕ → ℕ) (db : Db)
    → IsBound db
    → IsBound (recover_pool_consistency clock clock' db)
unfolding recover_pool_consistency
IsBound-recover clock clock' db v =
    IsBound-release_orphans clock' _ (IsBound-close_abandoned clock 0 _ db v)
