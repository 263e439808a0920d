-- ===== src/Lifecycle/Reclaim.antt =====
-- `reclaim_for_capacity` and the binding of sessions to bots.
use moomacha.Base.{
  ℕ, ◌≡◌, refl, ap, ◌∙◌, inl, inr, true, false, some, arith, ◌==◌, Option-cases, All, All-update,
}
use moomacha.Rows.{state_eq, dormant, closed, SessionRow}
use moomacha.Sessions.{Sessions, session_id, in_state}
use moomacha.Sessions.Laws.{oldest_dormant_lem, find-update}
use moomacha.Lifecycle.{reclaim_for_capacity, Db}
use moomacha.Lifecycle.Bound.{holder, open_with, IsBound-close, IsBound-release, IsBound}
use moomacha.Sessions

module _ (clock : ℕ → ℕ) (db : Db) (v : IsBound db) where
  victim_holds :
      (victim : SessionRow) (b : ℕ)
      → Sessions.oldest_dormant db.sessions ≡ some victim
      → victim.pool_bot_id ≡ some b
      → holder b victim.id db.pool ≡ true
  unfolding open_with
  victim_holds victim b e has =
      let fact = oldest_dormant_lem db.sessions victim v.session_keys e in
      v.bound victim.id b (ground (arith, fact.stored, fact.asleep))

  -- With bound sessions, reclaim_for_capacity keeps every open session's bot leased, and to that
  -- session.
  pub IsBound-reclaim : IsBound (reclaim_for_capacity clock db).1
  unfolding reclaim_for_capacity Sessions.close Sessions.set_state
  IsBound-reclaim = elim (Option-cases (Sessions.oldest_dormant db.sessions)) [
    | inl e ↦ rw (e, reclaim_for_capacity) v
    | inr (victim, e) ↦ elim (Option-cases victim.pool_bot_id) [
      | inl no_bot ↦
          rw (e, reclaim_for_capacity) (rw (no_bot) (IsBound-close db victim.id (clock 0) v))
      | inr (b, has) ↦
          rw (e, reclaim_for_capacity)
            (rw (has)
              (IsBound-release db victim.id b (clock 1) (clock 0) (victim_holds victim b e has) v))
    ]
  ]

  -- Every fact about rows that closing keeps is kept.
  pub All-reclaim :
      (P : SessionRow → Type 0)
      → ((s : SessionRow) (now : ℕ) → P s → P (in_state closed now s))
      → All P db.sessions
      → All P (reclaim_for_capacity clock db).1.sessions
  unfolding reclaim_for_capacity Sessions.close Sessions.set_state
  All-reclaim P stable h = elim (Option-cases (Sessions.oldest_dormant db.sessions)) [
    | inl e ↦ rw (e, reclaim_for_capacity) h
    | inr (victim, e) ↦
        let closing =
          All-update session_id P P (in_state closed (clock 0)) victim.id db.sessions
            (λ s p _. stable s (clock 0) p) (λ s p _. p) h in
        elim (Option-cases victim.pool_bot_id) [
          | inl no_bot ↦ rw (e, reclaim_for_capacity) (rw no_bot closing)
          | inr (b, has) ↦ rw (e, reclaim_for_capacity) (rw has closing)
        ]
  ]

  -- A session that is not dormant is left as it was.
  pub find-reclaim :
      (k : ℕ) (s : SessionRow)
      → Sessions.find k db.sessions ≡ some s
      → state_eq s.state dormant ≡ false
      → Sessions.find k (reclaim_for_capacity clock db).1.sessions ≡ some s
  unfolding reclaim_for_capacity Sessions.close Sessions.set_state
  find-reclaim k s found awake = elim (Option-cases (Sessions.oldest_dormant db.sessions)) [
    | inl e ↦ rw (e, reclaim_for_capacity) found
    | inr (victim, e) ↦
        let fact = oldest_dormant_lem db.sessions victim v.session_keys e in
        let other : (k == victim.id) ≡ false = ground (
          arith,
          fact.stored,
          fact.asleep,
          ap (λ x. Sessions.find x db.sessions) {x = k} {y = victim.id},
        ) in
        let kept =
          find-update k victim.id (in_state closed (clock 0)) db.sessions (λ r. refl)
          ∙ rw other found in
        elim (Option-cases victim.pool_bot_id) [
          | inl no_bot ↦ rw (e, reclaim_for_capacity) (rw no_bot kept)
          | inr (b, has) ↦ rw (e, reclaim_for_capacity) (rw has kept)
        ]
  ]
