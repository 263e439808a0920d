-- ===== src/SpinUp/Tools.antt =====
-- `spin_up_session` as a whole: what it leaves behind on each branch.
use moomacha.Base.{
  ℕ, String, ◌≡◌, refl, inl, inr, Bool, true, false, Option, none, some, ◌∷◌, arith, Bool-cases,
  Option-cases, or_else, All, All-impl, get,
}
use moomacha.Base.Results.{Result, ok, raised}
use moomacha.Rows.{provisioning, Snapshot, SessionRow}
use moomacha.Sessions.{Sessions, StoreError}
use moomacha.Sessions.Laws.{IsClear, resolve_none_iff}
use moomacha.Archetypes.{Catalog}
use moomacha.Lifecycle.{Db}
use moomacha.Lifecycle.Bound.{IsBound-close, IsBound-create, IsBound}
use moomacha.SpinUp.{
  truthy, snapshot_for, acquire_bot, settle, open_topic, spin_up_session, Context, SpinUpArgs,
  Reply, not_available, missing_arguments, store_failed, session_exists, no_capacity, rolled_back,
  spun_up,
}
use moomacha.SpinUp.Invariant.{acquire_bot-Acquired, Acquired}
use moomacha.SpinUp.Outcome.{Outcome, OnlyOpen, close-IsClear, finish-IsBound, finish-Outcome}
use moomacha.Sessions

module _ {E : Type 0} (ctx : Context E) (channel topic name : String) (sid : ℕ) (clock : ℕ → ℕ)
    (db0 db : Db) (s : SessionRow) (v : IsBound db)
    (stored : Sessions.find sid db.sessions ≡ some s) (fresh_row : s.state ≡ provisioning) where
  abbrev acquired :
      Acquired sid db (acquire_bot sid name clock db).0 (acquire_bot sid name clock db).1
  acquired = acquire_bot-Acquired sid name clock db v

  abbrev after : Db
  after = (acquire_bot sid name clock db).1

  settle-IsBound : IsBound (settle ctx channel topic name sid clock db).1
  unfolding settle
  settle-IsBound = elim (Option-cases (acquire_bot sid name clock db).0) [
    | inl e ↦
        rw (e, settle)
          (unfold Sessions.close Sessions.set_state in
            IsBound-close after sid (clock 4) acquired.still_bound)
    | inr (bot, e) ↦
        rw (e, settle)
          (finish-IsBound channel topic sid bot clock db0 after s acquired.still_bound
            (acquired.held bot e) (acquired.kept sid s stored (rw fresh_row)) _)
  ]

  settle-Outcome :
      (s.channel ≡ channel) × (s.topic ≡ topic)
      → All (OnlyOpen channel topic sid) db.sessions
      → Outcome channel topic sid db0 (settle ctx channel topic name sid clock db)
  unfolding settle
  settle-Outcome place only =
      let still =
        acquired.only_closed (OnlyOpen channel topic sid) (λ r now h o. ground arith) only in
      elim (Option-cases (acquire_bot sid name clock db).0) [
        | inl e ↦
            rw (e, settle)
              (unfold Sessions.close Sessions.set_state in
                close-IsClear channel topic sid (clock 4) after.sessions still)
        | inr (bot, e) ↦
            rw (e, settle)
              (finish-Outcome channel topic sid bot clock db0 after s acquired.still_bound
                (acquired.held bot e) (acquired.kept sid s stored (rw fresh_row)) _ place still)
      ]

-- The replies that come before the first write.
abbrev is_refusal : Reply → Bool
is_refusal (spun_up email) = false
is_refusal rolled_back = false
is_refusal no_capacity = false
is_refusal _ = true

snapshot_for-refusal :
    {E : Type 0} (ctx : Context E) (catalog : Catalog) (args : SpinUpArgs) (r : Reply)
    → snapshot_for ctx catalog args ≡ raised r
    → is_refusal r ≡ true
unfolding snapshot_for
snapshot_for-refusal ctx catalog args r e = ground arith

refusal-Outcome :
    (channel topic : String) (sid : ℕ) (db : Db) (r : Reply)
    → is_refusal r ≡ true
    → Outcome channel topic sid db (r, db)
refusal-Outcome channel topic sid db (spun_up email) h = absurd (ground arith)
refusal-Outcome channel topic sid db rolled_back h = absurd (ground arith)
refusal-Outcome channel topic sid db no_capacity h = absurd (ground arith)
refusal-Outcome channel topic sid db _ h = refl

module _ {E : Type 0} (ctx : Context E) (catalog : Catalog) (args : SpinUpArgs) (sid created : ℕ)
    (clock : ℕ → ℕ) (db : Db) (v : IsBound db) (fresh : Sessions.find sid db.sessions ≡ none) where
  module _ (channel topic name : String) where
    born : Snapshot → SessionRow
    born snapshot =
        (Sessions.create ctx.show_uuid sid created channel topic snapshot none none args.archetype
          provisioning db.sessions).0

    abbrev with_row : Snapshot → Db
    with_row snapshot = record db { sessions = born snapshot ∷ db.sessions }

    opened : Snapshot → Reply × Db
    opened snapshot = settle ctx channel topic name sid clock (with_row snapshot)

    opened-IsBound : (snapshot : Snapshot) → IsBound (opened snapshot).1
    unfolding opened born Sessions.create
    opened-IsBound snapshot =
        settle-IsBound ctx channel topic name sid clock db (with_row snapshot) (born snapshot)
          (IsBound-create db (born snapshot) refl fresh v)
          (unfold Sessions.find get in ground arith) refl

    opened-Outcome :
        (snapshot : Snapshot)
        → IsClear channel topic db.sessions
        → Outcome channel topic sid db (opened snapshot)
    unfolding opened born Sessions.create
    opened-Outcome snapshot clear =
        settle-Outcome ctx channel topic name sid clock db (with_row snapshot) (born snapshot)
          (IsBound-create db (born snapshot) refl fresh v)
          (unfold Sessions.find get in ground arith) refl (refl, refl)
          (λ _. refl, All-impl _ _ db.sessions (λ r shut o. cc) clear)

  open_topic_ind {ℓ} :
      (P : Reply × Db → Type ℓ) (channel topic name : String)
      → ((r : Reply) → is_refusal r ≡ true → P (r, db))
      → ((snapshot : Snapshot)
          → IsClear channel topic db.sessions
          → P (opened channel topic name snapshot))
      → P (open_topic ctx catalog args channel topic name sid created clock db)
  unfolding open_topic opened born Sessions.create
  open_topic_ind P channel topic name refused fine =
      go (Sessions.resolve_for_topic channel topic db.sessions) (snapshot_for ctx catalog args) refl
        refl
    where
      go :
          (found : Result StoreError (Option SessionRow)) (snap : Result Reply Snapshot)
          → Sessions.resolve_for_topic channel topic db.sessions ≡ found
          → snapshot_for ctx catalog args ≡ snap
          → P (open_topic ctx catalog args channel topic name sid created clock db)
      go (raised e) snap h k = rw (h, open_topic) (refused store_failed refl)
      go (ok (some s)) snap h k = rw (h, open_topic) (refused session_exists refl)
      go (ok none) (raised r) h k =
          rw (h, k, open_topic) (refused r (snapshot_for-refusal ctx catalog args r k))
      go (ok none) (ok snapshot) h k =
          rw (h, k, open_topic) (fine snapshot ((resolve_none_iff channel topic db.sessions).0 h))

  -- Every run either is refused and changes nothing, or opens a free topic.
  spin_up_ind {ℓ} :
      (P : Reply × Db → Type ℓ)
      → ((r : Reply) → is_refusal r ≡ true → P (r, db))
      → ((channel topic name : String) (snapshot : Snapshot)
          → truthy args.channel ≡ some channel
          → truthy args.topic ≡ some topic
          → IsClear channel topic db.sessions
          → P (opened channel topic name snapshot))
      → P (spin_up_session ctx catalog args sid created clock db)
  unfolding spin_up_session
  spin_up_ind P refused fine = elim (Bool-cases ctx.stores_ready) [
    | inr off ↦ rw (off, spin_up_session) (refused not_available refl)
    | inl on ↦ elim (Option-cases (truthy args.channel)) [
      | inl e ↦ rw (on, e, spin_up_session) (refused missing_arguments refl)
      | inr (channel, ec) ↦ elim (Option-cases (truthy args.topic)) [
        | inl e ↦ rw (on, ec, e, spin_up_session) (refused missing_arguments refl)
        | inr (topic, et) ↦ elim (Option-cases (truthy args.display_name)) [
          | inl e ↦ rw (on, ec, et, e, spin_up_session) (refused missing_arguments refl)
          | inr (name, en) ↦
              rw (on, ec, et, en, spin_up_session)
                (open_topic_ind P channel topic name refused
                  (λ snapshot. fine channel topic name snapshot ec et))
        ]
      ]
    ]
  ]

  -- With bound sessions and an unused id, spin_up_session keeps every open session's bot leased,
  -- and to that session, on every branch: roll-back, reclaim and refusal included.
  pub spin_up-IsBound : IsBound (spin_up_session ctx catalog args sid created clock db).1
  spin_up-IsBound =
      spin_up_ind (λ r. IsBound r.1) (λ r h. v)
        (λ channel topic name snapshot _ _ _. opened-IsBound channel topic name snapshot)

  -- With bound sessions and an unused id: success leaves the session live in its topic, on a bot
  -- leased to it; a rolled-back birth or a missing bot leaves the topic free; any other reply
  -- changes nothing.
  pub spin_up-Outcome :
      Outcome
        (or_else (truthy args.channel) "")
        (or_else (truthy args.topic) "")
        sid
        db
        (spin_up_session ctx catalog args sid created clock db)
  spin_up-Outcome =
      spin_up_ind
        (Outcome (or_else (truthy args.channel) "") (or_else (truthy args.topic) "") sid db)
        (refusal-Outcome _ _ sid db)
        (λ channel topic name snapshot ec et clear.
          rw (ec, et) (opened-Outcome channel topic name snapshot clear))
