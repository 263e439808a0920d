-- ===== src/Lifecycle/Bound.antt =====
-- The binding of sessions to bots, and what the methods of the two stores do to it.
use moomacha.Base.{
  ℕ, String, ◌≡◌, refl, ap, subst, inl, inr, Bool, true, false, not, ◌&&◌, none, some, ◌∷◌, arith,
  ◌==◌, if◌then◌else◌, ==_iff, Bool-cases, Option-cases, get, update, NodupKeys, get-update,
  update-NodupKeys,
}
use moomacha.Rows.{state_eq, PoolBotRow, closed, SessionRow}
use moomacha.Pool.{Bots, bot_id, is_leased, as_leased, as_free, next_free, serves}
use moomacha.Pool.Laws.{find-release, next_free-IsNextFree, find-lease}
use moomacha.Sessions.{Sessions, session_id, in_state}
use moomacha.Lifecycle.{Db}
use moomacha.Pool
use moomacha.Sessions

-- Bot `b` is leased, and its lease names session `k`.
unfoldable pub holder : ℕ → ℕ → Bots → Bool
holder b k pool = elim (Pool.find b pool) [
  | none ↦ false
  | some bot ↦ is_leased bot && serves k bot
]

abbrev pub has_bot : ℕ → SessionRow → Bool
has_bot b s = elim s.pool_bot_id [ none ↦ false | some c ↦ c == b ]

abbrev pub is_open : SessionRow → Bool
is_open s = not (state_eq s.state closed)

-- Session `k` is open and has bot `b`.
unfoldable pub open_with : ℕ → ℕ → Sessions → Bool
open_with k b sessions = elim (Sessions.find k sessions) [
  | none ↦ false
  | some s ↦ is_open s && has_bot b s
]

pub record IsBound (db : Db) : Type 0 where
  pub bound : (k b : ℕ) → open_with k b db.sessions ≡ true → holder b k db.pool ≡ true
  pub pool_keys : NodupKeys bot_id db.pool
  pub session_keys : NodupKeys session_id db.sessions

holder_unique : (j k b : ℕ) (pool : Bots) → holder b j pool ≡ true → holder b k pool ≡ true → j ≡ k
unfolding holder
holder_unique j k b pool hj hk = ground arith

-- Where sessions and bots are bound, two open sessions with the same bot are one session.
pub IsBound-exclusive :
    (db : Db) (j k b : ℕ)
    → IsBound db
    → open_with j b db.sessions ≡ true
    → open_with k b db.sessions ≡ true
    → j ≡ k
IsBound-exclusive db j k b v hj hk = holder_unique j k b db.pool (v.bound j b hj) (v.bound k b hk)

pub holder-release :
    (b k c now : ℕ) (pool : Bots)
    → holder b k (Pool.release c now pool) ≡ (if b == c then false else holder b k pool)
unfolding holder
holder-release b k c now pool = ground (arith, find-release b c now pool)

pub open_with-update :
    (k b j : ℕ) (f : SessionRow → SessionRow) (sessions : Sessions)
    → ((s : SessionRow) → (f s).id ≡ s.id)
    → open_with k b (update session_id j f sessions) ≡ (
        if k == j
        then elim (Sessions.find j sessions) [
          | none ↦ false
          | some s ↦ is_open (f s) && has_bot b (f s)
        ]
        else open_with k b sessions)
unfolding open_with Sessions.find
open_with-update k b j f sessions same = ground (arith, get-update session_id f k j sessions same)

-- An update of one session keeps the binding if the row that it leaves is bound.
pub IsBound-update :
    (db : Db) (j : ℕ) (f : SessionRow → SessionRow)
    → ((s : SessionRow) → (f s).id ≡ s.id)
    → ((b : ℕ) (s : SessionRow)
        → Sessions.find j db.sessions ≡ some s
        → (is_open (f s) && has_bot b (f s)) ≡ true
        → holder b j db.pool ≡ true)
    → IsBound db
    → IsBound (record db { sessions = update session_id j f db.sessions })
IsBound-update db j f same keep v = record {
  bound = λ k b h. elim (Bool-cases (k == j)) [
    | inl e ↦ elim (Option-cases (Sessions.find j db.sessions)) [
      | inl missing ↦ ground (arith, open_with-update k b j f db.sessions same)
      | inr (s, found) ↦ ground (arith, open_with-update k b j f db.sessions same, keep b s found)
    ]
    | inr e ↦ v.bound k b (ground (arith, open_with-update k b j f db.sessions same))
  ];
  pool_keys = v.pool_keys;
  session_keys = update-NodupKeys session_id f j db.sessions same v.session_keys;
}

-- Closing a session keeps the binding of the others.
pub IsBound-close :
    (db : Db) (j now : ℕ)
    → IsBound db
    → IsBound (record db { sessions = update session_id j (in_state closed now) db.sessions })
IsBound-close db j now v = IsBound-update db j (in_state closed now) (λ s. refl) (λ b s e h. cc) v

released_unbound :
    (db : Db) (j k b later : ℕ)
    → holder b j db.pool ≡ true
    → open_with k b (update session_id j (in_state closed later) db.sessions) ≡ true
    → IsBound db
    → ⊥
released_unbound db j k b later held h v = elim (Option-cases (Sessions.find j db.sessions)) [
  | inl e ↦ ground (
    arith,
    open_with-update k b j (in_state closed later) db.sessions (λ s. refl),
    v.bound k b,
    holder_unique j k b db.pool held,
  )
  | inr (s, e) ↦ ground (
    arith,
    open_with-update k b j (in_state closed later) db.sessions (λ s. refl),
    v.bound k b,
    holder_unique j k b db.pool held,
  )
]

-- Freeing the bot of a session while the session is closed keeps the binding.
pub IsBound-release :
    (db : Db) (j b now later : ℕ)
    → holder b j db.pool ≡ true
    → IsBound db
    → IsBound (record {
      pool = Pool.release b now db.pool;
      sessions = update session_id j (in_state closed later) db.sessions;
    })
IsBound-release db j b now later held v = record {
  bound = λ k c h. elim (Bool-cases (c == b)) [
    | inl e ↦ absurd (
        released_unbound db j k b later held
          (subst
            (λ x. open_with k x (update session_id j (in_state closed later) db.sessions) ≡ true)
            ((==_iff c b).0 e) h)
          v)
    | inr e ↦ rw (holder-release c k b now db.pool, e) ((IsBound-close db j later v).bound k c h)
  ];
  pool_keys =
      unfold Pool.release in
      update-NodupKeys bot_id (as_free now) b db.pool (λ r. refl) v.pool_keys;
  session_keys = (IsBound-close db j later v).session_keys;
}

-- The lease goes to the session that asked, and to a bot that nobody held.
pub holder-lease :
    (b k sid now : ℕ) (name : String) (pool : Bots) (row : PoolBotRow)
    → NodupKeys bot_id pool
    → next_free pool ≡ some row
    → holder b k (Pool.lease sid name now pool).1
      ≡ (if b == row.id then sid == k else holder b k pool)
unfolding holder
holder-lease b k sid now name pool row unique e =
    let fact = next_free-IsNextFree pool row unique e in
    elim (Bool-cases (b == row.id)) [
      | inl same ↦ ground (
        arith,
        find-lease b sid now name pool row e,
        fact.stored,
        ap (λ x. Pool.find x pool) ((==_iff b row.id).0 same),
      )
      | inr other ↦ ground (arith, find-lease b sid now name pool row e)
    ]

holder-next_free :
    (k : ℕ) (pool : Bots) (row : PoolBotRow)
    → NodupKeys bot_id pool
    → next_free pool ≡ some row
    → holder row.id k pool ≡ false
unfolding holder
holder-next_free k pool row unique e =
    let fact = next_free-IsNextFree pool row unique e in ground (arith, fact.stored, fact.available)

-- Leasing a free bot takes it from no session.
pub IsBound-lease :
    (db : Db) (sid now : ℕ) (name : String) (row : PoolBotRow)
    → next_free db.pool ≡ some row
    → IsBound db
    → IsBound (record db { pool = (Pool.lease sid name now db.pool).1 })
IsBound-lease db sid now name row e v = record {
  bound = λ k b h. elim (Bool-cases (b == row.id)) [
    | inl same ↦
        cc (v.bound k b h, holder-next_free k db.pool row v.pool_keys e, (==_iff b row.id).0 same)
    | inr other ↦
        rw (holder-lease b k sid now name db.pool row v.pool_keys e, other) (v.bound k b h)
  ];
  pool_keys =
      unfold Pool.lease in
      rw (e, Pool.lease)
        (update-NodupKeys bot_id (as_leased sid name now) row.id db.pool (λ r. refl) v.pool_keys);
  session_keys = v.session_keys;
}

-- A new session has no bot yet.
pub IsBound-create :
    (db : Db) (s : SessionRow)
    → s.pool_bot_id ≡ none
    → Sessions.find s.id db.sessions ≡ none
    → IsBound db
    → IsBound (record db { sessions = s ∷ db.sessions })
unfolding open_with Sessions.find get
IsBound-create db s no_bot fresh v = record {
  bound = λ k b h. v.bound k b (ground arith);
  pool_keys = v.pool_keys;
  session_keys = (fresh, v.session_keys);
}
