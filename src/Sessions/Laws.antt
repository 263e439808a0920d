-- ===== src/Sessions/Laws.antt =====
-- What the session methods do, for the modules that use them shut.
use mathlib.Core.Option
use moomacha.Base.{
  ℕ, ◌≤◌, String, ◌≡◌, subst, ◌↔◌, inl, inr, Bool, true, false, none, some, [], ◌∷◌, arith, ◌==◌,
  if◌then◌else◌, Bool-cases, filter, All, All-filter, All-filter_test, All_of_filter, filter-none,
  get, update, NodupKeys, get-update, get_self, All-update, first_by-le, All-first_by,
}
use moomacha.Base.Results.{ok}
use moomacha.Rows.{state_eq, dormant, closed, SessionRow}
use moomacha.Sessions.{Sessions, session_id, is_open_for, in_state}
use moomacha.Sessions

-- The chosen session is dormant, is in the table, and no dormant one has been idle for longer.
pub record IsOldestDormant (sessions : Sessions) (row : SessionRow) : Type 0 where
  pub stored : Sessions.find row.id sessions ≡ some row
  pub asleep : row.state ≡ dormant
  pub oldest :
      All (λ r. state_eq r.state dormant ≡ true → row.last_active_at ≤ r.last_active_at) sessions

pub oldest_dormant_lem :
    (sessions : Sessions) (row : SessionRow)
    → NodupKeys session_id sessions
    → Sessions.oldest_dormant sessions ≡ some row
    → IsOldestDormant sessions row
unfolding Sessions.oldest_dormant Sessions.find
oldest_dormant_lem sessions row unique e =
    let asleep = λ (r : SessionRow). state_eq r.state dormant in
    record {
      stored =
          All-first_by (λ r. r.last_active_at) (λ r. get session_id r.id sessions ≡ some r)
            (filter asleep sessions) row
            (All-filter (λ r. get session_id r.id sessions ≡ some r) asleep sessions
              (get_self session_id sessions unique))
            e;
      asleep =
          let test =
            All-first_by (λ r. r.last_active_at) (λ r. asleep r ≡ true) (filter asleep sessions) row
              (All-filter_test asleep sessions) e in
          ground arith;
      oldest =
          All_of_filter (λ r. row.last_active_at ≤ r.last_active_at) asleep sessions
            (first_by-le (λ r. r.last_active_at) (filter asleep sessions) row e);
    }

pub find-update :
    (k j : ℕ) (f : SessionRow → SessionRow) (sessions : Sessions)
    → ((s : SessionRow) → (f s).id ≡ s.id)
    → Sessions.find k (update session_id j f sessions)
      ≡ (if k == j then Option.map f (Sessions.find k sessions) else Sessions.find k sessions)
unfolding Sessions.find
find-update k j f sessions same = get-update session_id f k j sessions same

-- The topic is free: no open session is bound to it.
abbrev pub IsClear : String → String → Sessions → Type 0
IsClear channel topic sessions = All (λ s. is_open_for channel topic s ≡ false) sessions

filter-nil : (p : SessionRow → Bool) (xs : Sessions) → filter p xs ≡ [] → All (λ x. p x ≡ false) xs
filter-nil p [] e = tt
filter-nil p (x ∷ xs) e = elim (Bool-cases (p x)) [
  | inl k ↦ absurd (ground arith)
  | inr d ↦ (d, filter-nil p xs (ground arith))
]

-- resolve_for_topic finds no session exactly if no open session has the channel and the topic.
pub resolve_none_iff :
    (channel topic : String) (sessions : Sessions)
    → (Sessions.resolve_for_topic channel topic sessions ≡ ok none) ↔ IsClear channel topic sessions
unfolding Sessions.resolve_for_topic
resolve_none_iff channel topic sessions = (
  λ e. filter-nil (is_open_for channel topic) sessions (ground arith),
  λ h. rw (filter-none (is_open_for channel topic) sessions h),
)

-- The one session that `resolve_for_topic` finds is in the table, open, and of that topic.
pub resolve_some :
    (channel topic : String) (sessions : Sessions) (s : SessionRow)
    → NodupKeys session_id sessions
    → Sessions.resolve_for_topic channel topic sessions ≡ ok (some s)
    → (Sessions.find s.id sessions ≡ some s) × (is_open_for channel topic s ≡ true)
unfolding Sessions.resolve_for_topic Sessions.find
resolve_some channel topic sessions s unique e =
    let open_rows = filter (is_open_for channel topic) sessions in
    let one : open_rows ≡ s ∷ [] = ground arith in
    (
      (subst (All (λ r. get session_id r.id sessions ≡ some r)) one (
          All-filter (λ r. get session_id r.id sessions ≡ some r) (is_open_for channel topic)
            sessions (get_self session_id sessions unique))).0,
      (subst (All (λ r. is_open_for channel topic r ≡ true)) one
          (All-filter_test (is_open_for channel topic) sessions)).0,
    )

-- Closing a session keeps a topic free.
pub IsClear-close :
    (channel topic : String) (j now : ℕ) (sessions : Sessions)
    → IsClear channel topic sessions
    → IsClear channel topic (update session_id j (in_state closed now) sessions)
IsClear-close channel topic j now sessions h =
    All-update session_id (λ s. is_open_for channel topic s ≡ false)
      (λ s. is_open_for channel topic s ≡ false) (in_state closed now) j sessions
      (λ s _ _. ground arith) (λ s e _. e) h
