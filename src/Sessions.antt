-- ===== src/Sessions.antt =====
-- control-plane/src/control_plane/services/session_store.py. Each method is a function on the
-- table of sessions; `now` is what `_now()` reads, and `uuid` what `uuid.uuid4()` gives.
pub mod Laws
use mathlib.Core.Option
-- `scalar_one_or_none` raises when more than one row fits.
use moomacha.Base.{
  ℕ, ◌+◌, ◌*◌, String, ◌<>◌, Bool, not, ◌&&◌, Option, none, some, List, [], ◌∷◌, str_eq, leb,
  if◌then◌else◌, or_else, filter, get, update, first_by,
}
use moomacha.Base.Results.{Result, ok, raised}
use moomacha.Rows.{state_eq, SessionState, live, dormant, closed, Snapshot, SessionRow}

pub data StoreError : Type 0 where
  multiple_results : StoreError

abbrev pub Sessions : Type 0
Sessions = List SessionRow

abbrev pub session_id : SessionRow → ℕ
session_id r = r.id

-- An f-string's rendering of a uuid is a library's.
module _ (show_uuid : ℕ → String) where
  memory_ns_for : Option String → ℕ → String
  memory_ns_for none sid = "agent:session:" <> show_uuid sid
  memory_ns_for (some name) sid =
      if str_eq name "" then "agent:session:" <> show_uuid sid else "agent:archetype:" <> name

  unfoldable pub create :
      (uuid now : ℕ) (channel topic : String) (snapshot : Snapshot) (pool_bot_id : Option ℕ)
      (granted_caps : Option (List String)) (archetype_name : Option String) (state : SessionState)
      → Sessions
      → SessionRow × Sessions
  unfolding memory_ns_for
  create uuid now channel topic snapshot pool_bot_id granted_caps archetype_name state sessions =
      let row : SessionRow = record {
        id = uuid;
        channel = channel;
        topic = topic;
        archetype_snapshot = snapshot;
        pool_bot_id = pool_bot_id;
        memory_ns = memory_ns_for archetype_name uuid;
        granted_caps = or_else granted_caps [];
        state = state;
        last_active_at = now;
      } in
      (row, row ∷ sessions)

abbrev pub is_open_for : String → String → SessionRow → Bool
is_open_for channel topic r =
    str_eq r.channel channel && str_eq r.topic topic && not (state_eq r.state closed)

abbrev pub at_most_one : {A : Type 0} → List A → Result StoreError (Option A)
at_most_one [] = ok none
at_most_one (r ∷ []) = ok (some r)
at_most_one (r ∷ s ∷ rs) = raised multiple_results

unfoldable pub resolve_for_topic :
    String → String → Sessions → Result StoreError (Option SessionRow)
resolve_for_topic channel topic sessions = at_most_one (filter (is_open_for channel topic) sessions)

unfoldable pub find : ℕ → Sessions → Option SessionRow
find sid sessions = get session_id sid sessions

abbrev pub in_state : SessionState → ℕ → SessionRow → SessionRow
in_state state now row = record row { state = state; last_active_at = now }

-- The row as it is after the commit, or `none` with the table left alone.
unfoldable pub set_state : SessionState → ℕ → ℕ → Sessions → Option SessionRow × Sessions
unfolding find
set_state state sid now sessions = (
  Option.map (in_state state now) (find sid sessions),
  update session_id sid (in_state state now) sessions,
)

pub mark_dormant : ℕ → ℕ → Sessions → Option SessionRow × Sessions
mark_dormant = set_state dormant

unfoldable pub reopen : ℕ → ℕ → Sessions → Option SessionRow × Sessions
reopen = set_state live

unfoldable pub close : ℕ → ℕ → Sessions → Option SessionRow × Sessions
close = set_state closed

unfoldable pub mark_live : ℕ → ℕ → Sessions → Option SessionRow × Sessions
mark_live = set_state live

-- `when or _now()`
pub touch : ℕ → Option ℕ → ℕ → Sessions → Sessions
touch sid when now sessions =
    update session_id sid (λ row. record row { last_active_at = or_else when now }) sessions

-- `(now - last_active_at).total_seconds() >= idle_seconds`, over microseconds.
abbrev pub is_idle : ℕ → ℕ → SessionRow → Bool
is_idle now idle_seconds r = leb (r.last_active_at + idle_seconds * 1000000) now

unfoldable pub find_idle : ℕ → ℕ → Sessions → Sessions
find_idle now idle_seconds sessions =
    filter (is_idle now idle_seconds) (filter (λ r. state_eq r.state live) sessions)

unfoldable pub bind_pool_bot : ℕ → ℕ → Sessions → Sessions
bind_pool_bot sid pool_bot_id sessions =
    update session_id sid (λ row. record row { pool_bot_id = some pool_bot_id }) sessions

unfoldable pub oldest_dormant : Sessions → Option SessionRow
oldest_dormant sessions =
    first_by (λ r. r.last_active_at) (filter (λ r. state_eq r.state dormant) sessions)

unfoldable pub list_by_state : SessionState → Sessions → Sessions
list_by_state state sessions = filter (λ r. state_eq r.state state) sessions
