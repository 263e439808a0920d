-- ===== src/Resolver.antt =====
-- control-plane/src/control_plane/services/pool_resolver.py: from the email of a pool bot and a
-- topic to the agent of the topic's session. `now` is the time that a reopening records.
pub mod Laws
use moomacha.Base.{ℕ, String, true, false, Option, none, some, [], ◌∷◌, if◌then◌else◌, or_else}
use moomacha.Base.Json.{obj, end}
use moomacha.Base.Results.{Result, ok, raised}
use moomacha.Rows.{state_eq, PoolBotRow, dormant, Snapshot, SessionRow}
use moomacha.Pool.{SecretBox, PoolBotCreds}
use moomacha.Sessions.{Sessions, session_id, StoreError}
use moomacha.Lifecycle.{Db}
use moomacha.Agents.{ResolvedAgent}
use moomacha.Pool
use moomacha.Sessions

pub data PoolBotResolution : Type 0 where
  pool_bot_no_session : (outgoing_token : String) → PoolBotResolution
  pool_bot_turn : (outgoing_token : String) → ResolvedAgent → (session_id : ℕ) → PoolBotResolution

pub data ResolveError (E : Type 0) : Type 0 where
  secret_failed : E → ResolveError E
  store_raised : StoreError → ResolveError E

pub agent_from_snapshot : Snapshot → PoolBotCreds → ℕ → ℕ → String → ResolvedAgent
agent_from_snapshot snapshot creds pool_bot_uuid zulip_bot_id channel = record {
  id = pool_bot_uuid;
  name = or_else snapshot.name "worker";
  persona = or_else snapshot.persona "";
  model_id = or_else snapshot.model_id "gpt-4o";
  zulip_bot_id = some zulip_bot_id;
  zulip_bot_email = creds.bot_email;
  zulip_api_key = creds.api_key;
  zulip_outgoing_token = creds.outgoing_token;
  context_message_count = or_else snapshot.context_message_count 20;
  readable_channels = channel ∷ [];
  allowed_tools = or_else snapshot.allowed_tools [];
  is_bastion = false;
  can_exec = false;
  is_librarian = false;
  knowledge_artifact_ids = or_else snapshot.knowledge_artifact_ids [];
  enabled = true;
  runtime_kind = or_else snapshot.runtime_kind "deepagents";
  runtime_config = or_else snapshot.runtime_config (obj end);
}

-- A dormant session is reopened.
pub awaken : ℕ → SessionRow → Db → Option SessionRow × Db
awaken now s db =
    let (row, sessions) = Sessions.reopen s.id now db.sessions in
    if state_eq s.state dormant then (row, record db { sessions = sessions }) else (some s, db)

pub answer : PoolBotRow → PoolBotCreds → String → Option SessionRow → PoolBotResolution
answer bot creds channel none = pool_bot_no_session creds.outgoing_token
answer bot creds channel (some s) =
    pool_bot_turn creds.outgoing_token
      (agent_from_snapshot s.archetype_snapshot creds bot.id bot.zulip_bot_id channel) s.id

pub resolve_session :
    {E : Type 0}
    → PoolBotRow
    → PoolBotCreds
    → String
    → String
    → ℕ
    → Db
    → Result (ResolveError E) (Option PoolBotResolution) × Db
resolve_session bot creds channel topic now db =
    elim (Sessions.resolve_for_topic channel topic db.sessions) [
      | raised e ↦ (raised (store_raised e), db)
      | ok none ↦ (ok (some (answer bot creds channel none)), db)
      | ok (some s) ↦
          let (row, db') = awaken now s db in (ok (some (answer bot creds channel row)), db')
    ]

pub resolve_pool_bot_for_webhook :
    {E : Type 0}
    → SecretBox E
    → String
    → String
    → String
    → ℕ
    → Db
    → Result (ResolveError E) (Option PoolBotResolution) × Db
unfolding resolve_session
resolve_pool_bot_for_webhook box bot_email channel topic now db =
    elim (Pool.find_by_email bot_email db.pool) [
      | none ↦ (ok none, db)
      | some bot ↦ elim (Pool.resolve_creds box bot.id db.pool) [
        | raised e ↦ (raised (secret_failed e), db)
        | ok none ↦ (ok none, db)
        | ok (some creds) ↦ resolve_session bot creds channel topic now db
      ]
    ]
