-- ===== src/Rows.antt =====
-- control-plane/src/control_plane/db/tables.py and schemas/archetype.py: the rows of the tables.
-- A uuid is a number; a time is a number of microseconds; a status column is a data type with the
-- strings that the code writes. Columns that no modelled code reads (created_at) are left out.
use moomacha.Base.{ℕ, String, Option, List, Bool, true, false}
use moomacha.Base.Json.{Json}

pub data BotStatus : Type 0 where
  free leased : BotStatus

pub record PoolBotRow : Type 0 where
  pub id : ℕ
  pub zulip_bot_id : ℕ
  pub zulip_bot_email : String
  pub zulip_api_key_encrypted : String
  pub zulip_outgoing_token_encrypted : String
  pub status : BotStatus
  pub current_name : Option String
  pub current_session_id : Option ℕ
  pub last_active_at : ℕ

pub data SessionState : Type 0 where
  provisioning live dormant closed : SessionState

-- The keys of an `archetype_snapshot` dict that are read back; `none` is an absent key.
pub record Snapshot : Type 0 where
  pub name : Option String
  pub persona : Option String
  pub model_id : Option String
  pub context_message_count : Option ℕ
  pub allowed_tools : Option (List String)
  pub knowledge_artifact_ids : Option (List String)
  pub runtime_kind : Option String
  pub runtime_config : Option Json

pub record SessionRow : Type 0 where
  pub id : ℕ
  pub channel : String
  pub topic : String
  pub archetype_snapshot : Snapshot
  pub pool_bot_id : Option ℕ
  pub memory_ns : String
  pub granted_caps : List String
  pub state : SessionState
  pub last_active_at : ℕ

-- `row.status == ...` and `row.state == ...`
abbrev pub status_eq : BotStatus → BotStatus → Bool
status_eq BotStatus.free BotStatus.free = true
status_eq BotStatus.leased BotStatus.leased = true
status_eq _ _ = false

abbrev pub state_eq : SessionState → SessionState → Bool
state_eq SessionState.provisioning SessionState.provisioning = true
state_eq SessionState.live SessionState.live = true
state_eq SessionState.dormant SessionState.dormant = true
state_eq SessionState.closed SessionState.closed = true
state_eq _ _ = false
