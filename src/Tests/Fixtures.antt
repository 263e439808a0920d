-- ===== src/Tests/Fixtures.antt =====
-- A small pool, its sessions, and the context of a bastion: the inputs of the tests.
use moomacha.Base.{
  ℕ, ◌+◌, String, ◌≡◌, refl, Bool, true, ◌&&◌, ◌||◌, Option, none, some, [], ◌∷◌, arith, ◌==◌, get,
}
use moomacha.Base.Results.{ok}
use moomacha.Rows.{BotStatus, leased, PoolBotRow, SessionState, live, dormant, Snapshot, SessionRow}
use moomacha.Pool.{SecretBox}
use moomacha.Sessions.{Sessions}
use moomacha.Lifecycle.{Db}
use moomacha.Lifecycle.Bound.{holder, open_with, IsBound}
use moomacha.SpinUp.{Admin, Context, SpinUpArgs}
use moomacha.Pool
use moomacha.Sessions

abbrev pub plain_box : SecretBox String
plain_box = record { encrypt = λ s. s; decrypt = λ s. ok s }

abbrev pub bot : ℕ → BotStatus → Option ℕ → ℕ → PoolBotRow
bot id status session last = record {
  id = id;
  zulip_bot_id = 100 + id;
  zulip_bot_email = "pool-bot@example.com";
  zulip_api_key_encrypted = "key";
  zulip_outgoing_token_encrypted = "token";
  status = status;
  current_name = none;
  current_session_id = session;
  last_active_at = last;
}

abbrev pub no_keys : Snapshot
no_keys = record {
  name = none;
  persona = none;
  model_id = none;
  context_message_count = none;
  allowed_tools = none;
  knowledge_artifact_ids = none;
  runtime_kind = none;
  runtime_config = none;
}

abbrev pub session : ℕ → String → SessionState → Option ℕ → SessionRow
session id topic state pool_bot_id = record {
  id = id;
  channel = "lab";
  topic = topic;
  archetype_snapshot = no_keys;
  pool_bot_id = pool_bot_id;
  memory_ns = "lab/topic";
  granted_caps = [];
  state = state;
  last_active_at = id;
}

-- One live session on the one leased bot, and a dormant one on another.
abbrev pub busy : Db
busy = record {
  pool = bot 1 leased (some 11) 5 ∷ bot 2 leased (some 12) 3 ∷ [];
  sessions = session 11 "alpha" live (some 1) ∷ session 12 "beta" dormant (some 2) ∷ [];
}

abbrev pub admin : Bool → Admin
admin works = record {
  rename_bot = λ id name. true;
  subscribe_to_channel = λ creds channel. works;
  send_message = λ creds channel topic text. true;
}

abbrev pub context : Bool → Context String
context works = record {
  stores_ready = true;
  default_model = "small";
  admin_client = some (admin works);
  box = plain_box;
  show_uuid = λ id. "uuid";
}

abbrev pub request : String → SpinUpArgs
request topic = record {
  channel = some "lab";
  topic = some topic;
  display_name = some "Ada";
  archetype = none;
  persona = some "helpful";
  model_id = none;
  allowed_tools = none;
}

abbrev pub clock : ℕ → ℕ
clock i = 20 + i

-- The live session has the first bot, the dormant one the second.
abbrev pub busy_holder : ℕ → ℕ → Bool
busy_holder k b = k == 11 && b == 1 || k == 12 && b == 2

holders : (k b : ℕ) → open_with k b busy.sessions ≡ true → holder b k busy.pool ≡ true
unfolding open_with holder Sessions.find Pool.find get
holders k b h = ground arith

pub busy-IsBound : IsBound busy
unfolding get
busy-IsBound = record {
  bound = holders;
  pool_keys = (refl, (refl, tt));
  session_keys = (refl, (refl, tt));
}
