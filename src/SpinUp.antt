-- ===== src/SpinUp.antt =====
-- control-plane/src/control_plane/tools/management/sessions.py: the bastion's session tools.
-- The replies are the message kinds of the source; a database error other than a topic with two
-- open sessions is not modelled. `clock i` is what the i-th `_now()` of a call reads.
pub mod Invariant
pub mod Outcome
pub mod Tools
pub mod Closing
pub mod Templates
pub mod Reached
use moomacha.Base.{
  ℕ, suc, String, ◌<>◌, Bool, true, false, not, ◌&&◌, Option, none, some, List, [], str_eq,
  if◌then◌else◌, or_else,
}
use moomacha.Base.Json.{obj, end}
use moomacha.Base.Results.{Result, ok, raised}
use moomacha.Rows.{PoolBotRow, provisioning, Snapshot}
use moomacha.Pool.{Bots, SecretBox, PoolBotCreds}
use moomacha.Sessions.{Sessions}
use moomacha.Lifecycle.{reclaim_for_capacity, Db}
use moomacha.Archetypes.{Catalog, get_by_name, model_dump, ArchetypeDefinition}
use moomacha.Pool
use moomacha.Sessions

-- What the handlers use of `ManagementToolContext` beside the stores. The calls of the Zulip
-- clients answer true when they return and false when they raise.
pub record Admin : Type 0 where
  pub rename_bot : ℕ → String → Bool
  pub subscribe_to_channel : PoolBotCreds → String → Bool
  pub send_message : PoolBotCreds → String → String → String → Bool

pub record Context (E : Type 0) : Type 0 where
  pub stores_ready : Bool
  pub default_model : String
  pub admin_client : Option Admin
  pub box : SecretBox E
  pub show_uuid : ℕ → String

pub record SpinUpArgs : Type 0 where
  pub channel : Option String
  pub topic : Option String
  pub display_name : Option String
  pub archetype : Option String
  pub persona : Option String
  pub model_id : Option String
  pub allowed_tools : Option (List String)

pub data Reply : Type 0 where
  not_available : Reply
  missing_arguments : Reply
  store_failed : Reply
  session_exists : Reply
  no_archetype : String → Reply
  no_persona : Reply
  no_capacity : Reply
  rolled_back : Reply
  spun_up : String → Reply
  no_session : Reply
  session_closed : Reply

-- A value that `if not x` passes: not None, and not the empty string.
abbrev pub truthy : Option String → Option String
truthy none = none
truthy (some s) = if str_eq s "" then none else some s

one_off : {E : Type 0} → Context E → SpinUpArgs → String → ArchetypeDefinition
one_off ctx args persona = record {
  name = or_else (truthy args.display_name) "one-off";
  persona = persona;
  model_id = or_else (truthy args.model_id) ctx.default_model;
  context_message_count = 20;
  allowed_tools = or_else args.allowed_tools [];
  knowledge_artifact_ids = [];
  mcp_servers = [];
  runtime_kind = "deepagents";
  runtime_config = obj end;
}

-- `_snapshot_for`
unfoldable pub snapshot_for :
    {E : Type 0} → Context E → Catalog → SpinUpArgs → Result Reply Snapshot
unfolding one_off
snapshot_for ctx catalog args = elim (truthy args.archetype) [
  | some name ↦ elim (get_by_name name catalog) [
    | none ↦ raised (no_archetype name)
    | some defn ↦ ok (model_dump defn)
  ]
  | none ↦ elim (truthy args.persona) [
    | none ↦ raised no_persona
    | some persona ↦ ok (model_dump (one_off ctx args persona))
  ]
]

-- The lease, with one reclaim and a second try when no bot is free.
unfoldable pub acquire_bot : ℕ → String → (ℕ → ℕ) → Db → Option PoolBotRow × Db
acquire_bot sid display_name clock db =
    let (first, pool) = Pool.lease sid display_name (clock 0) db.pool in
    let (freed, reclaimed) = reclaim_for_capacity (λ i. clock (suc i)) db in
    let (second, pool') = Pool.lease sid display_name (clock 3) reclaimed.pool in
    elim first [
      | some bot ↦ (some bot, record db { pool = pool })
      | none ↦ elim freed [
        | none ↦ (none, reclaimed)
        | some _ ↦ (second, record reclaimed { pool = pool' })
      ]
    ]

-- The Zulip birth inside the `try`: false when a step raises.
birth : {E : Type 0} → Context E → String → String → String → PoolBotRow → Bots → Bool
birth ctx channel topic display_name bot pool = elim ctx.admin_client [
  | none ↦ true
  | some admin ↦ elim (Pool.resolve_creds ctx.box bot.id pool) [
    | raised _ ↦ false
    | ok none ↦ true
    | ok (some creds) ↦
        admin.rename_bot bot.zulip_bot_id display_name
        && (admin.subscribe_to_channel creds channel
            && admin.send_message creds channel topic
                ("Hi! I'm " <> (display_name <> ". Let's get started.")))
  ]
]

-- From the bound lease on: the commit by `mark_live`, or the roll-back.
unfoldable pub finish : Bool → ℕ → PoolBotRow → (ℕ → ℕ) → Db → Reply × Db
finish true sid bot clock db = (
  spun_up bot.zulip_bot_email,
  record db { sessions = (Sessions.mark_live sid (clock 4) db.sessions).1 },
)
finish false sid bot clock db = (
  rolled_back,
  record {
    pool = Pool.release bot.id (clock 4) db.pool;
    sessions = (Sessions.close sid (clock 5) db.sessions).1;
  },
)

-- From the new session row on.
pub settle : {E : Type 0} → Context E → String → String → String → ℕ → (ℕ → ℕ) → Db → Reply × Db
unfolding birth finish
settle ctx channel topic display_name sid clock db =
    let (bot, db1) = acquire_bot sid display_name clock db in
    elim bot [
      | none ↦
          (no_capacity, record db1 { sessions = (Sessions.close sid (clock 4) db1.sessions).1 })
      | some bot ↦
          let db2 : Db = record db1 { sessions = Sessions.bind_pool_bot sid bot.id db1.sessions } in
          finish (birth ctx channel topic display_name bot db2.pool) sid bot clock db2
    ]

-- `sid` is the uuid of the new session, and `created` the time in its row.
open_topic :
    {E : Type 0}
    → Context E
    → Catalog
    → SpinUpArgs
    → String
    → String
    → String
    → ℕ
    → ℕ
    → (ℕ → ℕ)
    → Db
    → Reply × Db
unfolding settle
open_topic ctx catalog args channel topic display_name sid created clock db =
    elim (Sessions.resolve_for_topic channel topic db.sessions) [
      | raised _ ↦ (store_failed, db)
      | ok (some _) ↦ (session_exists, db)
      | ok none ↦ elim (snapshot_for ctx catalog args) [
        | raised reply ↦ (reply, db)
        | ok snapshot ↦ settle ctx channel topic display_name sid clock (record db {
          sessions =
              (Sessions.create ctx.show_uuid sid created channel topic snapshot none none
                args.archetype provisioning db.sessions).1;
        })
      ]
    ]

unfoldable pub spin_up_session :
    {E : Type 0} → Context E → Catalog → SpinUpArgs → ℕ → ℕ → (ℕ → ℕ) → Db → Reply × Db
unfolding open_topic
spin_up_session ctx catalog args sid created clock db =
    if not ctx.stores_ready then (not_available, db) else elim (truthy args.channel) [
      | none ↦ (missing_arguments, db)
      | some channel ↦ elim (truthy args.topic) [
        | none ↦ (missing_arguments, db)
        | some topic ↦ elim (truthy args.display_name) [
          | none ↦ (missing_arguments, db)
          | some display_name ↦
              open_topic ctx catalog args channel topic display_name sid created clock db
        ]
      ]
    ]

pub close_session :
    {E : Type 0} → Context E → Option String → Option String → (ℕ → ℕ) → Db → Reply × Db
close_session ctx channel topic clock db =
    if not ctx.stores_ready then (not_available, db) else elim (truthy channel) [
      | none ↦ (missing_arguments, db)
      | some channel ↦ elim (truthy topic) [
        | none ↦ (missing_arguments, db)
        | some topic ↦ elim (Sessions.resolve_for_topic channel topic db.sessions) [
          | raised _ ↦ (store_failed, db)
          | ok none ↦ (no_session, db)
          | ok (some s) ↦ (
            session_closed,
            record {
              pool = elim s.pool_bot_id [
                | none ↦ db.pool
                | some b ↦ Pool.release b (clock 0) db.pool
              ];
              sessions = (Sessions.close s.id (clock 1) db.sessions).1;
            },
          )
        ]
      ]
    ]
