-- ===== src/Worker.antt =====
-- control-plane/src/control_plane/services/job_queue.py: what a turn of the worker does to the
-- outside, as effects of a world that records them. A call is on the trace before its answer is known,
-- so a call that fails is there too. What Zulip, the sinks of the events and the runner answer is a
-- parameter, and the runner may change the world.
pub mod Prompt
pub mod Tripwire
pub mod Turn
pub mod Process
pub mod Keeping
pub mod Edited
pub mod Settled
pub mod Survival
pub mod Containment
pub mod Disabling
-- The exceptions that the turn tells apart; of another one, its type and its message.
use moomacha.Base.{ℕ, String, Bool, Option, List, ◌∷◌, count}
use moomacha.Base.Results.{Result, ok, raised}
use moomacha.Agents.{Agents, agent_id, ResolvedAgent}
use moomacha.Jobs.{Job}
use moomacha.Pool.{SecretBox}
use moomacha.Sessions.{StoreError}
use moomacha.Lifecycle.{Db}
use moomacha.ToolAccess.{ToolContext, ToolEntry}

pub data Failure : Type 0 where
  budget_exceeded : (count : ℕ) → Failure
  timed_out : Failure
  failed : (type_name message : String) → Failure

pub data Place : Type 0 where
  in_topic : (channel topic : String) → Place
  in_direct : List ℕ → Place

pub data Effect : Type 0 where
  say : Place → String → Effect
  edit : (message_id : ℕ) → String → Effect
  open_llm : Effect
  close_llm : Effect
  turn_start : (agent_id : ℕ) → (runtime_kind model : String) → Effect
  turn_end : (status : String) → (reply : Option String) → (agent_id : ℕ) → Effect
  error_event : (error_type message : String) → (agent_id : ℕ) → Effect
  tripwire_event : (offending : List String) → (agent_id : ℕ) → Effect
  get_messages : Place → (num_before : ℕ) → Effect
  disable : (agent_id : ℕ) → Effect
  run : (agent_id : ℕ) → Effect

-- The newest effect first.
pub record World : Type 0 where
  pub trace : List Effect
  pub agents : Agents
  pub db : Db

pub record HistoryMessage : Type 0 where
  pub sender_full_name : Option String
  pub content : Option String

pub record RunnerInput : Type 0 where
  pub job : Job
  pub agent : ResolvedAgent
  pub system_prompt : String
  pub user_message : String
  pub tool_context : ToolContext
  pub management : Bool

-- A step of a coroutine.
abbrev pub Step : Type 0 → Type 0
Step A = World → Result Failure A × World

abbrev pub return : {A : Type 0} → A → Step A
return a w = (ok a, w)

abbrev pub raise : {A : Type 0} → Failure → Step A
raise e w = (raised e, w)

infixr 5 ◌>>=◌ ◌>>◌
abbrev pub ◌>>=◌ : {A B : Type 0} → Step A → (A → Step B) → Step B
◌>>=◌ m f w = let (r, w') = m w in elim r [ ok a ↦ f a w' | raised e ↦ (raised e, w') ]

abbrev pub ◌>>◌ : {A B : Type 0} → Step A → Step B → Step B
m >> n = m >>= λ a. n

-- `try: m except Exception as exc: handler(exc)`
abbrev pub try_except : {A : Type 0} → Step A → (Failure → Step A) → Step A
try_except m handler w = let (r, w') = m w in elim r [ ok a ↦ (ok a, w') | raised e ↦ handler e w' ]

-- `try: m finally: last`; an exception of `last` replaces what `m` gives.
abbrev pub try_finally : {A : Type 0} → Step A → Step ℕ → Step A
try_finally m last w =
    let (r, w') = m w in
    let (s, w'') = last w' in elim s [ ok _ ↦ (r, w'') | raised e ↦ (raised e, w'') ]

-- The collaborators of a turn. `answers`, `read_messages` and `touches`, the commit
-- of the session store, see the trace up to the call.
pub record JobDeps (Parsed Tools : Type 0) : Type 0 where
  pub answers : List Effect → Effect → Result Failure ℕ
  pub read_messages : List Effect → Place → ℕ → Result Failure (List HistoryMessage)
  pub run : RunnerInput → Step String
  pub touches : List Effect → Result Failure ℕ
  pub runner_kinds : List String
  pub box : SecretBox Failure
  pub store_failure : StoreError → Failure
  pub tools : List (String × ToolEntry Parsed Tools)
  pub context_default_n : ℕ
  pub turn_timeout_seconds : String
  pub has_registry : Bool
  pub has_pool_store : Bool
  pub has_session_store : Bool
  pub show_uuid : ℕ → String
  pub now : ℕ

module _ {Parsed Tools : Type 0} (deps : JobDeps Parsed Tools) where
  pub perform : Effect → Step ℕ
  perform e w = (deps.answers w.trace e, record w { trace = e ∷ w.trace })
