-- ===== src/Messages.antt =====
-- control-plane/src/control_plane/runtime/tools/messages.py: the tools that read other topics. Zulip is
-- a parameter that answers requests.
use moomacha.Base.{
  ℕ, String, ◌<>◌, ◌≡◌, Bool, true, false, ◌||◌, List, [], ◌∷◌, ltb, if◌then◌else◌, if_ind, All,
}
use moomacha.Base.Results.{Result, ok, raised}
use moomacha.ToolAccess.{contains, ToolResult, ToolContext}
use moomacha.Worker.{HistoryMessage}
use moomacha.Worker.Prompt.{history_of}

pub data ReadRequest : Type 0 where
  get_messages : (channel topic : String) → (num_before : ℕ) → ReadRequest
  get_channel_messages : (channel : String) → (num_before : ℕ) → ReadRequest

-- A tool's answer, and the requests with the newest first.
abbrev pub Answer : Type 0
Answer = Result String ToolResult × List ReadRequest

pub channel_allowed : List String → String → Bool
channel_allowed readable_channels channel =
    contains "*" readable_channels || contains channel readable_channels

abbrev pub channel_of : ReadRequest → String
channel_of (get_messages channel _ _) = channel
channel_of (get_channel_messages channel _) = channel

-- A call of one of the two tools.
pub data Use : Type 0 where
  reads_topic : (channel topic : String) → (limit : ℕ) → Use
  reads_channel : (channel : String) → (limit : ℕ) → Use

module _ (zulip : List ReadRequest → ReadRequest → Result String (List HistoryMessage)) where
  read_cap : ℕ → ℕ
  read_cap limit = if ltb 100 limit then 100 else limit

  formatted : Result String (List HistoryMessage) → Result String ToolResult
  formatted (raised e) = raised e
  formatted (ok messages) = ok (record { success = true; content = history_of messages })

  -- The guard of both tools.
  pub guarded : ToolContext → ReadRequest → List ReadRequest → Answer
  unfolding formatted channel_allowed
  guarded ctx request sent =
      if channel_allowed ctx.agent.readable_channels (channel_of request)
      then (formatted (zulip sent request), request ∷ sent)
      else (
        ok (record {
          success = false;
          content = "Not permitted to read #" <> (channel_of request <> ".");
        }),
        sent,
      )

  pub read_topic : (channel topic : String) → (limit : ℕ) → ToolContext → List ReadRequest → Answer
  unfolding read_cap guarded
  read_topic channel topic limit ctx = guarded ctx (get_messages channel topic (read_cap limit))

  pub read_channel : (channel : String) → (limit : ℕ) → ToolContext → List ReadRequest → Answer
  unfolding read_cap guarded
  read_channel channel limit ctx = guarded ctx (get_channel_messages channel (read_cap limit))

  -- The channel is one that the agent may read.
  abbrev pub IsAllowed : ToolContext → ReadRequest → Type 0
  IsAllowed ctx r = channel_allowed ctx.agent.readable_channels (channel_of r) ≡ true

  guarded-Allowed :
      (ctx : ToolContext) (request : ReadRequest) (sent : List ReadRequest)
      → All (IsAllowed ctx) sent
      → All (IsAllowed ctx) (guarded ctx request sent).1
  unfolding guarded
  guarded-Allowed ctx request sent h =
      if_ind (λ (x : Answer). All (IsAllowed ctx) x.1)
        (channel_allowed ctx.agent.readable_channels (channel_of request)) (λ allowed. (allowed, h))
        (λ refused. h)

  pub read : Use → ToolContext → List ReadRequest → Answer
  unfolding read_topic read_channel
  read (reads_topic channel topic limit) ctx sent = read_topic channel topic limit ctx sent
  read (reads_channel channel limit) ctx sent = read_channel channel limit ctx sent

  pub reads : List Use → ToolContext → List ReadRequest → List ReadRequest
  reads [] ctx sent = sent
  reads (u ∷ uses) ctx sent = reads uses ctx (read u ctx sent).1

  read-Allowed :
      (u : Use) (ctx : ToolContext) (sent : List ReadRequest)
      → All (IsAllowed ctx) sent
      → All (IsAllowed ctx) (read u ctx sent).1
  unfolding read
  read-Allowed (reads_topic channel topic limit) ctx sent h =
      guarded-Allowed ctx (get_messages channel topic (read_cap limit)) sent h
  read-Allowed (reads_channel channel limit) ctx sent h =
      guarded-Allowed ctx (get_channel_messages channel (read_cap limit)) sent h

  -- Over any calls of the tools that read messages, Zulip is asked for channels only that the agent
  -- may read, if the requests before were such.
  pub reads-Allowed :
      (uses : List Use) (ctx : ToolContext) (sent : List ReadRequest)
      → All (IsAllowed ctx) sent
      → All (IsAllowed ctx) (reads uses ctx sent)
  unfolding reads
  reads-Allowed [] ctx sent h = h
  reads-Allowed (u ∷ uses) ctx sent h =
      reads-Allowed uses ctx (read u ctx sent).1 (read-Allowed u ctx sent h)
