-- ===== src/Memory.antt =====
-- control-plane/src/control_plane/runtime/tools/agent_memory.py: the memory tools. The service that
-- stores the memories is a parameter that answers requests; the client's encoding of them is left out.
pub mod Names
pub mod Scopes
pub mod Searching
use Prim.Native.Nat.{◌*◌}
use moomacha.Base.{
  ℕ, String, ◌<>◌, Bool, true, false, not, ◌&&◌, Option, none, some, List, [], ◌∷◌, map, str_eq,
  ltb, leb, if◌then◌else◌, or_else, take, filter,
}
use moomacha.Base.Text.{slice_to, join, chars}
use moomacha.Base.Results.{Result, ok, raised}
use moomacha.ToolAccess.{contains, ToolResult, ToolContext}
use moomacha.Memory.Names.{slug}

pub data Kind : Type 0 where
  semantic episodic : Kind

pub record MemoryRecord : Type 0 where
  pub text : String
  pub namespace : String
  pub memory_type : Kind
  pub event_date : Option String

pub record Item : Type 0 where
  pub text : Option String
  pub namespace : Option String

-- What is sent to the service; the uuid of a memory is left out.
pub data Request : Type 0 where
  create_memory : MemoryRecord → Request
  search_memories : (query : String) → (limit : ℕ) → (namespaces : List String) → Request
  add_session_event : (session_id text role : String) → Request
  get_session : (session_id : String) → Request

-- The answers; an error is an exception of the HTTP client.
pub record Service : Type 0 where
  pub reply : List Request → Request → Result String String
  pub items :
      List Request → (query : String) → (limit : ℕ) → List String → Result String (List Item)

-- A tool's answer, and the requests with the newest first.
abbrev pub Answer : Type 0
Answer = Result String ToolResult × List Request

abbrev pub say : Bool → String → Result String ToolResult
say success content = ok (record { success = success; content = content })

unfoldable pub session_id_for : String → String → String
session_id_for channel topic = slug "unknown" (channel <> ("-" <> topic))

unfoldable pub wire_ns : String → String
wire_ns ns = slug "ns" ns

abbrev pub channel_ns : String → String
channel_ns channel = "channel:" <> channel

abbrev pub topic_ns : String → String → String
topic_ns channel topic = "topic:" <> (channel <> ("/" <> topic))

pub data Tier : Type 0 where
  self topic channel workspace : Tier

-- `ctx.memory_ns or ...`
pub self_ns : (ℕ → String) → ToolContext → String
self_ns show_uuid ctx =
    let own = "agent:" <> show_uuid ctx.agent.id in
    let ns = or_else ctx.memory_ns "" in if str_eq ns "" then own else ns

pub resolve_scope : (ℕ → String) → String → ToolContext → Option (String × Tier)
resolve_scope show_uuid scope ctx =
    if str_eq scope "self"
    then some (self_ns show_uuid ctx, self)
    else if str_eq scope "topic"
    then some (topic_ns ctx.channel ctx.topic, topic)
    else if str_eq scope "channel"
    then some (channel_ns ctx.channel, channel)
    else if str_eq scope "workspace"
    then some ("workspace", workspace)
    else none

abbrev pub is_librarian_tier : Tier → Bool
is_librarian_tier self = false
is_librarian_tier topic = false
is_librarian_tier channel = true
is_librarian_tier workspace = true

tier_name : Tier → String
tier_name self = "self"
tier_name topic = "topic"
tier_name channel = "channel"
tier_name workspace = "workspace"

-- The namespace of a resolved scope, or the refusal.
pub gated : String → ToolContext → Option (String × Tier) → Result String String
unfolding tier_name
gated scope ctx none = raised ("Unknown scope '" <> (scope <> "'. Use 'self' or 'topic'."))
gated scope ctx (some (ns, tier)) =
    if is_librarian_tier tier && not ctx.agent.is_librarian
    then raised (
        join "" (
          "Writing to "
          ∷ tier_name tier
          ∷ " memory requires the librarian — @-mention the librarian in this topic and ask it to remember this."
          ∷ []))
    else ok ns

pub gate_write : (ℕ → String) → String → ToolContext → Result String String
gate_write show_uuid scope ctx = gated scope ctx (resolve_scope show_uuid scope ctx)

-- `_cap`
pub cap : String → String
cap value =
    if leb (chars value) 12000
    then value
    else slice_to 12000 value <> "\n... truncated to 12000 characters ..."

module _ (show_uuid : ℕ → String) (service : Service) where
  -- `out or otherwise`, the answer to a request that is a write.
  replied : String → Result String String → Result String ToolResult
  replied otherwise (raised e) = raised e
  replied otherwise (ok out) = say true (if str_eq out "" then otherwise else out)

  -- Both tools that write memories: the kind, the date, and what is said if the service says nothing.
  pub write : Kind → Option String → String → Result String String → String → List Request → Answer
  unfolding replied
  write kind date otherwise (raised err) text sent = (say false err, sent)
  write kind date otherwise (ok ns) text sent =
      let request =
        create_memory
          (record { text = text; namespace = wire_ns ns; memory_type = kind; event_date = date }) in
      (replied otherwise (service.reply sent request), request ∷ sent)

  pub remember : (text scope : String) → ToolContext → List Request → Answer
  remember text scope ctx sent =
      write semantic none "Stored." (gate_write show_uuid scope ctx) text sent

  -- An empty date is left out.
  date_of : Option String → Option String
  date_of none = none
  date_of (some date) = if str_eq date "" then none else some date

  pub record_episode :
      (text : String)
      → (event_date : Option String) → (scope : String) → ToolContext
      → List Request
      → Answer
  unfolding date_of
  record_episode text event_date scope ctx sent =
      write episodic (date_of event_date) "Recorded." (gate_write show_uuid scope ctx) text sent

  abbrev pub read_set : ToolContext → List String
  read_set ctx = wire_ns (self_ns show_uuid ctx) ∷ wire_ns (channel_ns ctx.channel) ∷ []

  abbrev pub in_scope : ToolContext → Item → Bool
  in_scope ctx item = elim item.namespace [ none ↦ false | some ns ↦ contains ns (read_set ctx) ]

  -- The items of the read-set, the first `limit` of them.
  pub scoped : ToolContext → ℕ → List Item → List Item
  scoped ctx limit raw = take limit (filter (in_scope ctx) raw)

  pub listed : List Item → String
  listed [] = "(no relevant memories in your scope)"
  listed (item ∷ items) = cap (join "\n" (map (λ i. "- " <> or_else i.text "") (item ∷ items)))

  searched : ToolContext → ℕ → Result String (List Item) → Result String ToolResult
  unfolding listed
  searched ctx limit (raised e) = raised e
  searched ctx limit (ok raw) = say true (listed (scoped ctx limit raw))

  pub search : (query : String) → (limit : ℕ) → ToolContext → List Request → Answer
  unfolding searched
  search query limit ctx sent =
      let wide = if ltb (limit * 5) 25 then 25 else limit * 5 in
      let request = search_memories query wide (read_set ctx) in
      (searched ctx limit (service.items sent query wide (read_set ctx)), request ∷ sent)

  pub set_working : String → ToolContext → List Request → Answer
  unfolding replied
  set_working text ctx sent =
      let request = add_session_event (session_id_for ctx.channel ctx.topic) text "ASSISTANT" in
      (replied "Saved to working memory." (service.reply sent request), request ∷ sent)

  read_back : Result String String → Result String ToolResult
  read_back (raised e) = raised e
  read_back (ok out) = say true (cap out)

  pub get_working : ToolContext → List Request → Answer
  unfolding read_back
  get_working ctx sent =
      let request = get_session (session_id_for ctx.channel ctx.topic) in
      (read_back (service.reply sent request), request ∷ sent)
