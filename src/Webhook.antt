-- ===== src/Webhook.antt =====
-- control-plane/src/control_plane/routes/zulip_webhook.py with dedupe.py and models.py: an outgoing
-- webhook of Zulip becomes at most one job. `Deps` has the arguments of `build_webhook_router`; a
-- `failed` response stands for an exception that leaves the handler.
pub mod Turns
pub mod Delivery
pub mod Once
pub mod Posting
use moomacha.Base.{
  ℕ, String, Bool, true, false, not, ◌&&◌, ◌||◌, Option, none, some, List, [], ◌∷◌, str_eq, ◌==◌,
  if◌then◌else◌, or_else,
}
use moomacha.Base.Results.{Result, ok, raised}
use moomacha.Jobs.{
  write_event, enqueue_mention, stream, direct, ZulipMentionSource, Event, unknown_bot,
  disabled_agent_ignored, bastion_invocation_blocked, direct_message_recipient_error, Ledger,
}
use moomacha.Resolver.{PoolBotResolution, pool_bot_no_session, pool_bot_turn}
use moomacha.Agents.{ResolvedAgent}

pub record ZulipDirectRecipient : Type 0 where
  pub email : Option String
  pub id : ℕ

pub data DisplayRecipient : Type 0 where
  stream_name : String → DisplayRecipient
  recipients : List ZulipDirectRecipient → DisplayRecipient

pub record ZulipMessage : Type 0 where
  pub id : ℕ
  pub content : String
  pub display_recipient : DisplayRecipient
  pub subject : String
  pub sender_id : Option ℕ
  pub sender_email : Option String
  pub type : Option String

pub record OutgoingWebhookPayload : Type 0 where
  pub token : String
  pub bot_email : Option String
  pub message : ZulipMessage

-- `SeenMessages._ids`
unfoldable pub has : ℕ → List ℕ → Bool
has message_id [] = false
has message_id (i ∷ ids) = i == message_id || has message_id ids

-- `SeenMessages.mark`
pub mark : ℕ → List ℕ → Bool × List ℕ
mark message_id ids = if has message_id ids then (false, ids) else (true, message_id ∷ ids)

pub record World (S : Type 0) : Type 0 where
  pub stores : S
  pub seen : List ℕ
  pub ledger : Ledger

-- `add_reaction` is the call of the Zulip client, true when it returns; the resolver of pool bots
-- may change the stores.
pub record Deps (E S : Type 0) : Type 0 where
  pub resolve_agent_by_email : String → S → Result E (Option ResolvedAgent)
  pub add_reaction : ResolvedAgent → ℕ → Bool
  pub resolve_pool_bot_turn :
      Option (String → String → String → S → Result E (Option PoolBotResolution) × S)

pub data Response : Type 0 where
  accepted forbidden failed : Response

-- False for an empty or absent secret.
unfoldable pub token_matches : String → Option String → Bool
token_matches provided none = false
token_matches provided (some expected) = not (str_eq expected "") && str_eq provided expected

unfoldable pub is_direct_message : DisplayRecipient → Option String → Bool
is_direct_message (recipients _) type = true
is_direct_message (stream_name _) none = false
is_direct_message (stream_name _) (some type) = str_eq type "direct" || str_eq type "private"

-- `str(display_recipient)`; the handler asks it of a stream only.
pub channel_of : DisplayRecipient → String
channel_of (stream_name channel) = channel
channel_of (recipients _) = ""

abbrev is_email : String → Option String → Bool
is_email email none = false
is_email email (some e) = str_eq e email

abbrev is_id : ℕ → Option ℕ → Bool
is_id i none = false
is_id i (some j) = i == j

other_ids : ResolvedAgent → List ZulipDirectRecipient → List ℕ
other_ids agent [] = []
other_ids agent (r ∷ rest) =
    let others = other_ids agent rest in
    if is_email agent.zulip_bot_email r.email || is_id r.id agent.zulip_bot_id
    then others
    else r.id ∷ others

sender_ids : Option ℕ → List ℕ
sender_ids none = []
sender_ids (some i) = i ∷ []

or_sender : List ℕ → Option ℕ → List ℕ
unfolding sender_ids
or_sender [] sender = sender_ids sender
or_sender (i ∷ ids) sender = i ∷ ids

pub direct_recipient_ids : ResolvedAgent → ZulipMessage → List ℕ
unfolding other_ids or_sender
direct_recipient_ids agent message = elim message.display_recipient [
  | stream_name _ ↦ sender_ids message.sender_id
  | recipients l ↦ or_sender (other_ids agent l) message.sender_id
]

pub mention : ZulipMessage → ZulipMentionSource
mention message = record { message_id = message.id; sender_email = message.sender_email }

module _ {S : Type 0} where
  pub log : Event → World S → World S
  log event w = record w { ledger = write_event event w.ledger }

  -- The job of a message in a stream; `session_id` is set for a pool bot.
  pub enqueue_stream : ZulipMessage → ResolvedAgent → Option ℕ → World S → World S
  unfolding mention
  enqueue_stream message agent session_id w = record w {
    ledger =
        enqueue_mention agent.id (channel_of message.display_recipient) message.subject
          message.content stream none (mention message) session_id w.ledger;
  }

  -- The job of a direct message, when there is someone to answer.
  pub enqueue_direct : String → ZulipMessage → ResolvedAgent → List ℕ → World S → World S
  unfolding mention log
  enqueue_direct bot_email message agent [] w =
      log (direct_message_recipient_error bot_email agent.id message.id) w
  enqueue_direct bot_email message agent (i ∷ ids) w = record w {
    ledger =
        enqueue_mention agent.id "direct" "" message.content direct (some (i ∷ ids))
          (mention message) none w.ledger;
  }

module _ {E S : Type 0} (deps : Deps E S) (payload : OutgoingWebhookPayload) where
  abbrev message : ZulipMessage
  message = payload.message

  abbrev pub sender_bot_email : String
  sender_bot_email = or_else payload.bot_email ""

  -- From the reaction on, for a pool bot with a session.
  pub run_pool_turn : ResolvedAgent → ℕ → World S → Response × World S
  unfolding enqueue_stream
  run_pool_turn agent session_id w =
      if deps.add_reaction agent message.id
      then (accepted, enqueue_stream message agent (some session_id) w)
      else (failed, w)

  pub answer_pool : PoolBotResolution → World S → Response × World S
  unfolding run_pool_turn
  answer_pool (pool_bot_no_session token) w =
      let (fresh, seen) = mark message.id w.seen in
      if not (token_matches payload.token (some token))
      then (forbidden, w)
      else (accepted, record w { seen = seen })
  answer_pool (pool_bot_turn token agent session_id) w =
      let (fresh, seen) = mark message.id w.seen in
      if not (token_matches payload.token (some token))
      then (forbidden, w)
      else if not fresh
      then (accepted, w)
      else run_pool_turn agent session_id (record w { seen = seen })

  pub unknown : World S → Response × World S
  unfolding log
  unknown w = (accepted, log (unknown_bot sender_bot_email) w)

  pub after_resolution : Result E (Option PoolBotResolution) → World S → Response × World S
  unfolding answer_pool unknown
  after_resolution (raised e) w = (failed, w)
  after_resolution (ok none) w = unknown w
  after_resolution (ok (some resolution)) w = answer_pool resolution w

  -- The email is no agent's.
  pub incoming_unknown : World S → Response × World S
  unfolding after_resolution
  incoming_unknown w = elim deps.resolve_pool_bot_turn [
    | none ↦ unknown w
    | some resolve ↦
        let channel = channel_of message.display_recipient in
        let (resolution, stores) = resolve sender_bot_email channel message.subject w.stores in
        if is_direct_message message.display_recipient message.type
        then unknown w
        else after_resolution resolution (record w { stores = stores })
  ]

  pub run_agent_turn : ResolvedAgent → World S → Response × World S
  unfolding enqueue_stream enqueue_direct
  run_agent_turn agent w =
      if not (deps.add_reaction agent message.id)
      then (failed, w)
      else if is_direct_message message.display_recipient message.type
      then (
        accepted,
        enqueue_direct sender_bot_email message agent (direct_recipient_ids agent message) w,
      )
      else (accepted, enqueue_stream message agent none w)

  -- From the deduplication on.
  pub deduplicated : ResolvedAgent → World S → Response × World S
  unfolding run_agent_turn
  deduplicated agent w =
      let (fresh, seen) = mark message.id w.seen in
      if not fresh then (accepted, w) else run_agent_turn agent (record w { seen = seen })

  -- A bastion does not answer another agent.
  pub guard_bastion : ResolvedAgent → World S → Response × World S
  unfolding log deduplicated
  guard_bastion agent w =
      if not agent.is_bastion then deduplicated agent w else elim message.sender_email [
        | none ↦ deduplicated agent w
        | some sender ↦
            if str_eq sender ""
            then deduplicated agent w
            else elim (deps.resolve_agent_by_email sender w.stores) [
              | raised e ↦ (failed, w)
              | ok none ↦ deduplicated agent w
              | ok (some other) ↦
                  (accepted, log (bastion_invocation_blocked sender agent.id message.id) w)
            ]
      ]

  pub incoming_agent : ResolvedAgent → World S → Response × World S
  unfolding guard_bastion
  incoming_agent agent w =
      if not (token_matches payload.token (some agent.zulip_outgoing_token))
      then (forbidden, w)
      else if not agent.enabled
      then (accepted, log (disabled_agent_ignored sender_bot_email agent.id message.id) w)
      else guard_bastion agent w

  pub incoming : World S → Response × World S
  unfolding incoming_unknown incoming_agent
  incoming w = elim (deps.resolve_agent_by_email sender_bot_email w.stores) [
    | raised e ↦ (failed, w)
    | ok none ↦ incoming_unknown w
    | ok (some agent) ↦ incoming_agent agent w
  ]
