-- ===== src/Webhook/Posting.antt =====
-- The path of a new mention of an agent through the webhook, with and without a reaction.
use moomacha.Base.{
  String, ◌≡◌, refl, ◌∙◌, true, false, none, some, [], ◌∷◌, ◌++◌, arith, str_eq, eq_iff, or_else,
}
use moomacha.Base.Results.{ok}
use moomacha.Jobs.{write_event, enqueue_mention, stream, zulip_mention, Job}
use moomacha.Agents.{ResolvedAgent}
use moomacha.Webhook.{
  has, mark, token_matches, is_direct_message, channel_of, mention, enqueue_stream, message,
  sender_bot_email, run_agent_turn, deduplicated, guard_bastion, incoming_agent, incoming,
  stream_name, ZulipMessage, OutgoingWebhookPayload, World, Deps, accepted, failed,
}
use moomacha.Webhook.Once.{incoming_again}

module _ {E S : Type 0} (deps : Deps E S) (payload : OutgoingWebhookPayload) (w : World S)
    (agent : ResolvedAgent)
    (found : deps.resolve_agent_by_email (sender_bot_email deps payload) w.stores ≡ ok (some agent))
    (known : token_matches payload.token (some agent.zulip_outgoing_token) ≡ true)
    (on : agent.enabled ≡ true) (plain : agent.is_bastion ≡ false)
    (unseen : has payload.message.id w.seen ≡ false) where
  abbrev marked : World S
  marked = record w { seen = payload.message.id ∷ w.seen }

  reaches_turn : incoming deps payload w ≡ run_agent_turn deps payload agent marked
  unfolding incoming incoming_agent guard_bastion deduplicated mark
  reaches_turn = ground (arith, found, known, on, plain, unseen)

  posts :
      deps.add_reaction agent payload.message.id ≡ true
      → is_direct_message payload.message.display_recipient payload.message.type ≡ false
      → incoming deps payload w ≡ (accepted, enqueue_stream payload.message agent none marked)
  unfolding run_agent_turn
  posts reacts public = reaches_turn ∙ ground (arith, reacts, public)

  lost_reaction :
      deps.add_reaction agent payload.message.id ≡ false
      → incoming deps payload w ≡ (failed, marked)
  unfolding run_agent_turn
  lost_reaction fails = reaches_turn ∙ ground (arith, fails)

  -- If the reaction to such a message fails, the request fails, and a later delivery of the same
  -- message adds no job: the mention is lost.
  pub lost_mention :
      deps.add_reaction agent payload.message.id ≡ false
      → (deps' : Deps E S) (again : OutgoingWebhookPayload) → again.message.id ≡ payload.message.id
      → ((incoming deps payload w).0 ≡ failed)
        × ((incoming deps' again (incoming deps payload w).1).1.ledger.jobs ≡ w.ledger.jobs)
  lost_mention fails deps' again same =
      rw (lost_reaction fails)
        (refl, incoming_again deps' again marked (unfold has in ground (arith, same)))

-- What an agent is asked to do by a message in a stream.
abbrev pub job_of : (channel : String) → ZulipMessage → ResolvedAgent → Job
job_of channel message agent = record {
  agent_id = agent.id;
  channel = channel;
  topic = message.subject;
  content = message.content;
  conversation_type = stream;
  direct_recipient_ids = none;
  source_kind = zulip_mention;
  source_message_id = some message.id;
  schedule_id = none;
  fire_key = none;
  invoking_user = message.sender_email;
  session_id = none;
}

module _ {E S : Type 0} (deps : Deps E S) (payload : OutgoingWebhookPayload) (w : World S)
    (agent : ResolvedAgent) (channel : String) where
  -- A new message in a stream that mentions an enabled agent which is no bastion, with its non-
  -- empty token, if the reaction succeeds: it is accepted, the stores stay, the one new job has the
  -- agent, the channel, the topic, the text, the message and its sender, and a later delivery of
  -- the message adds no job.
  pub mention_posts :
      deps.resolve_agent_by_email (or_else payload.bot_email "") w.stores ≡ ok (some agent)
      → payload.token ≡ agent.zulip_outgoing_token
      → str_eq payload.token "" ≡ false
      → agent.enabled ≡ true
      → agent.is_bastion ≡ false
      → has payload.message.id w.seen ≡ false
      → deps.add_reaction agent payload.message.id ≡ true
      → payload.message.display_recipient ≡ stream_name channel
      → payload.message.type ≡ some "stream"
      → ((incoming deps payload w).0 ≡ accepted)
        × ((incoming deps payload w).1.stores ≡ w.stores)
        × ((incoming deps payload w).1.ledger.jobs
            ≡ w.ledger.jobs ++ job_of channel payload.message agent ∷ [])
        × ((deps' : Deps E S) (again : OutgoingWebhookPayload)
            → again.message.id ≡ payload.message.id
            → (incoming deps' again (incoming deps payload w).1).1.ledger.jobs
              ≡ (incoming deps payload w).1.ledger.jobs)
  unfolding enqueue_stream enqueue_mention write_event channel_of mention
  mention_posts found token filled on plain unseen reacts place kind =
      let known : token_matches payload.token (some agent.zulip_outgoing_token) ≡ true =
        unfold token_matches in
        rw (← token, filled) ((eq_iff payload.token payload.token).1 refl) in
      let public : is_direct_message payload.message.display_recipient payload.message.type
          ≡ false =
        unfold is_direct_message in rw (place, kind) refl in
      rw (posts deps payload w agent found known on plain unseen reacts public) (
        refl,
        refl,
        rw (place) refl,
        λ deps' again same. incoming_again deps' again _ (unfold has in ground (arith, same)),
      )
