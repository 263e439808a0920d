-- ===== src/Webhook/Delivery.antt =====
-- What one delivery of a message does to the queue, and who may cause a job.
use moomacha.Base.{
  ℕ, String, ◌≡◌, refl, subst, ◌≢◌, ◌⊎◌, inl, inr, true, not, Option, none, some, ◌∷◌, arith,
  str_eq, eq_iff, Bool-cases, if_ind, Option_ind,
}
use moomacha.Base.Results.{found_ind, Result, ok, raised}
use moomacha.Jobs.{write_event}
use moomacha.Resolver.{PoolBotResolution, pool_bot_no_session, pool_bot_turn}
use moomacha.Agents.{ResolvedAgent}
use moomacha.Webhook.{
  has, mark, token_matches, is_direct_message, channel_of, log, sender_bot_email, run_pool_turn,
  answer_pool, unknown, after_resolution, incoming_unknown, deduplicated, guard_bastion,
  incoming_agent, incoming, OutgoingWebhookPayload, World, Deps, Response,
}
use moomacha.Webhook.Turns.{
  refl-Keeps, marking, run_agent_turn-Turns, run_pool_turn-Turns, Keeps, Adds,
}

module _ {E S : Type 0} (deps : Deps E S) (payload : OutgoingWebhookPayload) where
  -- The token of the request is the secret, which is not empty.
  abbrev pub Authentic : String → Type 0
  Authentic secret = (payload.token ≡ secret) × (secret ≢ "")

  -- The mentioned agent is enabled, its secret came with the request, and it is no bastion that
  -- another agent calls.
  pub record ByAgent (stores : S) (agent_id : ℕ) : Type 0 where
    pub agent : ResolvedAgent
    pub resolved :
        deps.resolve_agent_by_email (sender_bot_email deps payload) stores ≡ ok (some agent)
    pub same_id : agent.id ≡ agent_id
    pub authentic : Authentic agent.zulip_outgoing_token
    pub enabled : agent.enabled ≡ true
    pub from_outside :
        (sender : String)
        → agent.is_bastion ≡ true
        → payload.message.sender_email ≡ some sender
        → sender ≢ ""
        → deps.resolve_agent_by_email sender stores ≡ ok none

  -- The email is no agent's, and the resolver of pool bots answers with a session, whose bot's
  -- secret came with the request.
  pub record ByPool (stores : S) (agent_id : ℕ) : Type 0 where
    pub resolve : String → String → String → S → Result E (Option PoolBotResolution) × S
    pub wired : deps.resolve_pool_bot_turn ≡ some resolve
    pub no_agent : deps.resolve_agent_by_email (sender_bot_email deps payload) stores ≡ ok none
    pub token : String
    pub agent : ResolvedAgent
    pub session_id : ℕ
    pub resolved :
        (resolve
          (sender_bot_email deps payload)
          (channel_of payload.message.display_recipient)
          payload.message.subject
          stores).0
        ≡ ok (some (pool_bot_turn token agent session_id))
    pub same_id : agent.id ≡ agent_id
    pub authentic : Authentic token

  -- No job; or one, of a new message, for an agent or a pool bot that may be called.
  abbrev pub Delivers : World S → World S → Type 0
  Delivers w w' =
      Keeps payload.message w w'
      ⊎ ((agent_id : ℕ) × Adds payload.message agent_id w w'
          × (ByAgent w.stores agent_id ⊎ ByPool w.stores agent_id))

  token_matches-Authentic :
      (secret : String) → token_matches payload.token (some secret) ≡ true → Authentic secret
  unfolding token_matches
  token_matches-Authentic secret h =
      (ground (arith, eq_iff payload.token secret), λ e. ground (arith, eq_iff secret ""))

  kept : (w w' : World S) → w'.ledger.jobs ≡ w.ledger.jobs → w'.seen ≡ w.seen → Delivers w w'
  kept w w' jobs seen = inl (refl-Keeps payload.message w w' jobs seen)

  deduplicated-Delivers :
      (agent : ResolvedAgent) (w : World S)
      → ByAgent w.stores agent.id
      → Delivers w (deduplicated deps payload agent w).1
  unfolding deduplicated mark
  deduplicated-Delivers agent w may = elim (Bool-cases (has payload.message.id w.seen)) [
    | inl again ↦ rw (again, deduplicated, mark) (kept w w refl refl)
    | inr unseen ↦
        rw (unseen, deduplicated, mark)
          (elim (marking payload.message agent.id w _ unseen (
            run_agent_turn-Turns deps payload agent
              (record w { seen = payload.message.id ∷ w.seen }))) [
                | inl keeps ↦ inl keeps
                | inr adds ↦ inr (agent.id, adds, inl may)
              ])
  ]

  module _ (agent : ResolvedAgent) (w : World S)
      (found : deps.resolve_agent_by_email (sender_bot_email deps payload) w.stores
        ≡ ok (some agent)) where
    abbrev Fine : Response × World S → Type 0
    Fine r = Delivers w r.1

    may :
        Authentic agent.zulip_outgoing_token
        → agent.enabled ≡ true
        → ((sender : String)
            → agent.is_bastion ≡ true
            → payload.message.sender_email ≡ some sender
            → sender ≢ ""
            → deps.resolve_agent_by_email sender w.stores ≡ ok none)
        → ByAgent w.stores agent.id
    may token on outside = record {
      agent = agent;
      resolved = found;
      same_id = refl;
      authentic = token;
      enabled = on;
      from_outside = outside;
    }

    guard_bastion-Delivers :
        Authentic agent.zulip_outgoing_token
        → agent.enabled ≡ true
        → Delivers w (guard_bastion deps payload agent w).1
    unfolding guard_bastion log write_event
    guard_bastion-Delivers token on =
        if_ind Fine (not agent.is_bastion)
          (λ plain. deduplicated-Delivers agent w (may token on (λ s b e n. absurd (ground arith))))
          (λ bastion.
            Option_ind Fine payload.message.sender_email
              (λ nobody. deduplicated-Delivers agent w (may token on (λ s b e n. absurd cc)))
              (λ sender from.
                if_ind Fine (str_eq sender "")
                  (λ blank.
                    deduplicated-Delivers agent w (
                      may token on
                        (λ s b e n. absurd (n (ground (arith, eq_iff sender "", from))))))
                  (λ named.
                    found_ind Fine (deps.resolve_agent_by_email sender w.stores)
                      (λ e says. kept w w refl refl)
                      (λ says. deduplicated-Delivers agent w (
                        may token on (λ s b e n.
                          subst (λ x. deps.resolve_agent_by_email x w.stores ≡ ok none)
                            (ground (arith, from)) says)))
                      (λ other says. kept w _ refl refl))))

    incoming_agent-Delivers : Delivers w (incoming_agent deps payload agent w).1
    unfolding incoming_agent log write_event
    incoming_agent-Delivers =
        if_ind Fine (not (token_matches payload.token (some agent.zulip_outgoing_token)))
          (λ forged. kept w w refl refl)
          (λ known.
            if_ind Fine (not agent.enabled) (λ off. kept w _ refl refl)
              (λ on.
                guard_bastion-Delivers
                  (token_matches-Authentic agent.zulip_outgoing_token (ground arith))
                  (ground arith)))

  module _ (w : World S)
      (nobody : deps.resolve_agent_by_email (sender_bot_email deps payload) w.stores ≡ ok none)
      (resolve : String → String → String → S → Result E (Option PoolBotResolution) × S)
      (wired : deps.resolve_pool_bot_turn ≡ some resolve) where
    -- The world with the stores that the resolver leaves.
    abbrev resolved_world : World S
    resolved_world = record w {
      stores =
          (resolve (sender_bot_email deps payload) (channel_of payload.message.display_recipient)
            payload.message.subject w.stores).1;
    }

    abbrev resolution_of : Result E (Option PoolBotResolution)
    resolution_of =
        (resolve (sender_bot_email deps payload) (channel_of payload.message.display_recipient)
          payload.message.subject w.stores).0

    abbrev FinePool : Response × World S → Type 0
    FinePool r = Delivers w r.1

    answer_pool-Delivers :
        (resolution : PoolBotResolution)
        → resolution_of ≡ ok (some resolution)
        → Delivers w (answer_pool deps payload resolution resolved_world).1
    unfolding answer_pool mark
    answer_pool-Delivers (pool_bot_no_session token) says =
        if_ind FinePool (not (token_matches payload.token (some token)))
          (λ forged. kept w _ refl refl)
          (λ known.
            inl (record { same_jobs = refl; still_seen = λ k h. unfold has in ground (arith, h) }))
    answer_pool-Delivers (pool_bot_turn token agent session_id) says =
        if_ind FinePool (not (token_matches payload.token (some token)))
          (λ forged. kept w _ refl refl)
          (λ known. elim (Bool-cases (has payload.message.id w.seen)) [
            | inl again ↦ rw again (kept w _ refl refl)
            | inr unseen ↦
                rw unseen
                  (elim (marking payload.message agent.id w
                    (run_pool_turn deps payload agent session_id
                      (record resolved_world { seen = payload.message.id ∷ w.seen })).1
                    unseen
                    (run_pool_turn-Turns deps payload agent session_id
                      (record resolved_world { seen = payload.message.id ∷ w.seen }))) [
                        | inl keeps ↦ inl keeps
                        | inr adds ↦ inr (
                          agent.id,
                          adds,
                          inr (record {
                            resolve = resolve;
                            wired = wired;
                            no_agent = nobody;
                            token = token;
                            agent = agent;
                            session_id = session_id;
                            resolved = says;
                            same_id = refl;
                            authentic = token_matches-Authentic token (ground arith);
                          }),
                        )
                      ])
          ])

  incoming_unknown-Delivers :
      (w : World S)
      → deps.resolve_agent_by_email (sender_bot_email deps payload) w.stores ≡ ok none
      → Delivers w (incoming_unknown deps payload w).1
  unfolding incoming_unknown after_resolution unknown log write_event
  incoming_unknown-Delivers w nobody =
      Option_ind (λ (r : Response × World S). Delivers w r.1) deps.resolve_pool_bot_turn
        (λ off. kept w _ refl refl)
        (λ resolve wired.
          if_ind (λ (r : Response × World S). Delivers w r.1)
            (is_direct_message payload.message.display_recipient payload.message.type)
            (λ private. kept w _ refl refl)
            (λ public. by_resolution resolve wired (resolution_of w nobody resolve wired) refl))
    where
      by_resolution :
          (resolve : String → String → String → S → Result E (Option PoolBotResolution) × S)
          (wired : deps.resolve_pool_bot_turn ≡ some resolve)
          (answer : Result E (Option PoolBotResolution))
          → resolution_of w nobody resolve wired ≡ answer
          → Delivers w
              (after_resolution deps payload answer (resolved_world w nobody resolve wired)).1
      by_resolution resolve wired (raised e) says = kept w _ refl refl
      by_resolution resolve wired (ok none) says = kept w _ refl refl
      by_resolution resolve wired (ok (some resolution)) says =
          answer_pool-Delivers w nobody resolve wired resolution says

  -- A delivery either adds no job and forgets no message, or adds one job, of a message not seen
  -- before and from then on seen: for an enabled agent whose non-empty token came with the request
  -- and that is no bastion called by an agent, or for a pool bot with a session whose non-empty
  -- token came.
  pub incoming-Delivers : (w : World S) → Delivers w (incoming deps payload w).1
  unfolding incoming
  incoming-Delivers w =
      found_ind (λ (r : Response × World S). Delivers w r.1)
        (deps.resolve_agent_by_email (sender_bot_email deps payload) w.stores)
        (λ e says. kept w w refl refl) (incoming_unknown-Delivers w)
        (λ agent says. incoming_agent-Delivers agent w says)
