-- ===== src/Webhook/Turns.antt =====
-- What a turn of the webhook does to the queue: the cases that its branches fall into.
use moomacha.Base.{
  ℕ, String, ◌≡◌, refl, ◌⊎◌, inl, inr, true, false, Option, none, some, List, [], ◌∷◌, ◌++◌, arith,
  Bool-cases,
}
use moomacha.Jobs.{enqueue_mention, Job}
use moomacha.Agents.{agent_id, ResolvedAgent}
use moomacha.Webhook.{
  has, is_direct_message, direct_recipient_ids, enqueue_stream, enqueue_direct, sender_bot_email,
  run_pool_turn, run_agent_turn, ZulipMessage, OutgoingWebhookPayload, World, Deps,
}

-- A job for the agent, about the message, at the end of the queue.
pub record Posts (message : ZulipMessage) (agent_id : ℕ) (before after : List Job) : Type 0 where
  pub job : Job
  pub added : after ≡ before ++ (job ∷ [])
  pub of_message : job.source_message_id ≡ some message.id
  pub of_agent : job.agent_id ≡ agent_id

module _ {S : Type 0} (message : ZulipMessage) where
  abbrev pub Turns : ℕ → World S → World S → Type 0
  Turns agent_id w w' =
      (w'.seen ≡ w.seen)
      × ((w'.ledger.jobs ≡ w.ledger.jobs) ⊎ Posts message agent_id w.ledger.jobs w'.ledger.jobs)

  -- No job, and no message forgotten.
  pub record Keeps (w w' : World S) : Type 0 where
    pub same_jobs : w'.ledger.jobs ≡ w.ledger.jobs
    pub still_seen : (k : ℕ) → has k w.seen ≡ true → has k w'.seen ≡ true

  -- One job, for a message that was not seen before and is from now on.
  pub record Adds (agent_id : ℕ) (w w' : World S) : Type 0 where
    pub posts : Posts message agent_id w.ledger.jobs w'.ledger.jobs
    pub unseen : has message.id w.seen ≡ false
    pub marked : w'.seen ≡ message.id ∷ w.seen

  enqueue_stream-Posts :
      (agent : ResolvedAgent) (session_id : Option ℕ) (w : World S)
      → Posts message agent.id w.ledger.jobs (enqueue_stream message agent session_id w).ledger.jobs
  unfolding enqueue_stream enqueue_mention
  enqueue_stream-Posts agent session_id w = record {
    job = _;
    added = refl;
    of_message = refl;
    of_agent = refl;
  }

  enqueue_direct-Turns :
      (bot_email : String) (agent : ResolvedAgent) (ids : List ℕ) (w : World S)
      → Turns agent.id w (enqueue_direct bot_email message agent ids w)
  unfolding enqueue_direct enqueue_mention
  enqueue_direct-Turns bot_email agent [] w = (refl, inl refl)
  enqueue_direct-Turns bot_email agent (i ∷ ids) w =
      (refl, inr (record { job = _; added = refl; of_message = refl; of_agent = refl }))

  pub refl-Keeps : (w w' : World S) → w'.ledger.jobs ≡ w.ledger.jobs → w'.seen ≡ w.seen → Keeps w w'
  refl-Keeps w w' jobs seen = record { same_jobs = jobs; still_seen = λ k h. rw seen h }

  pub marking :
      (agent_id : ℕ) (w w' : World S)
      → has message.id w.seen ≡ false
      → Turns agent_id (record w { seen = message.id ∷ w.seen }) w'
      → Keeps w w' ⊎ Adds agent_id w w'
  unfolding has
  marking agent_id w w' unseen (seen, inl jobs) =
      inl (record { same_jobs = jobs; still_seen = λ k h. rw seen (ground (arith, h)) })
  marking agent_id w w' unseen (seen, inr posts) =
      inr (record { posts = posts; unseen = unseen; marked = seen })

module _ {E S : Type 0} (deps : Deps E S) (payload : OutgoingWebhookPayload) where
  pub run_agent_turn-Turns :
      (agent : ResolvedAgent) (w : World S)
      → Turns payload.message agent.id w (run_agent_turn deps payload agent w).1
  unfolding run_agent_turn
  run_agent_turn-Turns agent w = elim (Bool-cases (deps.add_reaction agent payload.message.id)) [
    | inr fails ↦ rw (fails, run_agent_turn) (refl, inl refl)
    | inl works ↦
        elim (Bool-cases
          (is_direct_message payload.message.display_recipient payload.message.type)) [
            | inl private ↦
                rw (works, private, run_agent_turn)
                  (enqueue_direct-Turns payload.message (sender_bot_email deps payload) agent
                    (direct_recipient_ids agent payload.message) w)
            | inr public ↦
                rw (works, public, run_agent_turn)
                  (
                    unfold enqueue_stream in refl,
                    inr (enqueue_stream-Posts payload.message agent none w),
                  )
          ]
  ]

  pub run_pool_turn-Turns :
      (agent : ResolvedAgent) (session_id : ℕ) (w : World S)
      → Turns payload.message agent.id w (run_pool_turn deps payload agent session_id w).1
  unfolding run_pool_turn
  run_pool_turn-Turns agent session_id w =
      elim (Bool-cases (deps.add_reaction agent payload.message.id)) [
        | inr fails ↦ rw (fails, run_pool_turn) (refl, inl refl)
        | inl works ↦
            rw (works, run_pool_turn)
              (
                unfold enqueue_stream in refl,
                inr (enqueue_stream-Posts payload.message agent (some session_id) w),
              )
      ]
