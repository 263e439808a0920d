-- ===== src/Webhook/Once.antt =====
-- Histories of deliveries to the webhook, and the jobs of one message in them.
use moomacha.Base.{
  ℕ, ◌+◌, ◌≤◌, ◌≡◌, ap, inl, inr, Bool, true, false, none, some, List, [], ◌∷◌, ◌++◌, arith, ◌==◌,
  if◌then◌else◌, count, count-append,
}
use moomacha.Jobs.{Job}
use moomacha.Agents.{agent_id}
use moomacha.Webhook.{has, incoming, OutgoingWebhookPayload, World, Deps}
use moomacha.Webhook.Delivery.{Delivers, incoming-Delivers}

-- The job is about the message of this id.
abbrev pub is_about : ℕ → Job → Bool
is_about k job = elim job.source_message_id [ none ↦ false | some i ↦ i == k ]

-- What the message of this id may still cause.
abbrev left : {S : Type 0} → ℕ → World S → ℕ
left k w = if has k w.seen then 0 else 1

module _ {E S : Type 0} (deps : Deps E S) where
  pub deliveries : List OutgoingWebhookPayload → World S → World S
  deliveries [] w = w
  deliveries (p ∷ payloads) w = deliveries payloads (incoming deps p w).1

  -- A delivery of a message that was seen adds no job.
  pub incoming_again :
      (p : OutgoingWebhookPayload) (w : World S)
      → has p.message.id w.seen ≡ true
      → (incoming deps p w).1.ledger.jobs ≡ w.ledger.jobs
  incoming_again p w again = elim (incoming-Delivers deps p w) [
    | inl keeps ↦ keeps.same_jobs
    | inr (agent_id, adds, may) ↦ absurd (ground (arith, again, adds.unseen))
  ]

  spends :
      (k : ℕ) (p : OutgoingWebhookPayload) (w w' : World S)
      → Delivers deps p w w'
      → count (is_about k) w'.ledger.jobs + left k w' ≤ count (is_about k) w.ledger.jobs + left k w
  unfolding has
  spends k p w w' (inl keeps) = omega (arith, ap (count (is_about k)) keeps.same_jobs, less)
    where
      less : left k w' ≤ left k w
      less = ground (arith, keeps.still_seen k)
  spends k p w w' (inr (agent_id, adds, may)) =
      omega (arith, ap (count (is_about k)) adds.posts.added, split, one)
    where
      split :
          count (is_about k) (w.ledger.jobs ++ (adds.posts.job ∷ []))
          ≡ count (is_about k) w.ledger.jobs + count (is_about k) (adds.posts.job ∷ [])
      split = count-append (is_about k) w.ledger.jobs (adds.posts.job ∷ [])

      one : count (is_about k) (adds.posts.job ∷ []) + left k w' ≤ left k w
      one =
          rw (adds.marked, adds.posts.of_message)
            (ground (arith, adds.unseen, ap (λ x. has x w.seen) {x = p.message.id} {y = k}))

  deliveries-spends :
      (k : ℕ) (payloads : List OutgoingWebhookPayload) (w : World S)
      → count (is_about k) (deliveries payloads w).ledger.jobs + left k (deliveries payloads w)
        ≤ count (is_about k) w.ledger.jobs + left k w
  unfolding deliveries
  deliveries-spends k [] w = omega arith
  deliveries-spends k (p ∷ payloads) w = omega (
    arith,
    spends k p w (incoming deps p w).1 (incoming-Delivers deps p w),
    deliveries-spends k payloads (incoming deps p w).1,
  )

  -- Over any list of deliveries that starts with no job of a message, the message causes one job at
  -- most.
  pub one_job_per_message :
      (k : ℕ) (payloads : List OutgoingWebhookPayload) (w : World S)
      → count (is_about k) w.ledger.jobs ≡ 0
      → count (is_about k) (deliveries payloads w).ledger.jobs ≤ 1
  one_job_per_message k payloads w start =
      let most : left k w ≤ 1 = ground arith in
      omega (arith, deliveries-spends k payloads w, start, most)
