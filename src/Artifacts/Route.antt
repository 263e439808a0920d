-- ===== src/Artifacts/Route.antt =====
-- control-plane/src/control_plane/routes/artifacts.py: the endpoints that the browser calls with the
-- artifact's token. The body is bytes, `parse` its validation; requests follow each other. The page that
-- is served is its row: the injection of the configuration into its text is left out.
use moomacha.Artifacts.{
  existing_submission, get_verified, expire_if_due, accept_submission, Status, opened, submitted,
  expired, revoked, ArtifactRow, SubmissionRow, Store, accepted, duplicate, conflict, was_expired,
  was_revoked, SubmissionResult,
}
use moomacha.Artifacts.Summary.{summarize_payload}
use moomacha.Base.{
  ℕ, suc, String, Bool, true, false, Option, none, some, List, [], ◌∷◌, ltb, if◌then◌else◌, length,
}
use moomacha.Base.Text.{join}
use moomacha.Base.Results.{Result, ok, raised}
use moomacha.Base.Json.{Json, obj, end, field}
use moomacha.Agents.{ResolvedAgent}
use moomacha.Jobs.{enqueue_agent_turn, stream, by_submission, Ledger}

pub record SubmitBody : Type 0 where
  pub submission_id : String
  pub payload : Json

pub record Posted : Type 0 where
  pub channel : String
  pub topic : String
  pub content : String

-- The store, the queue, and the messages that were sent or tried, the newest first.
pub record RouteState : Type 0 where
  pub store : Store
  pub ledger : Ledger
  pub posted : List Posted

pub record RouteDeps : Type 0 where
  pub hash_token : String → String
  pub dumps : Json → String
  pub complete : String → String → Result String (Option String)
  pub parse : List ℕ → Option SubmitBody
  pub resolve_agent : ℕ → Result String (Option ResolvedAgent)
  pub send_message : List Posted → Posted → Result String ℕ
  pub summary_model : String
  pub max_payload_bytes : ℕ
  pub base_url : String
  pub show_uuid : ℕ → String

pub data Reply : Type 0 where
  error_reply : (status_code : ℕ) → (error : String) → Reply
  page : ArtifactRow → Reply
  status_reply : Status → (submitted_at : Option ℕ) → (expires_at : ℕ) → Reply
  payload_reply : SubmissionRow → Reply
  duplicate_reply : (summary : String) → Reply
  accepted_reply : (summary summary_status : String) → Reply
  server_error : String → Reply

module _ (deps : RouteDeps) where
  -- The row for a valid token, after the expiry that is due.
  unfoldable pub load : ℕ → String → ℕ → Store → Option ArtifactRow × Store
  load artifact_id token now store = elim (get_verified deps.hash_token artifact_id token store) [
    | none ↦ (none, store)
    | some row ↦
        let (done, row', store', events) = expire_if_due row (λ s. s) now store in
        (some row', store')
  ]

  is_over : Status → Bool
  is_over expired = true
  is_over revoked = true
  is_over _ = false

  pub get_html : ℕ → String → ℕ → Store → Reply × Store
  unfolding is_over
  get_html artifact_id token now store =
      let (found, store') = load artifact_id token now store in
      elim found [
        | none ↦ (error_reply 404 "Not found", store')
        | some row ↦
            if is_over row.status
            then (error_reply 410 "This interactive response has expired.", store')
            else (page row, store')
      ]

  pub get_status : ℕ → String → ℕ → Store → Reply × Store
  get_status artifact_id token now store =
      let (found, store') = load artifact_id token now store in
      elim found [
        | none ↦ (error_reply 404 "not_found", store')
        | some row ↦ (status_reply row.status row.submitted_at row.expires_at, store')
      ]

  pub get_payload : ℕ → String → ℕ → Store → Reply × Store
  unfolding is_over
  get_payload artifact_id token now store =
      let (found, store') = load artifact_id token now store in
      elim found [
        | none ↦ (error_reply 404 "not_found", store')
        | some row ↦
            if is_over row.status
            then (error_reply 410 "expired", store')
            else elim (existing_submission artifact_id store'.submissions) [
              | none ↦ (error_reply 404 "no_submission", store')
              | some sub ↦ (payload_reply sub, store')
            ]
      ]

  -- A payload that is no object is put into one.
  as_dict : Json → Json
  as_dict (obj fields) = obj fields
  as_dict payload = obj (field "value" payload end)

  -- The turn that resumes the agent.
  enqueue_turn : ArtifactRow → SubmissionRow → ℕ → Ledger → Result String Ledger
  enqueue_turn row sub message_id l =
      let content = join "" (
        "Interactive response submitted for \""
        ∷ row.title
        ∷ "\".\nSummary: "
        ∷ sub.summary_text
        ∷ "\nFull payload artifact: "
        ∷ deps.show_uuid sub.artifact_id
        ∷ "\nSubmission id: "
        ∷ sub.submission_id
        ∷ []) in
      enqueue_agent_turn row.creator_agent_id row.source_channel row.source_topic content stream
        none
        (by_submission (record {
          artifact_id = sub.artifact_id;
          submission_id = sub.submission_id;
          zulip_message_id = message_id;
        }))
        none l

  -- A failure to post is logged only.
  unfoldable pub sent :
      ArtifactRow → SubmissionRow → RouteState → Result String ℕ → Reply × RouteState
  unfolding enqueue_turn
  sent row sub s (raised e) = (accepted_reply sub.summary_text sub.summary_status, s)
  sent row sub s (ok message_id) = elim (enqueue_turn row sub message_id s.ledger) [
    | raised e ↦ (server_error e, s)
    | ok ledger ↦ (accepted_reply sub.summary_text sub.summary_status, record s { ledger = ledger })
  ]

  -- What an accepted submission causes: the visible summary, and then the turn.
  unfoldable pub resume : ArtifactRow → SubmissionRow → String → RouteState → Reply × RouteState
  resume row sub token s =
      let url = join "" (
        deps.base_url
        ∷ "/ui/artifacts/"
        ∷ deps.show_uuid sub.artifact_id
        ∷ "/payload?token="
        ∷ token
        ∷ []) in
      let message : Posted = record {
        channel = row.source_channel;
        topic = row.source_topic;
        content =
            join "" (
              "Interactive response submitted: " ∷ sub.summary_text ∷ "\nFull payload: " ∷ url
              ∷ []);
      } in
      let reply = accepted_reply sub.summary_text sub.summary_status in
      let said = record s { posted = message ∷ s.posted } in
      elim (deps.resolve_agent row.creator_agent_id) [
        | raised e ↦ (server_error e, s)
        | ok none ↦ (reply, s)
        | ok (some agent) ↦ sent row sub said (deps.send_message s.posted message)
      ]

  -- The answer to what the store made of the submission.
  unfoldable pub answer :
      ArtifactRow → SubmissionRow → String → SubmissionResult → RouteState → Reply × RouteState
  answer row sub token result s = elim result.outcome [
    | conflict ↦ (error_reply 409 "already_submitted", s)
    | was_expired ↦ (error_reply 410 "expired", s)
    | was_revoked ↦ (error_reply 410 "revoked", s)
    | duplicate ↦ elim result.submission [
      | none ↦ (duplicate_reply sub.summary_text, s)
      | some w ↦ (duplicate_reply w.summary_text, s)
    ]
    | accepted ↦ resume row sub token s
  ]

  -- A submission with the body read.
  unfoldable pub submit_body :
      ℕ → String → (ℕ → ℕ) → ArtifactRow → SubmitBody → RouteState → Reply × RouteState
  unfolding as_dict
  submit_body artifact_id token clock row body s =
      let (text, model, status) =
        summarize_payload deps.dumps deps.complete deps.summary_model row.title body.payload in
      let sub : SubmissionRow = record {
        artifact_id = artifact_id;
        submission_id = body.submission_id;
        payload_full = as_dict body.payload;
        summary_text = text;
        summary_model = model;
        summary_status = status;
      } in
      let (result, store, events) = accept_submission sub (λ x. x) clock s.store in
      answer row sub token result (record s { store = store })

  unfoldable pub read_body :
      ℕ → String → List ℕ → (ℕ → ℕ) → ArtifactRow → RouteState → Reply × RouteState
  read_body artifact_id token raw clock row s =
      if ltb deps.max_payload_bytes (length raw)
      then (error_reply 413 "payload_too_large", s)
      else elim (deps.parse raw) [
        | none ↦ (error_reply 400 "invalid_body", s)
        | some body ↦ submit_body artifact_id token (λ i. clock (suc i)) row body s
      ]

  unfoldable pub submit : ℕ → String → List ℕ → (ℕ → ℕ) → RouteState → Reply × RouteState
  submit artifact_id token raw clock s =
      let (found, store) = load artifact_id token (clock 0) s.store in
      let s' = record s { store = store } in
      elim found [
        | none ↦ (error_reply 404 "not_found", s')
        | some row ↦ elim row.status [
          | expired ↦ (error_reply 410 "expired", s')
          | revoked ↦ (error_reply 410 "revoked", s')
          | opened ↦ read_body artifact_id token raw clock row s'
          | submitted ↦ read_body artifact_id token raw clock row s'
        ]
      ]

-- A request to submit, with the readings of the clock.
pub record Request : Type 0 where
  pub artifact_id : ℕ
  pub token : String
  pub raw : List ℕ
  pub clock : ℕ → ℕ

unfoldable pub submissions : RouteDeps → List Request → RouteState → RouteState
submissions deps [] s = s
submissions deps (r ∷ requests) s =
    submissions deps requests (submit deps r.artifact_id r.token r.raw r.clock s).1
