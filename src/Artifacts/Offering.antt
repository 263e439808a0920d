-- ===== src/Artifacts/Offering.antt =====
-- control-plane/src/control_plane/runtime/tools/interactive_response.py: the tool that creates an
-- artifact and posts its link. The title and the page come from the model, all else from the turn; the
-- bounds on their lengths are the input type's, and `send_message` is a parameter;
-- `base_url` is without its last slash.
use Prim.Native.Nat.{◌/◌, ◌%◌}
use moomacha.Artifacts.{art_id, get_verified, opened, ArtifactRow, Store}
use moomacha.Artifacts.Laws.{get_verified_iff}
use moomacha.Base.{
  ℕ, ◌+◌, ◌*◌, ◌≤◌, String, ◌<>◌, ◌≡◌, refl, sym, subst, true, false, not, Option, none, some, List,
  [], ◌∷◌, ◌++◌, arith, str_eq, ltb, ◌==◌, if◌then◌else◌, ==_refl, get,
}
use moomacha.Base.Text.{show, join, utf8_length}
use moomacha.Base.Results.{Result, ok, raised}
use moomacha.ToolAccess.{ToolResult, ToolContext}
use moomacha.Artifacts

pub record CreateInput : Type 0 where
  pub title : String
  pub html : String
  pub expires_in_minutes : Option ℕ

pub record Config : Type 0 where
  pub hash_token : String → String
  pub show_uuid : ℕ → String
  pub base_url : String
  pub default_expiry_minutes : ℕ
  pub max_expiry_minutes : ℕ
  pub max_html_bytes : ℕ

-- What was sent: the place and the text.
abbrev Sent : Type 0
Sent = String × String × String

plural : ℕ → String → String
plural n unit = show n <> (" " <> (unit <> (if n == 1 then "" else "s")))

pub humanize_expiry : ℕ → String
unfolding plural
humanize_expiry minutes =
    if minutes % 1440 == 0
    then plural (minutes / 1440) "day"
    else if minutes % 60 == 0
    then plural (minutes / 60) "hour"
    else show minutes <> " minutes"

-- The tool's answer: a failure to post is an exception, and the artifact stays.
posted : String → Result String ℕ → Result String ToolResult
posted content (raised e) = raised e
posted content (ok _) = ok (record { success = true; content = content })

module _ (config : Config) where
  -- `inp.expires_in_minutes or default`, clamped.
  pub clamped : Option ℕ → ℕ
  clamped asked =
      let minutes : ℕ = elim asked [
        | none ↦ config.default_expiry_minutes
        | some n ↦ if n == 0 then config.default_expiry_minutes else n
      ] in
      if ltb config.max_expiry_minutes minutes then config.max_expiry_minutes else minutes

  abbrev pub url_of : ℕ → String → String
  url_of id token =
      join "" (config.base_url ∷ "/ui/artifacts/" ∷ config.show_uuid id ∷ "?token=" ∷ token ∷ [])

  -- The tool's answer or the exception of the post, the store, and what was sent.
  pub create_interactive_response :
      (uuid : ℕ) (raw_token : String) (now : ℕ) (send_message : Sent → Result String ℕ)
      → CreateInput
      → ToolContext
      → Store
      → Result String ToolResult × Store × List Sent
  unfolding humanize_expiry posted
  create_interactive_response uuid raw_token now send_message inp ctx store =
      if not (str_eq ctx.conversation_type "stream")
      then (
        ok (record {
          success = false;
          content =
              "Interactive responses aren't supported in direct messages yet — ask me in a channel topic instead.";
        }),
        store,
        [],
      )
      else if ltb config.max_html_bytes (utf8_length inp.html)
      then (
        ok (record {
          success = false;
          content = "HTML too large (max " <> (show config.max_html_bytes <> " bytes).");
        }),
        store,
        [],
      )
      else let minutes = clamped inp.expires_in_minutes in
        let ((row, token), store', events) =
          Artifacts.create config.hash_token uuid raw_token inp.title inp.html ctx.agent.id
            ctx.channel ctx.topic ctx.source_message_id (now + minutes * 60000000) "stream" store in
        let url = url_of row.id token in
        let message = join "" (
          "Interactive response from "
          ∷ ctx.agent.name
          ∷ ": "
          ∷ inp.title
          ∷ "\n"
          ∷ url
          ∷ "\n\nExpires in "
          ∷ humanize_expiry minutes
          ∷ "."
          ∷ []) in
        let sent : Sent = (ctx.channel, ctx.topic, message) in
        let content = join "" (
          "Posted interactive response '" ∷ inp.title ∷ "' to #" ∷ ctx.channel ∷ " > " ∷ ctx.topic
          ∷ ". Link: " ∷ url ∷ []) in
        (posted content (send_message sent), store', sent ∷ [])

  clamped-le-max : (asked : Option ℕ) → clamped asked ≤ config.max_expiry_minutes
  unfolding clamped
  clamped-le-max none = ground arith
  clamped-le-max (some n) = ground arith

  offered : ℕ → String → ℕ → CreateInput → ToolContext → ArtifactRow
  offered uuid raw_token now inp ctx = record {
    id = uuid;
    title = inp.title;
    html_body = inp.html;
    creator_agent_id = ctx.agent.id;
    source_channel = ctx.channel;
    source_topic = ctx.topic;
    source_message_id = ctx.source_message_id;
    conversation_type = "stream";
    token_hash = config.hash_token raw_token;
    status = opened;
    expires_at = now + clamped inp.expires_in_minutes * 60000000;
    submitted_at = none;
  }

  offers :
      (uuid : ℕ) (raw_token : String) (now : ℕ) (send_message : Sent → Result String ℕ)
      (inp : CreateInput) (ctx : ToolContext) (store : Store)
      → str_eq ctx.conversation_type "stream" ≡ true
      → utf8_length inp.html ≤ config.max_html_bytes
      → (create_interactive_response uuid raw_token now send_message inp ctx store).1
        ≡ record store { artifacts = offered uuid raw_token now inp ctx ∷ store.artifacts }
  unfolding create_interactive_response Artifacts.create offered
  offers uuid raw_token now send_message inp ctx store stream small =
      let fits : ltb config.max_html_bytes (utf8_length inp.html) ≡ false = ground (arith, small) in
      rw (stream, fits) refl

  -- The link as the browser reads it.
  abbrev pub link : ℕ → String → String
  link uuid token =
      join "" (config.base_url ∷ "/ui/artifacts/" ∷ config.show_uuid uuid ∷ "?token=" ∷ token ∷ [])

  -- A text with the link in it.
  abbrev pub Shows : String → ℕ → String → Type 0
  Shows text uuid token =
      (before : List String) × (after : List String) × (text
        ≡ join "" (before ++ link uuid token ∷ after))

  -- What is posted is one message to the topic, with the link in it.
  posts :
      (uuid : ℕ) (raw_token : String) (now : ℕ) (send_message : Sent → Result String ℕ)
      (inp : CreateInput) (ctx : ToolContext) (store : Store)
      → str_eq ctx.conversation_type "stream" ≡ true
      → utf8_length inp.html ≤ config.max_html_bytes
      → (text : String) × ((create_interactive_response uuid raw_token now send_message inp ctx
            store).2
          ≡ (ctx.channel, ctx.topic, text) ∷ [])
        × Shows text uuid raw_token
  unfolding create_interactive_response Artifacts.create join
  posts uuid raw_token now send_message inp ctx store stream small =
      let fits : ltb config.max_html_bytes (utf8_length inp.html) ≡ false = ground (arith, small) in
      rw (stream, fits)
        (
          _,
          refl,
          (
            "Interactive response from " ∷ ctx.agent.name ∷ ": " ∷ inp.title ∷ "\n" ∷ [],
            "\n\nExpires in " ∷ humanize_expiry (clamped inp.expires_in_minutes) ∷ "." ∷ [],
            refl,
          ),
        )

  -- In a stream topic, with a page within the limit, whatever the post does: one message goes to
  -- the topic, with the link of an artifact and a token in it, and that token opens that artifact,
  -- which is open, of the agent and the topic, and expires within the greatest time allowed.
  pub offered_opens :
      (uuid : ℕ) (raw_token : String) (now : ℕ) (send_message : Sent → Result String ℕ)
      (inp : CreateInput) (ctx : ToolContext) (store : Store)
      → str_eq ctx.conversation_type "stream" ≡ true
      → utf8_length inp.html ≤ config.max_html_bytes
      → (text : String) × ((create_interactive_response uuid raw_token now send_message inp ctx
            store).2
          ≡ (ctx.channel, ctx.topic, text) ∷ [])
        × Shows text uuid raw_token
        × (row : ArtifactRow) × (get_verified config.hash_token uuid raw_token
              (create_interactive_response uuid raw_token now send_message inp ctx store).1
            ≡ some row)
        × (row.status ≡ opened)
        × (row.creator_agent_id ≡ ctx.agent.id)
        × (row.source_channel ≡ ctx.channel)
        × (row.source_topic ≡ ctx.topic)
        × (row.expires_at ≤ now + config.max_expiry_minutes * 60000000)
  unfolding offered get
  offered_opens uuid raw_token now send_message inp ctx store stream small =
      let stored : get art_id uuid (offered uuid raw_token now inp ctx ∷ store.artifacts)
          ≡ some (offered uuid raw_token now inp ctx) =
        ground (arith, ==_refl uuid) in
      let (text, sent, shows) = posts uuid raw_token now send_message inp ctx store stream small in
      (
        text,
        sent,
        shows,
        offered uuid raw_token now inp ctx,
        subst
            (λ t.
              get_verified config.hash_token uuid raw_token t
              ≡ some (offered uuid raw_token now inp ctx))
            (sym (offers uuid raw_token now send_message inp ctx store stream small))
            ((get_verified_iff config.hash_token uuid raw_token
                (record store { artifacts = offered uuid raw_token now inp ctx ∷ store.artifacts })
                (offered uuid raw_token now inp ctx)).1
              (stored, refl)),
        refl,
        refl,
        refl,
        refl,
        ground (arith, clamped-le-max inp.expires_in_minutes),
      )
