-- ===== src/Images/Tool.antt =====
-- control-plane/src/control_plane/runtime/tools/images.py: the tool that makes an image, stores it and
-- posts it. A client's creation and closing do not fail.
pub mod Bound
use moomacha.Base.{
  ℕ, String, ◌<>◌, Bool, true, false, not, ◌&&◌, ◌||◌, Option, none, some, List, [], ◌∷◌, str_eq,
  ltb, leb, if◌then◌else◌, length,
}
use moomacha.Base.Json.{str, obj, Fields, end, field}
use moomacha.Base.Results.{Result, ok, raised}
use moomacha.Base.Text.{slice_to, show}
use moomacha.Memory.Names.{squash, drop_first, drop_last}
use moomacha.ToolAccess.{contains, ToolResult, ToolContext}
use moomacha.Images.{create_media, mark_posted, MediaRow, NewMedia}
use moomacha.Images.Inputs.{
  allowed_sizes, mime_type_of, Answer, GenerateImageInput, GenerationArgs, ImageData, ImageResponse,
  ImageEffect, generated, closed, uploaded, sent_direct, sent_message, World, ImageConfig,
}

-- `value or otherwise`
unfoldable pub or_text : Option String → String → String
or_text none otherwise = otherwise
or_text (some s) otherwise = if str_eq s "" then otherwise else s

is_slug : ℕ → Bool
is_slug c = leb 97 c && leb c 122 || leb 48 c && leb c 57

agent_slug : (String → String) → String → String
unfolding is_slug or_text
agent_slug lower name =
    slice_to 40
      (or_text (some (drop_last (drop_first (squash is_slug false (lower name))))) "agent")

opt_field : String → Option String → Fields → Fields
opt_field k none rest = rest
opt_field k (some v) rest = field k (str v) rest

response_params : ImageResponse → Fields
unfolding opt_field
response_params response = opt_field "size" response.size (
    opt_field "quality" response.quality (
      opt_field "output_format" response.output_format
        (opt_field "background" response.background end)))

-- The fields that `_requested_params` gives, in front of others.
requested_params : (size quality output_format : String) → Option String → Fields → Fields
unfolding opt_field
requested_params size quality output_format background rest = field "size" (str size) (
    field "quality" (str quality)
      (field "output_format" (str output_format) (opt_field "background" background rest)))

unfoldable pub said : String → Result String ToolResult
said content = ok (record { success = true; content = content })

unfoldable pub refused : String → Result String ToolResult
refused content = ok (record { success = false; content = content })

unfoldable pub doing : ImageEffect → World → World
doing e w = record { store = w.store; effects = e ∷ w.effects }

some_ids : Option (List ℕ) → List ℕ
some_ids none = []
some_ids (some ids) = ids

pub has_none : Option (List ℕ) → Bool
has_none none = true
has_none (some []) = true
has_none (some (_ ∷ _)) = false

module _ (config : ImageConfig) (inp : GenerateImageInput) (ctx : ToolContext) (uuid now : ℕ) where
  unfoldable pub size_of : String
  unfolding or_text
  size_of = or_text inp.size config.default_size

  pub quality_of : String
  unfolding or_text
  quality_of = or_text inp.quality config.default_quality

  unfoldable pub format_of : String
  unfolding or_text
  format_of = or_text inp.output_format config.default_format

  unfoldable pub is_transparent : Bool
  is_transparent = elim inp.background [ none ↦ false | some b ↦ str_eq b "transparent" ]

  chat_message : MediaRow → String → String
  unfolding or_text
  chat_message row url =
      "Generated image: "
      <> (or_text inp.title "Generated image"
          <> ("\n["
              <> (row.filename <> ("](" <> (url <> (")\nArtifact: " <> config.show_uuid row.id))))))

  -- The message that is sent.
  pub posting : MediaRow → String → ImageEffect
  unfolding chat_message some_ids
  posting row url =
      if str_eq ctx.conversation_type "direct"
      then sent_direct (some_ids ctx.direct_recipient_ids) (chat_message row url)
      else sent_message ctx.channel ctx.topic (chat_message row url)

  -- The row is marked, which raises KeyError when it is gone.
  unfoldable pub mark_row : MediaRow → String → ℕ → World → Answer
  unfolding said
  mark_row row url message_id w =
      let (marked, store) = mark_posted row.id url message_id w.store in
      (
        elim marked [
          | none ↦ raised "generated media artifact not found"
          | some _ ↦ said (
              "Generated image artifact "
              <> (config.show_uuid row.id <> (" and posted it to Zulip: " <> url)))
        ],
        record { store = store; effects = w.effects },
      )

  unfoldable pub post : MediaRow → String → World → Answer
  unfolding doing
  post row url w =
      let w' = doing (posting row url) w in
      elim (config.send w'.effects) [
        | raised e ↦ (raised e, w')
        | ok message_id ↦ mark_row row url message_id w'
      ]

  unfoldable pub upload_image : MediaRow → World → Answer
  unfolding doing or_text
  upload_image row w =
      let w' = doing (uploaded row.filename row.bytes row.mime_type) w in
      elim (config.upload w'.effects) [
        | raised e ↦ (raised e, w')
        | ok answer ↦
            let url = or_text answer.url (or_text answer.uri "") in
            if str_eq url ""
            then (refused "Zulip upload succeeded but returned no upload URL.", w')
            else post row url w'
      ]

  unfoldable pub new_media : ImageResponse → ImageData → (mime_type : String) → List ℕ → NewMedia
  unfolding agent_slug requested_params response_params
  new_media response first mime_type bytes = record {
    artifact_id = some uuid;
    creator_agent_id = ctx.agent.id;
    source_channel = ctx.channel;
    source_topic = ctx.topic;
    source_message_id = ctx.source_message_id;
    conversation_type = ctx.conversation_type;
    prompt = inp.prompt;
    revised_prompt = first.revised_prompt;
    model = config.model;
    params =
        requested_params size_of quality_of format_of inp.background
          (field "response" (obj (response_params response)) end);
    mime_type = mime_type;
    filename =
        agent_slug config.lower ctx.agent.name
        <> ("-" <> (config.show_uuid uuid <> ("." <> format_of)));
    bytes = bytes;
    storage_backend = "postgres_binary";
    storage_ref = none;
  }

  unfoldable pub keep_image :
      ImageResponse → ImageData → (mime_type : String) → List ℕ → World → Answer
  keep_image response first mime_type bytes w =
      if ltb config.max_bytes (length bytes)
      then (refused ("Generated image is too large (" <> (show (length bytes) <> " bytes).")), w)
      else let (row, store) =
          create_media config.sha256 uuid now (new_media response first mime_type bytes) w.store in
        upload_image row (record { store = store; effects = w.effects })

  -- The first image of the response, decoded.
  unfoldable pub decode : (mime_type : String) → ImageResponse → World → Answer
  decode mime_type response w = elim response.images [
    | [] ↦ (refused "OpenAI returned no image data.", w)
    | first ∷ _ ↦
        let b64_json = or_text first.b64_json "" in
        if str_eq b64_json ""
        then (refused "OpenAI returned no base64 image data.", w)
        else elim (config.b64decode b64_json) [
          | none ↦ (refused "OpenAI returned invalid base64 image data.", w)
          | some bytes ↦ keep_image response first mime_type bytes w
        ]
  ]

  pub generation_args : GenerationArgs
  generation_args = record {
    model = config.model;
    prompt = inp.prompt;
    size = size_of;
    quality = quality_of;
    output_format = format_of;
    n = 1;
    timeout = config.timeout_s;
    background = inp.background;
  }

  -- The client is closed whether the call failed or not.
  unfoldable pub request : (mime_type : String) → World → Answer
  unfolding doing
  request mime_type w =
      let asked = doing (generated generation_args) w in
      let w' = doing closed asked in
      elim (config.generate asked.effects) [
        | raised e ↦ (raised e, w')
        | ok response ↦ decode mime_type response w'
      ]

  unfoldable pub generate_supported : (mime_type : String) → World → Answer
  generate_supported mime_type w =
      if is_transparent && str_eq format_of "jpeg"
      then (refused "Transparent backgrounds require png or webp output.", w)
      else if is_transparent && str_eq config.model "gpt-image-2"
      then (refused "Transparent backgrounds are not supported by gpt-image-2; use opaque/auto.", w)
      else if str_eq ctx.conversation_type "direct" && has_none ctx.direct_recipient_ids
      then (
        refused
            "Image generation in direct messages needs Zulip recipient ids, but none were available.",
        w,
      )
      else request mime_type w

  unfoldable pub generate_image : World → Answer
  generate_image w =
      if not (contains size_of allowed_sizes)
      then (refused ("Configured image size '" <> (size_of <> "' is not supported.")), w)
      else elim (mime_type_of format_of) [
        | none ↦ (refused ("Configured image format '" <> (format_of <> "' is not supported.")), w)
        | some mime_type ↦ generate_supported mime_type w
      ]
