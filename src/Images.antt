-- ===== src/Images.antt =====
-- control-plane/src/control_plane/services/generated_media_store.py with its row of db/tables.py: the
-- images that agents made. `sha256` is a parameter; the column `data` is `bytes`, a list of
-- numbers.
pub mod Inputs
pub mod Tool
use moomacha.Base.{ℕ, String, Option, none, some, List, ◌∷◌, length, get, update}
use moomacha.Base.Json.{Fields}

pub record MediaRow : Type 0 where
  pub id : ℕ
  pub creator_agent_id : ℕ
  pub source_channel : String
  pub source_topic : String
  pub source_message_id : Option ℕ
  pub conversation_type : String
  pub prompt : String
  pub revised_prompt : Option String
  pub model : String
  pub params : Fields
  pub mime_type : String
  pub filename : String
  pub sha256 : String
  pub byte_length : ℕ
  pub bytes : List ℕ
  pub storage_backend : String
  pub storage_ref : Option String
  pub zulip_upload_url : Option String
  pub zulip_message_id : Option ℕ
  pub created_at : ℕ

-- The keyword arguments of `create`.
pub record NewMedia : Type 0 where
  pub artifact_id : Option ℕ
  pub creator_agent_id : ℕ
  pub source_channel : String
  pub source_topic : String
  pub source_message_id : Option ℕ
  pub conversation_type : String
  pub prompt : String
  pub revised_prompt : Option String
  pub model : String
  pub params : Fields
  pub mime_type : String
  pub filename : String
  pub bytes : List ℕ
  pub storage_backend : String
  pub storage_ref : Option String

pub data MediaEvent : Type 0 where
  generated_media_created generated_media_posted : MediaRow → MediaEvent

pub record MediaStore : Type 0 where
  pub rows : List MediaRow
  pub events : List MediaEvent

abbrev pub media_id : MediaRow → ℕ
media_id r = r.id

abbrev or_uuid : Option ℕ → ℕ → ℕ
or_uuid none uuid = uuid
or_uuid (some id) uuid = id

-- The row that is stored, and the event, the newest first.
unfoldable pub create_media :
    (List ℕ → String) → (uuid now : ℕ) → NewMedia → MediaStore → MediaRow × MediaStore
create_media sha256 uuid now new store =
    let row : MediaRow = record {
      id = or_uuid new.artifact_id uuid;
      creator_agent_id = new.creator_agent_id;
      source_channel = new.source_channel;
      source_topic = new.source_topic;
      source_message_id = new.source_message_id;
      conversation_type = new.conversation_type;
      prompt = new.prompt;
      revised_prompt = new.revised_prompt;
      model = new.model;
      params = new.params;
      mime_type = new.mime_type;
      filename = new.filename;
      sha256 = sha256 new.bytes;
      byte_length = length new.bytes;
      bytes = new.bytes;
      storage_backend = new.storage_backend;
      storage_ref = new.storage_ref;
      zulip_upload_url = none;
      zulip_message_id = none;
      created_at = now;
    } in
    (row, record { rows = row ∷ store.rows; events = generated_media_created row ∷ store.events })

abbrev pub with_post : String → ℕ → MediaRow → MediaRow
with_post url message_id r = record r {
  zulip_upload_url = some url;
  zulip_message_id = some message_id;
}

-- A missing row raises KeyError.
unfoldable pub mark_posted :
    (artifact_id : ℕ) (zulip_upload_url : String) (zulip_message_id : ℕ)
    → MediaStore
    → Option MediaRow × MediaStore
mark_posted artifact_id url message_id store = elim (get media_id artifact_id store.rows) [
  | none ↦ (none, store)
  | some row ↦ (
    some (with_post url message_id row),
    record {
      rows = update media_id artifact_id (with_post url message_id) store.rows;
      events = generated_media_posted (with_post url message_id row) ∷ store.events;
    },
  )
]
