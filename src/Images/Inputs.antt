-- ===== src/Images/Inputs.antt =====
-- control-plane/src/control_plane/runtime/tools/images.py: the input of the image tool, its requests and
-- what it is configured with. OpenAI and Zulip are parameters that answer the newest effect; so are
-- `b64decode`, which may refuse a text, `lower`, `sha256` and the text of a uuid. The `data` of a
-- response is `images`. Titles are given as their validator leaves them.
use moomacha.Base.{ℕ, String, ◌<>◌, Option, none, some, List, [], ◌∷◌, str_eq, ltb, if◌then◌else◌}
use moomacha.Base.Results.{Result, ok, raised}
use moomacha.Base.Text.{show, strip, chars}
use moomacha.ToolAccess.{contains, ToolResult}
use moomacha.Images.{MediaStore}

-- After validation; `title` has its spaces squeezed already.
pub record GenerateImageInput : Type 0 where
  pub prompt : String
  pub title : Option String
  pub size : Option String
  pub quality : Option String
  pub output_format : Option String
  pub background : Option String

max_prompt_chars : ℕ
max_prompt_chars = 32000

pub validate_prompt : String → Result String String
unfolding max_prompt_chars
validate_prompt value =
    let prompt = strip value in
    if str_eq prompt ""
    then raised "prompt must not be empty"
    else if ltb max_prompt_chars (chars prompt)
    then raised ("prompt must be at most " <> (show max_prompt_chars <> " characters"))
    else ok prompt

abbrev pub allowed_sizes : List String
allowed_sizes = "1024x1024" ∷ "1536x1024" ∷ "1024x1536" ∷ "auto" ∷ []

unfoldable pub mime_type_of : String → Option String
mime_type_of format =
    if str_eq format "png"
    then some "image/png"
    else if str_eq format "jpeg"
    then some "image/jpeg"
    else if str_eq format "webp"
    then some "image/webp"
    else none

pub validate_size : Option String → Result String (Option String)
validate_size none = ok none
validate_size (some size) =
    if contains size allowed_sizes
    then ok (some size)
    else raised "size must be one of ['1024x1024', '1024x1536', '1536x1024', 'auto']"

pub record GenerationArgs : Type 0 where
  pub model : String
  pub prompt : String
  pub size : String
  pub quality : String
  pub output_format : String
  pub n : ℕ
  pub timeout : ℕ
  pub background : Option String

pub record ImageData : Type 0 where
  pub b64_json : Option String
  pub revised_prompt : Option String

pub record ImageResponse : Type 0 where
  pub images : List ImageData
  pub size : Option String
  pub quality : Option String
  pub output_format : Option String
  pub background : Option String

pub record Upload : Type 0 where
  pub url : Option String
  pub uri : Option String

pub data ImageEffect : Type 0 where
  generated : GenerationArgs → ImageEffect
  closed : ImageEffect
  uploaded : (filename : String) → (content : List ℕ) → (content_type : String) → ImageEffect
  sent_direct : List ℕ → String → ImageEffect
  sent_message : (channel topic text : String) → ImageEffect

pub record World : Type 0 where
  pub store : MediaStore
  pub effects : List ImageEffect

abbrev pub Answer : Type 0
Answer = Result String ToolResult × World

pub record ImageConfig : Type 0 where
  pub model : String
  pub default_size : String
  pub default_quality : String
  pub default_format : String
  pub timeout_s : ℕ
  pub max_bytes : ℕ
  pub generate : List ImageEffect → Result String ImageResponse
  pub b64decode : String → Option (List ℕ)
  pub upload : List ImageEffect → Result String Upload
  pub send : List ImageEffect → Result String ℕ
  pub lower : String → String
  pub sha256 : List ℕ → String
  pub show_uuid : ℕ → String
