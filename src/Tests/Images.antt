-- ===== src/Tests/Images.antt =====
-- The image tool on a service that answers three bytes, in the turn of the submissions' tests.
use moomacha.Base.{◌≡◌, refl, true, false, none, some, [], ◌∷◌, get}
use moomacha.Base.Text.{show}
use moomacha.Base.Results.{ok}
use moomacha.ToolAccess.{contains}
use moomacha.Images.{create_media, mark_posted}
use moomacha.Images.Inputs.{mime_type_of, GenerateImageInput, World, ImageConfig}
use moomacha.Images.Tool.{
  or_text, said, refused, doing, size_of, format_of, is_transparent, mark_row, post, upload_image,
  new_media, keep_image, decode, request, generate_supported, generate_image,
}
use moomacha.Images.Tool.Bound.{IsBounded, generate_image-Bounded}
use moomacha.Tests.Submissions.{context}

abbrev input : GenerateImageInput
input = record {
  prompt = "a map";
  title = none;
  size = none;
  quality = none;
  output_format = some "webp";
  background = some "transparent";
}

abbrev config : ImageConfig
config = record {
  model = "gpt-image-1";
  default_size = "auto";
  default_quality = "low";
  default_format = "jpeg";
  timeout_s = 60;
  max_bytes = 3;
  generate = λ sent. ok (record {
    images = record { b64_json = some "AQID"; revised_prompt = none } ∷ [];
    size = some "1024x1024";
    quality = none;
    output_format = some "webp";
    background = none;
  });
  b64decode = λ s. some (1 ∷ 2 ∷ 3 ∷ []);
  upload = λ sent. ok (record { url = none; uri = some "/user_uploads/map" });
  send = λ sent. ok 70;
  lower = λ s. s;
  sha256 = λ bytes. "sha";
  show_uuid = λ id. "uuid";
}

abbrev fresh : World
fresh = record { store = record { rows = []; events = [] }; effects = [] }

the_image :
    (generate_image config input context 9 10 fresh).0
    ≡ ok (record {
      success = true;
      content = "Generated image artifact uuid and posted it to Zulip: /user_uploads/map";
    })
unfolding generate_image generate_supported request decode keep_image upload_image post mark_row
    or_text is_transparent format_of size_of said refused doing new_media mime_type_of contains show
    create_media mark_posted get
the_image = refl

-- The limit is one byte below the image.
abbrev tight : ImageConfig
tight = record config { max_bytes = 2 }

the_large_image :
    (generate_image tight input context 9 10 fresh).0
    ≡ ok (record { success = false; content = "Generated image is too large (3 bytes)." })
unfolding generate_image generate_supported request decode keep_image upload_image post mark_row
    or_text is_transparent format_of size_of said refused doing new_media mime_type_of contains show
    create_media mark_posted get
the_large_image = refl

generate_image-Bounded_example : IsBounded 3 (generate_image config input context 9 10 fresh).1
generate_image-Bounded_example = generate_image-Bounded config input context 9 10 fresh (tt, tt)
