-- ===== src/Images/Tool/Bound.antt =====
-- The limit on the bytes of an image: what the tool of Images/Tool stores and uploads keeps to it.
use moomacha.Base.{
  ℕ, ◌≤◌, String, ◌≡◌, refl, not, ◌&&◌, Option, List, [], ◌∷◌, arith, str_eq, ltb, ◌==◌, if_ind,
  Option_ind, length, All, get, update,
}
use moomacha.Base.Results.{result_ind}
use moomacha.ToolAccess.{contains, ToolContext}
use moomacha.Images.{media_id, create_media, with_post, mark_posted, MediaRow, MediaStore}
use moomacha.Images.Inputs.{
  allowed_sizes, mime_type_of, Answer, GenerateImageInput, ImageData, ImageResponse, ImageEffect,
  generated, closed, uploaded, sent_direct, sent_message, World, ImageConfig,
}
use moomacha.Images.Tool.{
  or_text, doing, has_none, size_of, format_of, is_transparent, posting, mark_row, post,
  upload_image, new_media, keep_image, decode, generation_args, request, generate_supported,
  generate_image,
}

pub IsKept : ℕ → MediaRow → Type 0
IsKept max r = (r.byte_length ≡ length r.bytes) × (r.byte_length ≤ max)

-- An image that is uploaded is within the limit.
pub Fits : ℕ → ImageEffect → Type 0
Fits max (uploaded filename content content_type) = length content ≤ max
Fits max (generated args) = Unit
Fits max closed = Unit
Fits max (sent_direct ids text) = Unit
Fits max (sent_message channel topic text) = Unit

abbrev pub IsBounded : ℕ → World → Type 0
IsBounded max w = All (IsKept max) w.store.rows × All (Fits max) w.effects

list_ind {ℓ μ ν} :
    {A : Type ℓ} {B : Type μ} (P : B → Type ν) (xs : List A) {n : B} {f : A → List A → B}
    → P n
    → ((a : A) (rest : List A) → P (f a rest))
    → P (elim xs [ [] ↦ n | a ∷ rest ↦ f a rest ])
list_ind P [] empty filled = empty
list_ind P (a ∷ rest) empty filled = filled a rest

update-IsKept :
    (max k : ℕ) (url : String) (message_id : ℕ) (rows : List MediaRow)
    → All (IsKept max) rows
    → All (IsKept max) (update media_id k (with_post url message_id) rows)
unfolding update IsKept
update-IsKept max k url message_id [] h = tt
update-IsKept max k url message_id (r ∷ rows) h = (
  if_ind (IsKept max) (media_id r == k) (λ here. h.0) (λ other. h.0),
  update-IsKept max k url message_id rows h.1,
)

mark_posted-IsKept :
    (max k : ℕ) (url : String) (message_id : ℕ) (store : MediaStore)
    → All (IsKept max) store.rows
    → All (IsKept max) (mark_posted k url message_id store).1.rows
unfolding mark_posted
mark_posted-IsKept max k url message_id store h =
    Option_ind (λ (x : Option MediaRow × MediaStore). All (IsKept max) x.1.rows)
      (get media_id k store.rows) (λ e. h)
      (λ row e. update-IsKept max k url message_id store.rows h)

module _ (config : ImageConfig) (inp : GenerateImageInput) (ctx : ToolContext) (uuid now : ℕ) where
  abbrev max : ℕ
  max = config.max_bytes

  abbrev Holds : Answer → Type 0
  Holds a = IsBounded max a.1

  post-Holds :
      (row : MediaRow) (url : String) (w : World)
      → IsBounded max w
      → Holds (post config inp ctx uuid now row url w)
  unfolding post mark_row posting doing Fits
  post-Holds row url w h =
      let fits : All (Fits max) (posting config inp ctx uuid now row url ∷ w.effects) =
        (if_ind (Fits max) (str_eq ctx.conversation_type "direct") (λ d. tt) (λ s. tt), h.1) in
      result_ind Holds (config.send (posting config inp ctx uuid now row url ∷ w.effects))
        (λ e. (h.0, fits))
        (λ message_id. (mark_posted-IsKept max row.id url message_id w.store h.0, fits))

  upload_image-Holds :
      (row : MediaRow) (w : World)
      → IsBounded max w
      → length row.bytes ≤ max
      → Holds (upload_image config inp ctx uuid now row w)
  unfolding upload_image doing Fits
  upload_image-Holds row w h within =
      result_ind Holds (config.upload (uploaded row.filename row.bytes row.mime_type ∷ w.effects))
        (λ e. (h.0, (within, h.1)))
        (λ answer.
          if_ind Holds (str_eq (or_text answer.url (or_text answer.uri "")) "")
            (λ empty. (h.0, (within, h.1))) (λ filled. post-Holds row _ _ (h.0, (within, h.1))))

  keep_image-Holds :
      (response : ImageResponse) (first : ImageData) (mime_type : String) (bytes : List ℕ)
      (w : World)
      → IsBounded max w
      → Holds (keep_image config inp ctx uuid now response first mime_type bytes w)
  unfolding keep_image IsKept create_media new_media
  keep_image-Holds response first mime_type bytes w h =
      if_ind Holds (ltb max (length bytes)) (λ large. h)
        (λ small.
          let within : length bytes ≤ max = ground arith in
          upload_image-Holds _ _ (((refl, within), h.0), h.1) within)

  decode-Holds :
      (mime_type : String) (response : ImageResponse) (w : World)
      → IsBounded max w
      → Holds (decode config inp ctx uuid now mime_type response w)
  unfolding decode
  decode-Holds mime_type response w h = list_ind Holds response.images h (λ first rest.
      if_ind Holds (str_eq (or_text first.b64_json "") "") (λ empty. h)
        (λ filled.
          Option_ind Holds (config.b64decode (or_text first.b64_json "")) (λ e. h)
            (λ bytes e. keep_image-Holds response first mime_type bytes w h)))

  request-Holds :
      (mime_type : String) (w : World)
      → IsBounded max w
      → Holds (request config inp ctx uuid now mime_type w)
  unfolding request doing Fits
  request-Holds mime_type w h =
      result_ind Holds
        (config.generate (generated (generation_args config inp ctx uuid now) ∷ w.effects))
        (λ e. (h.0, (tt, (tt, h.1))))
        (λ response. decode-Holds mime_type response _ (h.0, (tt, (tt, h.1))))

  -- If what was stored and uploaded before is within the configured number of bytes, and the
  -- lengths of stored images are right, then it is so after a call of the tool that makes images,
  -- whatever OpenAI and Zulip answer.
  pub generate_image-Bounded :
      (w : World) → IsBounded max w → IsBounded max (generate_image config inp ctx uuid now w).1
  unfolding generate_image generate_supported
  generate_image-Bounded w h =
      if_ind Holds (not (contains (size_of config inp ctx uuid now) allowed_sizes)) (λ bad. h)
        (λ fine.
          Option_ind Holds (mime_type_of (format_of config inp ctx uuid now)) (λ e. h)
            (λ mime_type e.
              if_ind Holds
                (is_transparent config inp ctx uuid now
                  && str_eq (format_of config inp ctx uuid now) "jpeg")
                (λ jpeg. h)
                (λ other.
                  if_ind Holds
                    (is_transparent config inp ctx uuid now && str_eq config.model "gpt-image-2")
                    (λ model. h)
                    (λ opaque.
                      if_ind Holds
                        (str_eq ctx.conversation_type "direct" && has_none ctx.direct_recipient_ids)
                        (λ nobody. h) (λ someone. request-Holds mime_type w h)))))
