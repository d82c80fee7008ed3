-- ===== src/Delivery/Images.antt =====
-- mcp/result.py: the blocks of a result. The decoder of Base64 is an argument, as are the texts of the
-- input coordinate, of the notice on omitted output and of a result without images.
pub mod Bounds
pub mod Omission
use loommux.Execution.Events.{
  PresentationElement, presented_text, presented_image, presented_failure, Value, null, other, str,
}
use loommux.Prelude.{
  ltb, leb, ◌+◌, ◌||◌, not, text_eq, ◌++◌, ◌∷◌, if◌then◌else◌, Bool, codes, ℕ, Text, Option, List,
  [], some, none,
}
use loommux.Prelude.Result.{or_raise, ◌>>=◌, guard, err, ◌>>◌, ok, Result}
use loommux.Prelude.Lists.{any, length}
use loommux.Delivery.Gif.{gif_frame_count, found}

pub record ImageDeliveryLimits : Type 0 where
  pub max_image_bytes : ℕ
  pub max_images : ℕ
  pub max_total_image_bytes : ℕ

-- The messages of a delivery that failed.
pub data ImageFailure : Type 0 where
  unsupported_type not_text invalid_base64 bad_detail image_too_large too_many_images : ImageFailure
  total_too_large invalid_gif animated_gif : ImageFailure

pub record ImageContent : Type 0 where
  pub image : Text
  pub mime_type : Text
  pub detail : Text
  pub execution : ℕ
  pub display_ordinal : ℕ

pub data Content : Type 0 where
  text_content : Text → Content
  failure_content : (execution ordinal : ℕ) → ImageFailure → Content
  image_content : ImageContent → Content

abbrev is_in_texts : Text → List Text → Bool
is_in_texts t ts = any (text_eq t) ts

-- ALLOWED_IMAGE_MIME_TYPES
abbrev allowed_image_mime_types : List Text
allowed_image_mime_types =
    codes "image/png" ∷ codes "image/jpeg" ∷ codes "image/webp" ∷ codes "image/gif" ∷ []

-- ALLOWED_IMAGE_DETAILS
abbrev allowed_image_details : List Text
allowed_image_details = codes "low" ∷ codes "high" ∷ codes "original" ∷ []

text_of : Value → Result ImageFailure Text
text_of (str t) = ok t
text_of _ = err not_text

checked_detail : Value → Result ImageFailure Text
checked_detail null = ok (codes "original")
checked_detail other = err bad_detail
checked_detail (str t) = if is_in_texts t allowed_image_details then ok t else err bad_detail

-- A GIF with more than one frame is refused, as is data that is no GIF.
guard_gif : Text → List ℕ → Result ImageFailure (Unit {0})
guard_gif mime bytes =
    if text_eq mime (codes "image/gif")
    then elim (gif_frame_count bytes) [
      | found n ↦ guard (leb n 1) animated_gif
      | _ ↦ err invalid_gif
    ]
    else ok tt

module _ (b64decode : Text → Option (List ℕ)) (limits : ImageDeliveryLimits) (execution : ℕ) where
  -- _make_image_content
  unfoldable pub make_image_content :
      Value
      → Text
      → Value
      → (ordinal accepted_images accepted_bytes : ℕ) → Result ImageFailure ImageContent
  unfolding text_of checked_detail guard_gif
  make_image_content image mime detail ordinal accepted_images accepted_bytes = do
    guard (is_in_texts mime allowed_image_mime_types) unsupported_type
    text ← text_of image
    bytes ← or_raise (b64decode text) invalid_base64
    shown ← checked_detail detail
    guard (leb (length bytes) limits.max_image_bytes) image_too_large
    guard (ltb accepted_images limits.max_images) too_many_images
    guard (leb (accepted_bytes + length bytes) limits.max_total_image_bytes) total_too_large
    guard_gif mime bytes
    ok (record {
      image = text;
      mime_type = mime;
      detail = shown;
      execution = execution;
      display_ordinal = ordinal;
    })

  -- The bytes of an image that was delivered.
  unfoldable pub decoded_size : ImageContent → ℕ
  decoded_size c = elim (b64decode c.image) [ none ↦ 0 | some bytes ↦ length bytes ]

  -- The loop over the presentation, with the images and the bytes accepted so far.
  unfoldable pub deliver : Bool → List PresentationElement → ℕ → ℕ → List Content
  unfolding make_image_content decoded_size
  deliver text_omitted [] images bytes = []
  deliver text_omitted (presented_text t ∷ es) images bytes =
      let rest = deliver text_omitted es images bytes in
      if text_omitted then rest else text_content t ∷ rest
  deliver text_omitted (presented_failure t ∷ es) images bytes =
      text_content t ∷ deliver text_omitted es images bytes
  deliver text_omitted (presented_image image mime detail ordinal ∷ es) images bytes =
      elim (make_image_content image mime detail ordinal images bytes) [
        | err failure ↦
            failure_content execution ordinal failure ∷ deliver text_omitted es images bytes
        | ok c ↦ image_content c ∷ deliver text_omitted es (images + 1) (bytes + decoded_size c)
      ]

  -- _rich_execution_content, for a status that names its execution: `none` where the text is used.
  unfoldable pub rich_execution_content :
      (is_execution_tool running text_omitted : Bool)
      → (header notice : Text) → Option (List PresentationElement)
      → Option (List Content)
  unfolding deliver
  rich_execution_content is_execution_tool running text_omitted header notice none = none
  rich_execution_content is_execution_tool running text_omitted header notice (some elements) =
      if not is_execution_tool || running
      then none
      else some (
          text_content header ∷ (if text_omitted then text_content notice ∷ [] else [])
          ++ deliver text_omitted elements 0 0)

-- The content of a result: one text, or blocks.
pub data ToolContent : Type 0 where
  plain : Text → ToolContent
  blocks : List Content → ToolContent

abbrev pub blocks_of : ToolContent → List Content
blocks_of (plain t) = text_content t ∷ []
blocks_of (blocks cs) = cs

-- make_tool_result: the content, and behind it what the environment says.
unfoldable pub make_tool_result : Option (List Content) → Text → Option Text → ToolContent
make_tool_result rich text environment =
    let content : ToolContent = elim rich [ none ↦ plain text | some cs ↦ blocks cs ] in
    elim environment [
      | none ↦ content
      | some says ↦ blocks (blocks_of content ++ text_content says ∷ [])
    ]
