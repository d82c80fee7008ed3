-- ===== src/Examples/Delivery.antt =====
-- Tests of the delivery of images.
use loommux.Delivery.Gif.{gif_frame_count, ran_out, found, invalid}
use loommux.Delivery.Gif.Frames.{frame_count-gif_bytes}
use loommux.Delivery.Gif.Writer.{Gif, IsGif, gif_bytes, image, extension, images}
use loommux.Delivery.Gif.Ends.{gif_frame_count-ends}
use loommux.Delivery.Images.{
  ImageDeliveryLimits, deliver, rich_execution_content, make_tool_result, blocks_of, text_content,
}
use loommux.Delivery.Images.Bounds.{images_in, bytes_in, IsWithin, deliver-IsWithin}
use loommux.Delivery.Images.Omission.{is_visual, rich_content-omitted}
use loommux.Execution.Events.{
  PresentationElement, presented_text, presented_image, presented_failure, null, str,
}
use loommux.Prelude.{
  ◌==◌, ◌++◌, if◌then◌else◌, ℕ, ◌≢◌, Option, ◌≡◌, arith, ◌∷◌, text_eq, Text, List, ◌≤◌, codes, [],
  false, true, refl, some,
}
use loommux.Prelude.Lists.{length, keep, All}

-- A GIF with a table of two colors, an extension, and two images, one with a table of its own.
abbrev moving : Gif
moving = record {
  signature = codes "GIF89a";
  screen = 1 ∷ 0 ∷ 1 ∷ 0 ∷ [];
  packed = 0x80;
  colors = 0 ∷ 0 ∷ 0 ∷ 255 ∷ 255 ∷ 255 ∷ [];
  blocks =
      extension 0xf9 ((4 ∷ 0 ∷ 0 ∷ 0 ∷ []) ∷ [])
      ∷ image (0 ∷ 0 ∷ 0 ∷ 0 ∷ 1 ∷ 0 ∷ 1 ∷ 0 ∷ []) 0 [] 2 ((76 ∷ 1 ∷ []) ∷ [])
      ∷ image (0 ∷ 0 ∷ 0 ∷ 0 ∷ 1 ∷ 0 ∷ 1 ∷ 0 ∷ []) 0x80 (1 ∷ 2 ∷ 3 ∷ 4 ∷ 5 ∷ 6 ∷ []) 2 []
      ∷ [];
}

moving-IsGif : IsGif moving
unfolding text_eq
moving-IsGif = record {
  signed = refl;
  signature_size = refl;
  screen_size = refl;
  colors_size = refl;
  blocks_valid = ((omega arith, tt), ((refl, refl, (omega arith, tt)), ((refl, refl, tt), tt)));
}

frame_count-gif_bytes_example :
    gif_frame_count (gif_bytes moving (7 ∷ []))
    ≡ (if images moving.blocks == 0 then invalid else found (images moving.blocks))
frame_count-gif_bytes_example = frame_count-gif_bytes moving (7 ∷ []) moving-IsGif

two_frames : gif_frame_count (gif_bytes moving (7 ∷ [])) ≡ found 2
unfolding images
two_frames = frame_count-gif_bytes_example

gif_frame_count-ends_example : gif_frame_count (codes "GIF89a, but not really") ≢ ran_out
gif_frame_count-ends_example = gif_frame_count-ends (codes "GIF89a, but not really")

abbrev decode : Text → Option (List ℕ)
decode t = some t

abbrev limits : ImageDeliveryLimits
limits = record { max_image_bytes = 4; max_images = 1; max_total_image_bytes = 6 }

abbrev shown : List PresentationElement
shown =
    presented_text (codes "a plot")
    ∷ presented_image (str (codes "abc")) (codes "image/png") null 1
    ∷ presented_image (str (codes "def")) (codes "image/png") null 2
    ∷ presented_failure (codes "no picture")
    ∷ []

one_image : images_in (deliver decode limits 3 false shown 0 0) ≡ 1
unfolding deliver images_in text_eq
one_image = refl

deliver-IsWithin_example :
    (images_in (deliver decode limits 3 false shown 0 0) ≤ 1)
    × (bytes_in decode limits 3 (deliver decode limits 3 false shown 0 0) ≤ 6)
    × All (IsWithin decode limits 3) (deliver decode limits 3 false shown 0 0)
deliver-IsWithin_example = deliver-IsWithin decode limits 3 false shown

rich_content-omitted_example :
    (blocks_of (
        make_tool_result
          (rich_execution_content decode limits 3 true false true
            (codes "In [3]")
            (codes "omitted")
            (some shown))
          []
          (some (codes "notice")))
      ≡ text_content (codes "In [3]")
        ∷ text_content (codes "omitted")
        ∷ (deliver decode limits 3 false (keep is_visual shown) 0 0
            ++ text_content (codes "notice") ∷ []))
    × (length (deliver decode limits 3 false (keep is_visual shown) 0 0)
        ≡ length (keep is_visual shown))
rich_content-omitted_example =
    rich_content-omitted decode limits 3 (codes "In [3]") (codes "omitted") [] (codes "notice")
      shown
