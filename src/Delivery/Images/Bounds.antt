-- ===== src/Delivery/Images/Bounds.antt =====
-- mcp/result.py: the images of a result stay within the limits.
use loommux.Execution.Events.{
  presented_image, presented_text, presented_failure, PresentationElement, Value,
}
use loommux.Prelude.{
  inr, inl, Bool, false, true, ◌∷◌, arith, ◌<◌, ◌≡◌, ◌≤◌, ◌+◌, ℕ, Option, Text, List, [], suc,
}
use loommux.Delivery.Images.{
  ImageDeliveryLimits, ImageContent, Content, text_content, failure_content, image_content,
  make_image_content, decoded_size, deliver, guard_gif, text_of, checked_detail,
}
use loommux.Prelude.Result.{Result-cases, ok}
use loommux.Prelude.Lists.{All}

unfoldable pub images_in : List Content → ℕ
images_in [] = 0
images_in (image_content c ∷ cs) = suc (images_in cs)
images_in (text_content t ∷ cs) = images_in cs
images_in (failure_content execution ordinal f ∷ cs) = images_in cs

module _ (b64decode : Text → Option (List ℕ)) (limits : ImageDeliveryLimits) (execution : ℕ) where
  pub bytes_in : List Content → ℕ
  bytes_in [] = 0
  bytes_in (image_content c ∷ cs) = decoded_size b64decode limits execution c + bytes_in cs
  bytes_in (text_content t ∷ cs) = bytes_in cs
  bytes_in (failure_content n ordinal f ∷ cs) = bytes_in cs

  -- An image within the limit on one image; everything else is.
  abbrev pub IsWithin : Content → Type 0
  IsWithin (image_content c) = decoded_size b64decode limits execution c ≤ limits.max_image_bytes
  IsWithin (text_content t) = Unit
  IsWithin (failure_content n ordinal f) = Unit

  make_image_content-ok :
      (image : Value) (mime : Text) (detail : Value) (ordinal images bytes : ℕ) (c : ImageContent)
      → make_image_content b64decode limits execution image mime detail ordinal images bytes ≡ ok c
      → (images < limits.max_images)
        × (bytes + decoded_size b64decode limits execution c ≤ limits.max_total_image_bytes)
        × IsWithin (image_content c)
  unfolding make_image_content decoded_size text_of checked_detail guard_gif
  make_image_content-ok image mime detail ordinal images bytes c h = ground arith

  -- What is delivered behind some images and bytes stays within what is left of the limits.
  deliver-IsWithin' :
      (omitted : Bool) (es : List PresentationElement) (images bytes : ℕ)
      → images ≤ limits.max_images
      → bytes ≤ limits.max_total_image_bytes
      → let cs = deliver b64decode limits execution omitted es images bytes in
        (images + images_in cs ≤ limits.max_images)
        × (bytes + bytes_in cs ≤ limits.max_total_image_bytes)
        × All IsWithin cs
  unfolding deliver images_in bytes_in
  deliver-IsWithin' omitted [] images bytes h k = (omega arith, omega arith, tt)
  deliver-IsWithin' true (presented_text t ∷ es) images bytes h k =
      deliver-IsWithin' true es images bytes h k
  deliver-IsWithin' false (presented_text t ∷ es) images bytes h k =
      let (i, b, w) = deliver-IsWithin' false es images bytes h k in (i, b, (tt, w))
  deliver-IsWithin' omitted (presented_failure t ∷ es) images bytes h k =
      let (i, b, w) = deliver-IsWithin' omitted es images bytes h k in (i, b, (tt, w))
  deliver-IsWithin' omitted (presented_image image mime detail ordinal ∷ es) images bytes h k =
      elim (Result-cases
        (make_image_content b64decode limits execution image mime detail ordinal images bytes)) [
          | inl (c, e) ↦
              let (i, b, w) = make_image_content-ok image mime detail ordinal images bytes c e in
              let (i', b', w') =
                deliver-IsWithin' omitted es (images + 1)
                  (bytes + decoded_size b64decode limits execution c) (omega arith) b in
              rw (deliver, e) (omega arith, omega arith, (w, w'))
          | inr (f, e) ↦
              let (i, b, w) = deliver-IsWithin' omitted es images bytes h k in
              rw (deliver, e) (i, b, (tt, w))
        ]

  -- A result carries no more images than its limits allow, none larger than they allow, and not more
  -- bytes of images in all.
  pub deliver-IsWithin :
      (omitted : Bool) (es : List PresentationElement)
      → let cs = deliver b64decode limits execution omitted es 0 0 in
        (images_in cs ≤ limits.max_images)
        × (bytes_in cs ≤ limits.max_total_image_bytes)
        × All IsWithin cs
  deliver-IsWithin omitted es =
      let (i, b, w) = deliver-IsWithin' omitted es 0 0 (omega arith) (omega arith) in
      (omega arith, omega arith, w)
