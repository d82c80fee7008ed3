-- ===== src/Execution/Events.antt =====
-- execution/events.py, and the values that a kernel's messages bring.
use loommux.Prelude.{◌∷◌, codes, ℕ, Text, List, Bool, [], false, true}

-- A value of any type, as the checks on it see it.
pub data Value : Type 0 where
  null other : Value
  str : Text → Value

pub data PresentationElement : Type 0 where
  presented_text : Text → PresentationElement
  presented_image :
      (image : Value) (mime_type : Text) (detail : Value) (ordinal : ℕ) → PresentationElement
  presented_failure : Text → PresentationElement

pub is_image : PresentationElement → Bool
is_image (presented_text t) = false
is_image (presented_image image mime_type detail ordinal) = true
is_image (presented_failure t) = false

-- IMAGE_MIME_PREFERENCE
abbrev pub image_mime_preference : List Text
image_mime_preference =
    codes "image/png" ∷ codes "image/jpeg" ∷ codes "image/webp" ∷ codes "image/gif" ∷ []
