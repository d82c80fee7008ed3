-- ===== src/Delivery/Images/Omission.antt =====
-- mcp/result.py: what is left out of a result when its text is omitted.
use loommux.Prelude.{
  ◌++◌, ◌≡◌, ℕ, List, Option, Bool, Text, [], inr, inl, false, true, refl, some, ◌∷◌,
}
use loommux.Execution.Events.{
  presented_image, presented_text, presented_failure, PresentationElement,
}
use loommux.Delivery.Images.{
  ImageDeliveryLimits, text_content, make_image_content, deliver, rich_execution_content,
  make_tool_result, blocks_of,
}
use loommux.Prelude.Lists.{keep, length}
use loommux.Prelude.Result.{Result-cases}

pub is_visual : PresentationElement → Bool
is_visual (presented_text t) = false
is_visual (presented_failure t) = true
is_visual (presented_image image mime detail ordinal) = true

module _ (b64decode : Text → Option (List ℕ)) (limits : ImageDeliveryLimits) (execution : ℕ) where
  deliver-keep :
      (es : List PresentationElement) (images bytes : ℕ)
      → deliver b64decode limits execution true es images bytes
        ≡ deliver b64decode limits execution false (keep is_visual es) images bytes
  unfolding deliver keep is_visual
  deliver-keep [] images bytes = refl
  deliver-keep (presented_text t ∷ es) images bytes = deliver-keep es images bytes
  deliver-keep (presented_failure t ∷ es) images bytes = rw (deliver-keep es images bytes) refl
  deliver-keep (presented_image image mime detail ordinal ∷ es) images bytes =
      elim (Result-cases
        (make_image_content b64decode limits execution image mime detail ordinal images bytes)) [
          | inl (c, e) ↦ rw (deliver, e, deliver-keep es) refl
          | inr (f, e) ↦ rw (deliver, e, deliver-keep es) refl
        ]

  length-deliver :
      (es : List PresentationElement) (images bytes : ℕ)
      → length (deliver b64decode limits execution false es images bytes) ≡ length es
  unfolding deliver
  length-deliver [] images bytes = refl
  length-deliver (presented_text t ∷ es) images bytes = rw (length-deliver es images bytes) refl
  length-deliver (presented_failure t ∷ es) images bytes = rw (length-deliver es images bytes) refl
  length-deliver (presented_image image mime detail ordinal ∷ es) images bytes =
      elim (Result-cases
        (make_image_content b64decode limits execution image mime detail ordinal images bytes)) [
          | inl (c, e) ↦ rw (deliver, e, length-deliver es) refl
          | inr (f, e) ↦ rw (deliver, e, length-deliver es) refl
        ]

  -- Every element has its block. A result of a cell whose output is omitted has the input coordinate,
  -- the notice, a block for each image and failure as if there were no text, and behind them,
  -- never left out, what the environment says.
  pub rich_content-omitted :
      (header notice text says : Text) (es : List PresentationElement)
      → let cs = deliver b64decode limits execution false (keep is_visual es) 0 0 in
        (blocks_of (
            make_tool_result
              (rich_execution_content b64decode limits execution true false true header notice
                (some es))
              text
              (some says))
          ≡ text_content header ∷ text_content notice ∷ (cs ++ text_content says ∷ []))
        × (length cs ≡ length (keep is_visual es))
  unfolding rich_execution_content make_tool_result
  rich_content-omitted header notice text says es =
      (rw (deliver-keep es 0 0) refl, length-deliver (keep is_visual es) 0 0)
