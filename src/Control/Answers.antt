-- ===== src/Control/Answers.antt =====
-- mcp/control.py: what the routes that rename and recycle come to.
use loommux.Manager.State.{is_registered, Manager, Ref, ManagerError}
use loommux.Control.{
  blank, malformed, json_object, Body, Response, answered, rename_resource, recycle_resource,
  json_body, text_field, force_field, raised, settled, registry_answer,
}
use loommux.Prelude.{
  Bool-cases, text_is_eq, arith, codes, Option-cases, inr, inl, refl, ◌⊎◌, ◌≡◌, Bool, Text, ℕ,
  false,
}
use loommux.Manager.Recycle.{recycle}
use loommux.Manager.Rename.{rename}
use loommux.Model.{control_plane_recycle}
use loommux.Prelude.Result.{err, Result, ◌>>=◌, ok}
use loommux.Prelude.Dict.{get}
use loommux.Manager.Paths.{validate_kernel_name}

-- What a route makes of an operation on one kernel: it fails and changes nothing, or it has done it.
settled-cases :
    (m : Manager) (operation : Result ManagerError (Ref × Manager)) (f : Ref → Manager → Response)
    (g : Manager → Manager)
    → let (response, final) = settled m (raised operation >>= λ (r, n). ok (f r n, g n)) in
      ((response.succeeded ≡ false) × (final ≡ m))
      ⊎ ((r : Ref) × (n : Manager) × (operation ≡ ok (r, n)) × (final ≡ g n) × (response ≡ f r n))
settled-cases m (ok (r, n)) f g = inr (r, n, refl, refl, refl)
settled-cases m (err e) f g = inl (refl, refl)

module _ (others : Manager → Manager) (printable : ℕ → Bool) where
  pub rename_resource-cases :
      (m : Manager) (id : Text) (body : Body)
      → let (response, final) = rename_resource others printable m id body in
        ((response.succeeded ≡ false) × (final ≡ m))
        ⊎ ((name : Text) × (r : Ref) × (n : Manager) × (rename m id name ≡ ok (r, n))
            × (final ≡ others n)
            × (response ≡ registry_answer (others n) (ok r)))
  unfolding rename_resource json_body
  rename_resource-cases m id malformed = inl (refl, refl)
  rename_resource-cases m id blank = inl (refl, refl)
  rename_resource-cases m id (json_object d) = elim (Option-cases (text_field d (codes "name"))) [
    | inl h ↦ rw (rename_resource, h) (inl (refl, refl))
    | inr (name, h) ↦ elim (Option-cases (validate_kernel_name printable name)) [
      | inr (e, v) ↦ rw (rename_resource, h, v) (inl (refl, refl))
      | inl v ↦
          rw (rename_resource, h, v)
            (elim (settled-cases m (rename m id name) (λ r n. registry_answer (others n) (ok r))
              others) [
                | inl failed ↦ inl failed
                | inr (r, n, done, last, response) ↦ inr (name, r, n, done, last, response)
              ])
    ]
  ]

forced-cases :
    (m : Manager) (id : Text) (force : Bool)
    → let (response, final) =
        settled m
          (raised (recycle m id force control_plane_recycle) >>= λ (r, n). ok (answered, n)) in
      ((response.succeeded ≡ false) × (final ≡ m))
      ⊎ ((f : Bool) × (r : Ref) × (recycle m id f control_plane_recycle ≡ ok (r, final))
          × (response ≡ answered))
forced-cases m id force =
    elim (settled-cases m (recycle m id force control_plane_recycle) (λ r n. answered) (λ n. n)) [
      | inl failed ↦ inl failed
      | inr (r, n, done, last, response) ↦ inr (force, r, rw last done, response)
    ]

pub recycle_resource-cases :
    (m : Manager) (id : Text) (body : Body)
    → let (response, final) = recycle_resource m id body in
      ((response.succeeded ≡ false) × (final ≡ m))
      ⊎ ((force : Bool) × (r : Ref) × (recycle m id force control_plane_recycle ≡ ok (r, final))
          × (response ≡ answered))
unfolding recycle_resource json_body force_field get
recycle_resource-cases m id malformed = inl (refl, refl)
recycle_resource-cases m id blank = forced-cases m id false
recycle_resource-cases m id (json_object d) = elim (Option-cases (force_field d)) [
  | inl h ↦ rw (recycle_resource, h) (inl (refl, refl))
  | inr (force, h) ↦ rw (recycle_resource, h) (forced-cases m id force)
]

-- A kernel that cannot be described is not registered.
pub registry_answer-gone :
    (m : Manager) (r : Ref)
    → (registry_answer m (ok r)).succeeded ≡ false
    → (is_registered m r ≡ false) × ((registry_answer m (ok r)).code ≡ 404)
unfolding registry_answer
registry_answer-gone m r h = elim (Bool-cases (is_registered m r)) [
  | inl e ↦ absurd (ground arith)
  | inr e ↦ (e, rw (registry_answer, e) refl)
]
