-- ===== src/Manager/Sweep/Anchored.antt =====
-- resource/manager.py: which kernels are anchored.
use loommux.Prelude.{
  ap, subst, ◌↔◌, Bool-cases, Option-cases, inr, inl, text_eq_iff, sym, text_eq_refl, arith,
  text_eq, ◌&&◌, ◌∷◌, ◌∙◌, text_is_eq, ◌||◌, ◌⊎◌, ◌≡◌, Bool, ◌++◌, Text, ℕ, List, [], false, true,
  refl, some, none,
}
use loommux.Connections.{elem}
use loommux.Manager.Sweep.{is_held, anchored, child_ids, held_ids}
use loommux.Manager.State.{IsSound, Ref, Manager}
use loommux.Prelude.Dict.{any-values, any-values-some, values, get}
use loommux.Prelude.Lists.{any}

elem-append : (x : Text) (l k : List Text) → elem x (l ++ k) ≡ (elem x l || elem x k)
unfolding elem
elem-append x [] k = refl
elem-append x (y ∷ l) k = ground (arith, elem-append x l k)

elem-held_ids :
    (m : Manager) (l : List Ref) (now : ℕ) (i : Text)
    → elem i (held_ids m l now)
      ≡ any (λ q. is_held (m.heap q) now && text_eq (m.heap q).resource_id i) l
unfolding held_ids elem
elem-held_ids m [] now i = refl
elem-held_ids m (r ∷ l) now i = ground (arith, elem-held_ids m l now i)

abbrev is_child : Manager → List Text → Ref → Bool
is_child m held q = elim (m.heap q).home [ none ↦ false | some h ↦ elem h held ]

elem-child_ids :
    (m : Manager) (l : List Ref) (held : List Text) (i : Text)
    → elem i (child_ids m l held)
      ≡ any (λ q. is_child m held q && text_eq (m.heap q).resource_id i) l
unfolding child_ids elem
elem-child_ids m [] held i = refl
elem-child_ids m (r ∷ l) held i = ground (arith, elem-child_ids m l held i)

-- A kernel that a lease or its retention holds, or whose main kernel is registered and held.
abbrev pub Anchored : Manager → ℕ → Ref → Type 0
Anchored m now r =
    (is_held (m.heap r) now ≡ true)
    ⊎ ((q : Ref) × (get m.by_id (m.heap q).resource_id ≡ some q)
        × ((m.heap r).home ≡ some (m.heap q).resource_id)
        × (is_held (m.heap q) now ≡ true))

module _ (m : Manager) (now : ℕ) (s : IsSound m) where
  held : List Text
  held = held_ids m (values m.by_id) now

  held_at :
      (i : Text)
      → elem i held ≡ true
      → (q : Ref) × (get m.by_id (m.heap q).resource_id ≡ some q)
        × ((m.heap q).resource_id ≡ i)
        × (is_held (m.heap q) now ≡ true)
  unfolding held
  held_at i h =
      let (j, q, found, passes) =
        any-values-some (λ q. is_held (m.heap q) now && text_eq (m.heap q).resource_id i) m.by_id
          s.registry.ids_distinct (sym (elem-held_ids m (values m.by_id) now i) ∙ h) in
      (
        q,
        rw (s.registry.id_of j q found) found,
        ground (arith, text_eq_iff (m.heap q).resource_id i),
        ground arith,
      )

  at_held :
      (q : Ref)
      → get m.by_id (m.heap q).resource_id ≡ some q
      → is_held (m.heap q) now ≡ true
      → elem (m.heap q).resource_id held ≡ true
  unfolding held
  at_held q found h =
      elem-held_ids m (values m.by_id) now (m.heap q).resource_id
      ∙ any-values _ m.by_id (m.heap q).resource_id q found
          (ground (arith, text_eq_refl (m.heap q).resource_id))

  -- A registered kernel is known by its id.
  same_kernel :
      (q r : Ref)
      → get m.by_id (m.heap q).resource_id ≡ some q
      → get m.by_id (m.heap r).resource_id ≡ some r
      → (m.heap q).resource_id ≡ (m.heap r).resource_id
      → q ≡ r
  same_kernel q r there here e = ground arith

  in_held :
      (r : Ref)
      → get m.by_id (m.heap r).resource_id ≡ some r
      → elem (m.heap r).resource_id held ≡ true
      → Anchored m now r
  in_held r here h =
      let (q, found, id, holds) = held_at (m.heap r).resource_id h in
      inl (subst (λ p. is_held (m.heap p) now ≡ true) (same_kernel q r found here id) holds)

  child_home :
      (r : Ref)
      → is_child m held r ≡ true
      → (h : Text) × ((m.heap r).home ≡ some h) × (elem h held ≡ true)
  child_home r c = elim (Option-cases (m.heap r).home) [
    | inl none' ↦ ground arith
    | inr (h, e) ↦ (h, e, ground arith)
  ]

  in_child :
      (r : Ref)
      → get m.by_id (m.heap r).resource_id ≡ some r
      → elem (m.heap r).resource_id (child_ids m (values m.by_id) held) ≡ true
      → Anchored m now r
  in_child r here h =
      let (j, q, found, passes) =
        any-values-some
          (λ q. is_child m held q && text_eq (m.heap q).resource_id (m.heap r).resource_id) m.by_id
          s.registry.ids_distinct (sym (elem-child_ids m (values m.by_id) held _) ∙ h) in
      let found' : get m.by_id (m.heap q).resource_id ≡ some q =
        rw (s.registry.id_of j q found) found in
      let same : q ≡ r =
        same_kernel q r found' here
          (ground (arith, text_eq_iff (m.heap q).resource_id (m.heap r).resource_id)) in
      let child : is_child m held q ≡ true = ground arith in
      let (i, home, main) = child_home r (subst (λ p. is_child m held p ≡ true) same child) in
      let (p, there, id, holds) = held_at i main in inr (p, there, home ∙ ap some (sym id), holds)

  anchored-Anchored :
      (r : Ref)
      → get m.by_id (m.heap r).resource_id ≡ some r
      → elem (m.heap r).resource_id (anchored m now) ≡ true
      → Anchored m now r
  unfolding anchored held
  anchored-Anchored r here h =
      let either =
        sym (elem-append (m.heap r).resource_id held (child_ids m (values m.by_id) held)) ∙ h in
      elim (Bool-cases (elem (m.heap r).resource_id held)) [
        | inl e ↦ in_held r here e
        | inr e ↦ in_child r here (rw e at either)
      ]

  Anchored-anchored :
      (r : Ref)
      → get m.by_id (m.heap r).resource_id ≡ some r
      → Anchored m now r
      → elem (m.heap r).resource_id (anchored m now) ≡ true
  unfolding anchored held
  Anchored-anchored r here (inl holds) =
      elem-append (m.heap r).resource_id held (child_ids m (values m.by_id) held)
      ∙ ground (arith, at_held r here holds)
  Anchored-anchored r here (inr (q, found, home, holds)) =
      elem-append (m.heap r).resource_id held (child_ids m (values m.by_id) held)
      ∙ ground (
        arith,
        elem-child_ids m (values m.by_id) held (m.heap r).resource_id,
        any-values (λ q. is_child m held q && text_eq (m.heap q).resource_id (m.heap r).resource_id)
            m.by_id (m.heap r).resource_id r here,
        text_eq_refl (m.heap r).resource_id,
        at_held q found holds,
      )

  -- A registered kernel is in the set of anchored ids exactly if it is anchored.
  pub anchored_iff :
      (r : Ref)
      → get m.by_id (m.heap r).resource_id ≡ some r
      → (elem (m.heap r).resource_id (anchored m now) ≡ true) ↔ Anchored m now r
  anchored_iff r here = (anchored-Anchored r here, Anchored-anchored r here)
