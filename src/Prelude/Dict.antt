-- ===== src/Prelude/Dict.antt =====
-- Python's `dict`: an association list in the order in which the keys were first set.
use mathlib.Core.Path.{◌≡◌, refl}
use mathlib.Core.Bool.{Bool}
use mathlib.Core.Option.{Option, none, some}
use mathlib.Core.List.{List, [], ◌∷◌}
use native.Mathlib.Omega.{arith}
use loommux.Prelude.Tests.{Eq, if◌then◌else◌, is_some}
use loommux.Prelude.Lists.{any, first, All}
use loommux.Prelude.{◌⊎◌, Bool-cases, inr, inl, false, true, beq_self}

abbrev pub Dict {ℓ κ} : Type ℓ → Type κ → Type (ℓ ⊔ κ)
Dict K V = List (K × V)

module _ {ℓ κ} {K : Type ℓ} {V : Type κ} ⦃e : Eq K⦄ where
  -- d.get(k)
  unfoldable pub get : Dict K V → K → Option V
  get [] k = none
  get ((j, v) ∷ d) k = let rest = get d k in if e.beq j k then some v else rest

  -- d[k] = v: a key that is there keeps its place.
  unfoldable pub put : Dict K V → K → V → Dict K V
  put [] k v = (k, v) ∷ []
  put ((j, w) ∷ d) k v = let rest = put d k v in if e.beq j k then (k, v) ∷ d else (j, w) ∷ rest

  -- d.pop(k, None)
  unfoldable pub remove : Dict K V → K → Dict K V
  remove [] k = []
  remove ((j, v) ∷ d) k = let rest = remove d k in if e.beq j k then rest else (j, v) ∷ rest

  -- k in d
  abbrev pub has : Dict K V → K → Bool
  has d k = is_some (get d k)

  unfoldable pub values : Dict K V → List V
  values [] = []
  values ((k, v) ∷ d) = v ∷ values d

  unfoldable pub keys : Dict K V → List K
  keys [] = []
  keys ((k, v) ∷ d) = k ∷ keys d

  pub get-put :
      (d : Dict K V) (k j : K) (v : V) → get (put d k v) j ≡ (if e.beq k j then some v else get d j)
  unfolding get put
  get-put [] k j v = refl
  get-put ((i, w) ∷ d) k j v =
      ground (arith, e.beq_iff i k, e.beq_iff i j, e.beq_iff k j, get-put d k j v)

  pub get-remove :
      (d : Dict K V) (k j : K) → get (remove d k) j ≡ (if e.beq k j then none else get d j)
  unfolding get remove
  get-remove [] k j = ground arith
  get-remove ((i, w) ∷ d) k j =
      ground (arith, e.beq_iff i k, e.beq_iff i j, e.beq_iff k j, get-remove d k j)

  -- No key stands twice.
  abbrev pub Distinct : Dict K V → Type κ
  Distinct [] = Unit
  Distinct ((k, v) ∷ d) = (get d k ≡ none) × Distinct d

  pub put-Distinct : (d : Dict K V) (k : K) (v : V) → Distinct d → Distinct (put d k v)
  unfolding put get
  put-Distinct [] k v h = (refl, tt)
  put-Distinct ((j, w) ∷ d) k v h =
      ground (arith, e.beq_iff j k, e.beq_iff k j, get-put d k j v, put-Distinct d k v h.1)

  pub remove-Distinct : (d : Dict K V) (k : K) → Distinct d → Distinct (remove d k)
  unfolding remove
  remove-Distinct [] k h = tt
  remove-Distinct ((j, w) ∷ d) k h =
      ground (arith, e.beq_iff j k, get-remove d k j, remove-Distinct d k h.1)

  -- The items that pass a test of key and value.
  unfoldable pub retain : (K → V → Bool) → Dict K V → Dict K V
  retain p [] = []
  retain p ((k, v) ∷ d) = let rest = retain p d in if p k v then (k, v) ∷ rest else rest

  abbrev pub passing : (K → V → Bool) → K → Option V → Option V
  passing p k none = none
  passing p k (some v) = if p k v then some v else none

  get-retain-none :
      (p : K → V → Bool) (d : Dict K V) (k : K) → get d k ≡ none → get (retain p d) k ≡ none
  unfolding get retain
  get-retain-none p [] k h = refl
  get-retain-none p ((j, v) ∷ d) k h = ground (arith, get-retain-none p d k)

  pub get-retain :
      (p : K → V → Bool) (d : Dict K V) (k : K)
      → Distinct d
      → get (retain p d) k ≡ passing p k (get d k)
  unfolding get retain
  get-retain p [] k h = refl
  get-retain p ((j, v) ∷ d) k h =
      ground (arith, e.beq_iff j k, get-retain p d k h.1, get-retain-none p d k)

  pub retain-Distinct : (p : K → V → Bool) (d : Dict K V) → Distinct d → Distinct (retain p d)
  unfolding retain
  retain-Distinct p [] h = tt
  retain-Distinct p ((j, v) ∷ d) h =
      ground (arith, retain-Distinct p d h.1, get-retain-none p d j h.0)

  -- What holds of every lookup holds of every value, where no key stands twice.
  pub All-values {μ} :
      (P : V → Type μ) (d : Dict K V)
      → Distinct d
      → ((k : K) (v : V) → get d k ≡ some v → P v)
      → All P (values d)
  unfolding values get
  All-values P [] h f = tt
  All-values P ((k, v) ∷ d) h f = (
    f k v (rw (beq_self k)),
    All-values P d h.1 λ j w found. f j w (ground (arith, e.beq_iff k j, h.0)),
  )

  -- The first value that passes a test is one that a lookup finds; if none passes, none does.
  pub first-values-some :
      (p : V → Bool) (d : Dict K V) (v : V)
      → Distinct d
      → first p (values d) ≡ some v
      → (k : K) × (get d k ≡ some v) × (p v ≡ true)
  unfolding values first get
  first-values-some p [] v h f = cc
  first-values-some p ((j, w) ∷ d) v h f = elim (Bool-cases (p w)) [
    | inl t ↦ (j, rw (beq_self j) (ground arith), ground arith)
    | inr t ↦
        let (k, found, passes) = first-values-some p d v h.1 (ground arith) in
        (k, ground (arith, e.beq_iff j k, h.0), passes)
  ]

  pub first-values-none :
      (p : V → Bool) (d : Dict K V) (k : K) (v : V)
      → first p (values d) ≡ none
      → get d k ≡ some v
      → p v ≡ false
  unfolding values first get
  first-values-none p [] k v f h = cc
  first-values-none p ((j, w) ∷ d) k v f h = ground (arith, first-values-none p d k v)

  pub has-put :
      (d : Dict K V) (k j : K) (v : V)
      → has (put d k v) j ≡ true
      → (e.beq k j ≡ true) ⊎ (has d j ≡ true)
  has-put d k j v h = ground (arith, get-put d k j v)

  pub has-remove : (d : Dict K V) (k j : K) → has (remove d k) j ≡ true → has d j ≡ true
  has-remove d k j h = ground (arith, get-remove d k j)

  pub any-values-some :
      (p : V → Bool) (d : Dict K V)
      → Distinct d
      → any p (values d) ≡ true
      → (k : K) × (v : V) × (get d k ≡ some v) × (p v ≡ true)
  unfolding values get
  any-values-some p [] h f = cc
  any-values-some p ((j, w) ∷ d) h f = elim (Bool-cases (p w)) [
    | inl t ↦ (j, w, rw (beq_self j), t)
    | inr t ↦
        let (k, v, found, passes) = any-values-some p d h.1 (ground arith) in
        (k, v, ground (arith, e.beq_iff j k, h.0), passes)
  ]

  pub any-values :
      (p : V → Bool) (d : Dict K V) (k : K) (v : V)
      → get d k ≡ some v
      → p v ≡ true
      → any p (values d) ≡ true
  unfolding values get
  any-values p [] k v h t = cc
  any-values p ((j, w) ∷ d) k v h t = ground (arith, any-values p d k v)
