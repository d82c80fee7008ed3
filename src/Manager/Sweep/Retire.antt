-- ===== src/Manager/Sweep/Retire.antt =====
-- resource/manager.py: the second loop of the sweep, over kernels.
use loommux.Prelude.{
  ==_iff, ◌==◌, subst, sym, true, text_eq_iff, text_eq_refl, if◌then◌else◌, Bool-cases, not, ◌||◌,
  text_is_eq, ◌≢◌, Bool, arith, ◌∷◌, ℕ, Text, ◌≡◌, List, [], inr, inl, some, none,
}
use loommux.Manager.Admit.{wake}
use loommux.Manager.State.{detach-heap, assign-IsSound, detach, IsAlive, IsSound, Ref, Manager}
use loommux.Manager.Sweep.{settle_all, retires, settle, orphan}
use loommux.Model.{KernelResource}
use loommux.Prelude.Lists.{any, All}
use loommux.Prelude.Dict.{get}
use loommux.Connections.{elem}
use loommux.Manager.Detach.{closed-IsSound, get-detach}

-- The parts of a kernel that the registries and the sessions depend on.
abbrev Alike : KernelResource → KernelResource → Type 0
Alike x y =
    (x.resource_id ≡ y.resource_id)
    × (x.name ≡ y.name)
    × (x.home ≡ y.home)
    × (x.client_leases ≡ y.client_leases)

wake-Alike : (x : KernelResource) → Alike (wake x) x
unfolding wake
wake-Alike x = ground arith

wake-IsAlive : (x : KernelResource) → IsAlive x → IsAlive (wake x)
unfolding wake
wake-IsAlive x a = ground arith

orphan-Alike : (x : KernelResource) (now : ℕ) → Alike (orphan x now) x
unfolding orphan
orphan-Alike x now = ground arith

orphan-IsAlive : (x : KernelResource) (now : ℕ) → IsAlive x → IsAlive (orphan x now)
unfolding orphan
orphan-IsAlive x now a = ground arith

-- A kernel stays in the second loop if it is anchored, or is at work within the grace.
abbrev pub stays : ℕ → List Text → ℕ → KernelResource → Bool
stays grace ids now x = elem x.resource_id ids || not (retires grace x now)

module _ (m : Manager) (ids : List Text) (now : ℕ) (r : Ref) (s : IsSound m)
    (here : get m.by_id (m.heap r).resource_id ≡ some r) where
  abbrev x : KernelResource
  x = m.heap r

  settle-IsSound : IsSound (settle m ids now r)
  unfolding settle
  settle-IsSound = elim (Bool-cases (elem x.resource_id ids)) [
    | inl kept ↦
        let (a, b, c, d) = wake-Alike x in rw kept (assign-IsSound m r _ a b c d (wake-IsAlive x) s)
    | inr loose ↦
        let (a, b, c, d) = orphan-Alike x now in
        elim (Bool-cases (retires m.orphan_grace x now)) [
          | inl goes ↦ rw (loose, goes) (closed-IsSound m r s here _ a b c d)
          | inr waits ↦ rw (loose, waits) (assign-IsSound m r _ a b c d (orphan-IsAlive x now) s)
        ]
  ]

  -- The kernel itself is found afterwards exactly if it stays.
  settle-outcome :
      get (settle m ids now r).by_id x.resource_id
      ≡ (if stays m.orphan_grace ids now x then some r else none)
  unfolding settle
  settle-outcome =
      ground (arith, get-detach m r s here x.resource_id, text_eq_refl x.resource_id, here)

  -- Another kernel is found as before, and has not changed.
  settle-other :
      (q : Ref)
      → q ≢ r
      → get m.by_id (m.heap q).resource_id ≡ some q
      → (get (settle m ids now r).by_id (m.heap q).resource_id ≡ some q)
        × ((settle m ids now r).heap q ≡ m.heap q)
  unfolding settle
  settle-other q ne there = ground (
    arith,
    get-detach m r s here (m.heap q).resource_id,
    detach-heap m r,
    text_eq_iff x.resource_id (m.heap q).resource_id,
    here,
  )

  settle-grace : (settle m ids now r).orphan_grace ≡ m.orphan_grace
  unfolding settle detach
  settle-grace = ground arith

  settle-none : (id : Text) → get m.by_id id ≡ none → get (settle m ids now r).by_id id ≡ none
  unfolding settle
  settle-none id e = ground (arith, get-detach m r s here id)

abbrev pub NoRepeat : List Ref → Type 0
NoRepeat [] = Unit {0}
NoRepeat (r ∷ l) = All (λ q. q ≢ r) l × NoRepeat l

abbrev pub Registered : Manager → List Ref → Type 0
Registered m = All λ q. get m.by_id (m.heap q).resource_id ≡ some q

still-Registered :
    (m : Manager) (ids : List Text) (now : ℕ) (r : Ref) (l : List Ref)
    → IsSound m
    → get m.by_id (m.heap r).resource_id ≡ some r
    → All (λ q. q ≢ r) l
    → Registered m l
    → Registered (settle m ids now r) l
still-Registered m ids now r [] s here ne there = tt
still-Registered m ids now r (q ∷ l) s here ne there =
    let (found, same) = settle-other m ids now r s here q ne.0 there.0 in
    (rw same found, still-Registered m ids now r l s here ne.1 there.1)

pub settle_all-IsSound :
    (m : Manager) (ids : List Text) (now : ℕ) (l : List Ref)
    → IsSound m
    → NoRepeat l
    → Registered m l
    → IsSound (settle_all m ids now l)
unfolding settle_all
settle_all-IsSound m ids now [] s once there = s
settle_all-IsSound m ids now (r ∷ l) s once there =
    settle_all-IsSound (settle m ids now r) ids now l (settle-IsSound m ids now r s there.0) once.1
      (still-Registered m ids now r l s there.0 once.0 there.1)

-- A kernel that the loop does not meet is found afterwards as before.
settle_all-other :
    (m : Manager) (ids : List Text) (now : ℕ) (l : List Ref) (q : Ref)
    → IsSound m
    → NoRepeat l
    → Registered m l
    → All (λ r. r ≢ q) l
    → get m.by_id (m.heap q).resource_id ≡ some q
    → get (settle_all m ids now l).by_id (m.heap q).resource_id ≡ some q
unfolding settle_all
settle_all-other m ids now [] q s once there ne found = found
settle_all-other m ids now (r ∷ l) q s once there ne found =
    let (found', same) = settle-other m ids now r s there.0 q (λ e. ne.0 (sym e)) found in
    subst (λ x. get (settle_all (settle m ids now r) ids now l).by_id x.resource_id ≡ some q) same
      (settle_all-other (settle m ids now r) ids now l q (settle-IsSound m ids now r s there.0)
        once.1 (still-Registered m ids now r l s there.0 once.0 there.1) ne.1 (rw same found'))

settle_all-none :
    (m : Manager) (ids : List Text) (now : ℕ) (l : List Ref) (id : Text)
    → IsSound m
    → NoRepeat l
    → Registered m l
    → get m.by_id id ≡ none
    → get (settle_all m ids now l).by_id id ≡ none
unfolding settle_all
settle_all-none m ids now [] id s once there e = e
settle_all-none m ids now (r ∷ l) id s once there e =
    settle_all-none (settle m ids now r) ids now l id (settle-IsSound m ids now r s there.0) once.1
      (still-Registered m ids now r l s there.0 once.0 there.1)
      (settle-none m ids now r s there.0 id e)

settle-id :
    (m : Manager) (ids : List Text) (now : ℕ) (r : Ref)
    → ((settle m ids now r).heap r).resource_id ≡ (m.heap r).resource_id
unfolding settle wake orphan
settle-id m ids now r = ground (arith, detach-heap m r)

settled_stays :
    (m : Manager) (ids : List Text) (now : ℕ) (r : Ref) (l : List Ref)
    → IsSound m
    → NoRepeat (r ∷ l)
    → Registered m (r ∷ l)
    → get (settle_all (settle m ids now r) ids now l).by_id (m.heap r).resource_id
      ≡ (if stays m.orphan_grace ids now (m.heap r) then some r else none)
settled_stays m ids now r l s once there =
    let s' = settle-IsSound m ids now r s there.0 in
    let outcome = settle-outcome m ids now r s there.0 in
    let rest = still-Registered m ids now r l s there.0 once.0 there.1 in
    elim (Bool-cases (stays m.orphan_grace ids now (m.heap r))) [
      | inl yes' ↦ rw yes' (
          subst (λ i. get (settle_all (settle m ids now r) ids now l).by_id i ≡ some r)
            (settle-id m ids now r)
            (settle_all-other (settle m ids now r) ids now l r s' once.1 rest once.0
              (rw settle-id (rw yes' at outcome))))
      | inr no' ↦ rw no' (
          settle_all-none (settle m ids now r) ids now l (m.heap r).resource_id s' once.1 rest
            (rw no' at outcome))
    ]

-- Each kernel that the loop meets is found afterwards exactly if it stays, judged as it was before
-- the loop.
pub settle_all-outcome :
    (m : Manager) (ids : List Text) (now : ℕ) (l : List Ref) (q : Ref)
    → IsSound m
    → NoRepeat l
    → Registered m l
    → get m.by_id (m.heap q).resource_id ≡ some q
    → any (λ r. r == q) l ≡ true
    → get (settle_all m ids now l).by_id (m.heap q).resource_id
      ≡ (if stays m.orphan_grace ids now (m.heap q) then some q else none)
unfolding settle_all
settle_all-outcome m ids now [] q s once there found h = cc
settle_all-outcome m ids now (r ∷ l) q s once there found h = elim (Bool-cases (r == q)) [
  | inl same ↦
      subst
        (λ p.
          get (settle_all (settle m ids now r) ids now l).by_id (m.heap p).resource_id
          ≡ (if stays m.orphan_grace ids now (m.heap p) then some p else none))
        ((==_iff r q).0 same) (settled_stays m ids now r l s once there)
  | inr differ ↦
      let (found', same) = settle-other m ids now r s there.0 q (ground arith) found in
      let rest =
        settle_all-outcome (settle m ids now r) ids now l q (settle-IsSound m ids now r s there.0)
          once.1 (still-Registered m ids now r l s there.0 once.0 there.1) (rw same found')
          (rw differ at h) in
      let graced =
        subst
          (λ g.
            get (settle_all (settle m ids now r) ids now l).by_id
              ((settle m ids now r).heap q).resource_id
            ≡ (if stays g ids now ((settle m ids now r).heap q) then some q else none))
          (settle-grace m ids now r s there.0) rest in
      subst
        (λ x.
          get (settle_all (settle m ids now r) ids now l).by_id x.resource_id
          ≡ (if stays m.orphan_grace ids now x then some q else none))
        same graced
]
