-- ===== src/Manager/Recycle/Many.antt =====
-- resource/manager.py: what `recycle_idle` and `recycle_all` leave.
use loommux.Prelude.{
  ◌↔◌, text_eq_refl, ◌∙◌, text_eq_iff, sym, Bool-cases, ◌||◌, text_is_eq, Option-cases, arith, not,
  ◌∷◌, ◌≡◌, ◌&&◌, ◌≢◌, if◌then◌else◌, text_eq, Option, Bool, Text, List, [], inr, inl, false, true,
  refl, some, none,
}
use loommux.Manager.Recycle.{
  recycle_all_kernels, idle_cleanup, recycle_idle, idle_ids, recycle_all, retire, recycle_each,
  recycle,
}
use loommux.Connections.{elem}
use loommux.Manager.State.{ManagerError, resource_busy, resource_not_found, IsSound, Ref, Manager}
use loommux.Model.{is_busy, ClosingReason}
use loommux.Prelude.Dict.{any-values, keys, values, get}
use loommux.Manager.Recycle.Sound.{get-retire, retire-IsSound, retire-heap}
use loommux.Prelude.Result.{ok, err}
use loommux.Prelude.Lists.{any}
use loommux.Manager.Names.Free.{elem-keys}

-- What a kernel is found as after the recycling of the kernels with these ids.
survives : Manager → Bool → List Text → Text → Option Ref → Option Ref
survives m force ids id none = none
survives m force ids id (some r) =
    if elem id ids && (not (is_busy (m.heap r)) || force) then none else some r

recycle-stays :
    (m : Manager) (id : Text) (force : Bool) (reason : ClosingReason) (r : Ref)
    → get m.by_id id ≡ some r
    → (not (is_busy (m.heap r)) || force) ≡ true
    → recycle m id force reason ≡ ok (r, retire m r reason)
unfolding recycle
recycle-stays m id force reason r found passes = rw (found, passes)

recycle-refused :
    (m : Manager) (id : Text) (force : Bool) (reason : ClosingReason) (r : Ref)
    → get m.by_id id ≡ some r
    → (not (is_busy (m.heap r)) || force) ≡ false
    → recycle m id force reason ≡ err resource_busy
unfolding recycle
recycle-refused m id force reason r found fails = rw (found, fails)

recycle-absent :
    (m : Manager) (id : Text) (force : Bool) (reason : ClosingReason)
    → get m.by_id id ≡ none
    → recycle m id force reason ≡ err resource_not_found
unfolding recycle
recycle-absent m id force reason absent = rw absent

survives-cons :
    (m : Manager) (force : Bool) (i : Text) (ids : List Text) (id : Text) (o : Option Ref)
    → text_eq i id ≡ false
    → survives m force (i ∷ ids) id o ≡ survives m force ids id o
unfolding survives elem
survives-cons m force i ids id none ne = refl
survives-cons m force i ids id (some r) ne = ground arith

survives-retire :
    (m : Manager) (q : Ref) (reason : ClosingReason) (force : Bool) (ids : List Text) (id : Text)
    (o : Option Ref)
    → o ≢ some q
    → survives (retire m q reason) force ids id o ≡ survives m force ids id o
unfolding survives
survives-retire m q reason force ids id none ne = refl
survives-retire m q reason force ids id (some r) ne = rw (retire-heap m q r reason (ground arith))

survives-nil :
    (m : Manager) (force : Bool) (id : Text) (o : Option Ref) → survives m force [] id o ≡ o
unfolding survives elem
survives-nil m force id none = refl
survives-nil m force id (some r) = refl

-- A round that takes no kernel out changes what survives of none.
survives-skip :
    (m : Manager) (force : Bool) (i : Text) (ids : List Text) (id : Text)
    → ((r : Ref) → get m.by_id i ≡ some r → (not (is_busy (m.heap r)) || force) ≡ false)
    → survives m force (i ∷ ids) id (get m.by_id id) ≡ survives m force ids id (get m.by_id id)
unfolding survives
survives-skip m force i ids id h = elim (Bool-cases (text_eq i id)) [
  | inr ne ↦ survives-cons m force i ids id (get m.by_id id) ne
  | inl same ↦ elim (Option-cases (get m.by_id id)) [
    | inl absent ↦ rw absent
    | inr (r, found) ↦
        let e : i ≡ id = (text_eq_iff i id).0 same in
        let stays = h r (rw e found) in rw found (ground arith)
  ]
]

survives-taken :
    (m : Manager) (q : Ref) (reason : ClosingReason) (force : Bool) (i : Text) (ids : List Text)
    (id : Text)
    → IsSound m
    → get m.by_id i ≡ some q
    → (not (is_busy (m.heap q)) || force) ≡ true
    → survives (retire m q reason) force ids id (get (retire m q reason).by_id id)
      ≡ survives m force (i ∷ ids) id (get m.by_id id)
unfolding survives elem
survives-taken m q reason force i ids id s found passes =
    let named : (m.heap q).resource_id ≡ i = s.registry.id_of i q found in
    let here : get m.by_id (m.heap q).resource_id ≡ some q = rw named found in
    elim (Bool-cases (text_eq i id)) [
      | inl same ↦
          let e : i ≡ id = (text_eq_iff i id).0 same in
          let gone : get (retire m q reason).by_id id ≡ none =
            get-retire m q reason s here id ∙ rw (named, same) in
          let there : get m.by_id id ≡ some q = rw (sym e) found in rw (gone, there, same, passes)
      | inr ne ↦
          let stays : get (retire m q reason).by_id id ≡ get m.by_id id =
            get-retire m q reason s here id ∙ rw (named, ne) in
          let other : get m.by_id id ≢ some q =
            λ h. ground (arith, s.registry.id_of id q h, text_eq_refl i) in
          rw stays (
            survives-retire m q reason force ids id (get m.by_id id) other
            ∙ sym (survives-cons m force i ids id (get m.by_id id) ne))
    ]

recycle_each-err :
    (m : Manager) (i : Text) (ids : List Text) (force : Bool) (reason : ClosingReason)
    (e : ManagerError)
    → recycle m i force reason ≡ err e
    → (recycle_each m (i ∷ ids) force reason).1 ≡ (recycle_each m ids force reason).1
unfolding recycle_each
recycle_each-err m i ids force reason e h = ground (arith, h)

recycle_each-ok :
    (m n : Manager) (i : Text) (ids : List Text) (force : Bool) (reason : ClosingReason) (r : Ref)
    → recycle m i force reason ≡ ok (r, n)
    → (recycle_each m (i ∷ ids) force reason).1 ≡ (recycle_each n ids force reason).1
unfolding recycle_each
recycle_each-ok m n i ids force reason r h = ground (arith, h)

recycle_each-get :
    (m : Manager) (ids : List Text) (force : Bool) (reason : ClosingReason) (id : Text)
    → IsSound m
    → IsSound (recycle_each m ids force reason).1
      × (get (recycle_each m ids force reason).1.by_id id
          ≡ survives m force ids id (get m.by_id id))
unfolding recycle_each
recycle_each-get m [] force reason id s = (s, sym (survives-nil m force id (get m.by_id id)))
recycle_each-get m (i ∷ ids) force reason id s = elim (Option-cases (get m.by_id i)) [
  | inl absent ↦
      let (s', e) = recycle_each-get m ids force reason id s in
      rw (recycle_each-err m i ids force reason _ (recycle-absent m i force reason absent))
        (s', e ∙ sym (survives-skip m force i ids id λ r found. ground arith))
  | inr (q, found) ↦ elim (Bool-cases (not (is_busy (m.heap q)) || force)) [
    | inl passes ↦
        let named : (m.heap q).resource_id ≡ i = s.registry.id_of i q found in
        let (s', e) =
          recycle_each-get (retire m q reason) ids force reason id
            (retire-IsSound m q reason s (rw named found)) in
        rw
          (recycle_each-ok m _ i ids force reason q (recycle-stays m i force reason q found passes))
          (s', e ∙ survives-taken m q reason force i ids id s found passes)
    | inr fails ↦
        let (s', e) = recycle_each-get m ids force reason id s in
        rw
          (recycle_each-err m i ids force reason _ (recycle-refused m i force reason q found fails))
          (s', e ∙ sym (survives-skip m force i ids id λ r there. ground arith))
  ]
]

-- After `recycle_all` no kernel is registered, busy ones included, and the registry is sound.
pub recycle_all-IsSound :
    (m : Manager)
    → IsSound m
    → IsSound (recycle_all m).1 × ((id : Text) → get (recycle_all m).1.by_id id ≡ none)
unfolding recycle_all survives
recycle_all-IsSound m s = (
  (recycle_each-get m (keys m.by_id) true recycle_all_kernels [] s).0,
  λ id. (recycle_each-get m (keys m.by_id) true recycle_all_kernels id s).1 ∙ none_left id,
)
  where
    none_left : (id : Text) → survives m true (keys m.by_id) id (get m.by_id id) ≡ none
    none_left id = elim (Option-cases (get m.by_id id)) [
      | inl absent ↦ rw absent
      | inr (r, found) ↦ rw (found, elem-keys m.by_id id (ground arith)) (ground arith)
    ]

elem-idle_ids :
    (m : Manager) (l : List Ref) (i : Text)
    → elem i (idle_ids m l)
      ≡ any (λ q. not (is_busy (m.heap q)) && text_eq (m.heap q).resource_id i) l
unfolding idle_ids elem
elem-idle_ids m [] i = refl
elem-idle_ids m (r ∷ l) i = ground (arith, elem-idle_ids m l i)

idle_listed :
    (m : Manager) (id : Text) (r : Ref)
    → IsSound m
    → get m.by_id id ≡ some r
    → is_busy (m.heap r) ≡ false
    → elem id (idle_ids m (values m.by_id)) ≡ true
idle_listed m id r s found idle =
    elem-idle_ids m (values m.by_id) id
    ∙ any-values (λ q. not (is_busy (m.heap q)) && text_eq (m.heap q).resource_id id) m.by_id id r
        found (rw (idle, s.registry.id_of id r found) (text_eq_refl id))

-- After `recycle_idle` exactly the kernels are registered that were, and were busy.
pub recycle_idle-IsSound :
    (m : Manager)
    → IsSound m
    → IsSound (recycle_idle m).1
      × ((id : Text) (r : Ref)
          → (get (recycle_idle m).1.by_id id ≡ some r)
            ↔ ((get m.by_id id ≡ some r) × (is_busy (m.heap r) ≡ true)))
unfolding recycle_idle survives
recycle_idle-IsSound m s = (
  (recycle_each-get m (idle_ids m (values m.by_id)) false idle_cleanup [] s).0,
  λ id r.
      let e = (recycle_each-get m (idle_ids m (values m.by_id)) false idle_cleanup id s).1 in
      (λ h. (busy_left id r).0 (sym e ∙ h), λ h. e ∙ (busy_left id r).1 h),
)
  where
    busy_left :
        (id : Text) (r : Ref)
        → (survives m false (idle_ids m (values m.by_id)) id (get m.by_id id) ≡ some r)
          ↔ ((get m.by_id id ≡ some r) × (is_busy (m.heap r) ≡ true))
    busy_left id r = elim (Option-cases (get m.by_id id)) [
      | inl absent ↦ rw absent (ground arith)
      | inr (q, found) ↦ elim (Bool-cases (is_busy (m.heap q))) [
        | inl busy ↦ rw (found, busy) (ground arith)
        | inr idle ↦ rw (found, idle, idle_listed m id q s found idle) (ground arith)
      ]
    ]
