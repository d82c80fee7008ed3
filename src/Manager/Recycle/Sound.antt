-- ===== src/Manager/Recycle/Sound.antt =====
-- resource/manager.py: one kernel leaves, or all do, and the registry stays sound.
use loommux.Prelude.{
  ==_iff, ◌==◌, ap, ◌∙◌, Option-cases, sym, ◌⊎◌, text_eq, text_is_eq, subst, arith, if◌then◌else◌,
  ◌∷◌, ◌≡◌, List, ◌≢◌, Bool, Text, [], inr, inl, false, true, refl, some, none,
}
use loommux.Manager.Recycle.{recovery_fails, stop_begin, retire, close_all, recycle, stop_clear}
use loommux.Manager.State.{
  assign-has, assign-Keeps, assign, detach, quiet-IsSound, store, detach-heap, IsSound, Ref,
  Manager,
}
use loommux.Prelude.Dict.{Dict, remove, values, get}
use loommux.Model.{
  key, recovery_failed, server_shutdown, closing, is_busy, KernelResource, ClosingReason,
}
use loommux.Manager.Detach.{get-detach, closed-IsSound}
use loommux.Prelude.Result.{ok}
use loommux.Model.Keys.{NoColon, HomeOk}

module _ (m : Manager) (r : Ref) (reason : ClosingReason) (s : IsSound m)
    (here : get m.by_id (m.heap r).resource_id ≡ some r) where
  pub retire-IsSound : IsSound (retire m r reason)
  unfolding retire
  retire-IsSound = closed-IsSound m r s here _ refl refl refl refl

  pub get-retire :
      (id : Text)
      → get (retire m r reason).by_id id
        ≡ (if text_eq (m.heap r).resource_id id then none else get m.by_id id)
  unfolding retire
  get-retire id = get-detach m r s here id

pub retire-heap :
    (m : Manager) (r q : Ref) (reason : ClosingReason)
    → q ≢ r
    → (retire m r reason).heap q ≡ m.heap q
unfolding retire
retire-heap m r q reason ne = ground (arith, detach-heap m r)

closed_with :
    (m : Manager) (r : Ref) (reason : ClosingReason)
    → ((retire m r reason).heap r).closing_reason ≡ some reason
unfolding retire
closed_with m r reason = ground arith

-- A recycling succeeds exactly if the kernel is registered, and is not busy or is forced out. It
-- then takes that kernel, and no other, out of the registry, which stays sound.
pub recycle-IsSound :
    (m m' : Manager) (id : Text) (force : Bool) (reason : ClosingReason) (r : Ref)
    → IsSound m
    → recycle m id force reason ≡ ok (r, m')
    → (get m.by_id id ≡ some r)
      × ((force ≡ true) ⊎ (is_busy (m.heap r) ≡ false))
      × IsSound m'
      × ((j : Text) → get m'.by_id j ≡ (if text_eq id j then none else get m.by_id j))
      × ((m'.heap r).closing_reason ≡ some reason)
unfolding recycle
recycle-IsSound m m' id force reason r s e = elim (Option-cases (get m.by_id id)) [
  | inl absent ↦ ground arith
  | inr (q, found) ↦
      let found' : get m.by_id id ≡ some r = ground arith in
      let named : (m.heap r).resource_id ≡ id = s.registry.id_of id r found' in
      let here : get m.by_id (m.heap r).resource_id ≡ some r = rw named found' in
      let same : retire m r reason ≡ m' = ground arith in
      (
        found',
        ground arith,
        subst IsSound same (retire-IsSound m r reason s here),
        λ j.
            subst (λ n. get n.by_id j ≡ (if text_eq id j then none else get m.by_id j)) same
              (get-retire m r reason s here j ∙ rw named),
        subst (λ n. (n.heap r).closing_reason ≡ some reason) same (closed_with m r reason),
      )
]

close_all-id :
    (h : Ref → KernelResource) (l : List Ref) (q : Ref)
    → ((close_all h l q).resource_id ≡ (h q).resource_id) × ((close_all h l q).home ≡ (h q).home)
unfolding close_all
close_all-id h [] q = (refl, refl)
close_all-id h (r ∷ l) q =
    let (a, b) =
      close_all-id
        (store h r (record (h r) { lifecycle = closing; closing_reason = some server_shutdown })) l
        q in
    (a ∙ ground arith, b ∙ ground arith)

-- A stopping manager that has emptied its registries stays sound, and no kernel is registered.
pub stop_clear-IsSound :
    (m : Manager)
    → IsSound m
    → IsSound (stop_clear m) × ((id : Text) → get (stop_clear m).by_id id ≡ none)
unfolding stop_clear get
stop_clear-IsSound m s = (
  record {
    registry = record {
      ids_distinct = tt;
      id_of = λ id r h. ground arith;
      in_keys = λ id r h. ground arith;
      key_of = λ k r h. ground arith;
      in_ids = λ k r h. ground arith;
      allocated = λ id r h. ground arith;
      homes =
          λ r. subst HomeOk (sym (close_all-id m.heap (values m.by_id) r).1) (s.registry.homes r);
      ids = λ r. subst NoColon (sym (close_all-id m.heap (values m.by_id) r).0) (s.registry.ids r);
    };
    leased = record {
      main_only = λ id c r h held. ground arith;
      one_lease = λ c id id' r q h h' held held'. ground arith;
      alive = λ id r h. ground arith;
    };
    reserved = record {
      pending = λ k t h p. (refl, (s.reserved.pending k t h p).1, (s.reserved.pending k t h p).2);
    };
  },
  λ id. refl,
)

pub stop_begin-IsSound : (m : Manager) → IsSound m → IsSound (stop_begin m)
unfolding stop_begin
stop_begin-IsSound m s =
    quiet-IsSound m _
      (record {
        same_ids = refl;
        same_keys = refl;
        same_next = refl;
        same_tasks = refl;
        same_id = λ q. refl;
        same_name = λ q. refl;
        same_home = λ q. refl;
      })
      (λ q c h. h) (λ id q f a. a) s

remove-absent : {A : Type 0} (d : Dict Text A) (k : Text) → get d k ≡ none → remove d k ≡ d
unfolding get remove
remove-absent [] k h = refl
remove-absent ((j, v) ∷ d) k h = ground (arith, remove-absent d k)

-- Nothing is detached where the id of the kernel is in no use any more.
detach-absent :
    (m : Manager) (r : Ref) → IsSound m → get m.by_id (m.heap r).resource_id ≡ none → detach m r ≡ m
unfolding detach
detach-absent m r s absent = ground (
  arith,
  remove-absent m.by_id (m.heap r).resource_id absent,
  s.registry.in_ids (key (m.heap r)) r,
  ==_iff r r,
)

-- A kernel that is in no registry changes its life freely.
pub unregistered-IsSound :
    (m : Manager) (r : Ref) (x : KernelResource)
    → IsSound m
    → get m.by_id (m.heap r).resource_id ≢ some r
    → x.resource_id ≡ (m.heap r).resource_id
    → x.name ≡ (m.heap r).name
    → x.home ≡ (m.heap r).home
    → x.client_leases ≡ (m.heap r).client_leases
    → IsSound (assign m r x)
unregistered-IsSound m r x s away id name home leases =
    quiet-IsSound m _ (assign-Keeps m r x id name home)
      (λ q c h. sym (assign-has m r x leases q c) ∙ h) (λ j q found a. rw (elsewhere j q found) a) s
  where
    elsewhere : (j : Text) (q : Ref) → get m.by_id j ≡ some q → (r == q) ≡ false
    elsewhere j q found = ground (arith, s.registry.id_of j q found)

-- A recovery that fails takes the kernel out of the registry if it is still there. Its id names no
-- other kernel, then or later.
pub recovery_fails-IsSound :
    (m : Manager) (r : Ref)
    → IsSound m
    → ((q : Ref) → get m.by_id (m.heap r).resource_id ≡ some q → q ≡ r)
    → IsSound (recovery_fails m r)
unfolding recovery_fails retire
recovery_fails-IsSound m r s own = elim (Option-cases (get m.by_id (m.heap r).resource_id)) [
  | inr (q, found) ↦
      let here : get m.by_id (m.heap r).resource_id ≡ some r = found ∙ ap some (own q found) in
      retire-IsSound m r recovery_failed s here
  | inl absent ↦
      rw (detach-absent m r s absent)
        (unregistered-IsSound m r _ s (λ h. absurd (ground arith)) refl refl refl refl)
]
