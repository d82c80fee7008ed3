-- ===== src/Manager/Detach.antt =====
-- resource/manager.py: `_detach_locked` on a registered kernel.
use loommux.Prelude.{
  ◌==◌, false, text_eq_iff, text_eq, text_is_eq, arith, if◌then◌else◌, ◌≢◌, Text, ◌≡◌, some, none,
}
use loommux.Manager.State.{
  assign-has, assign-Keeps, quiet-IsSound, assign, detach, IsSound, Ref, Manager,
}
use loommux.Prelude.Dict.{get-remove, remove, remove-Distinct, get}
use loommux.Model.{key, KernelResource}

module _ (m : Manager) (r : Ref) (s : IsSound m)
    (here : get m.by_id (m.heap r).resource_id ≡ some r) where
  -- Both registries lose the kernel.
  pub detach-registered : detach m r ≡ record m {
    by_id = remove m.by_id (m.heap r).resource_id;
    by_key = remove m.by_key (key (m.heap r));
  }
  unfolding detach
  detach-registered = ground (arith, s.registry.in_keys (m.heap r).resource_id r here)

  abbrev without : Manager
  without = record m {
    by_id = remove m.by_id (m.heap r).resource_id;
    by_key = remove m.by_key (key (m.heap r));
  }

  get-by_id :
      (id : Text) (q : Ref) → get without.by_id id ≡ some q → (get m.by_id id ≡ some q) × (q ≢ r)
  get-by_id id q h = ground (
    arith,
    get-remove m.by_id (m.heap r).resource_id id,
    text_eq_iff (m.heap r).resource_id id,
    s.registry.id_of id q,
  )

  get-by_key :
      (k : Text) (q : Ref) → get without.by_key k ≡ some q → (get m.by_key k ≡ some q) × (q ≢ r)
  get-by_key k q h = ground (
    arith,
    get-remove m.by_key (key (m.heap r)) k,
    text_eq_iff (key (m.heap r)) k,
    s.registry.key_of k q,
  )

  key_stays :
      (id : Text) (q : Ref)
      → get m.by_id id ≡ some q
      → q ≢ r
      → get without.by_key (key (m.heap q)) ≡ some q
  key_stays id q found ne = ground (
    arith,
    get-remove m.by_key (key (m.heap r)) (key (m.heap q)),
    text_eq_iff (key (m.heap r)) (key (m.heap q)),
    s.registry.in_keys id q found,
    s.registry.in_keys (m.heap r).resource_id r here,
  )

  id_stays :
      (q : Ref)
      → get m.by_id (m.heap q).resource_id ≡ some q
      → q ≢ r
      → get without.by_id (m.heap q).resource_id ≡ some q
  id_stays q found ne = ground (
    arith,
    get-remove m.by_id (m.heap r).resource_id (m.heap q).resource_id,
    text_eq_iff (m.heap r).resource_id (m.heap q).resource_id,
    here,
  )

  without-IsSound : IsSound without
  without-IsSound = record {
    registry = record {
      ids_distinct = remove-Distinct m.by_id (m.heap r).resource_id s.registry.ids_distinct;
      id_of = λ id q h. s.registry.id_of id q (get-by_id id q h).0;
      in_keys = λ id q h. let (a, b) = get-by_id id q h in key_stays id q a b;
      key_of = λ k q h. s.registry.key_of k q (get-by_key k q h).0;
      in_ids = λ k q h. let (a, b) = get-by_key k q h in id_stays q (s.registry.in_ids k q a) b;
      allocated = λ id q h. s.registry.allocated id q (get-by_id id q h).0;
      homes = s.registry.homes;
      ids = s.registry.ids;
    };
    leased = record {
      main_only = λ id c q h held. s.leased.main_only id c q (get-by_id id q h).0 held;
      one_lease = λ c id id' q q' h h' held held'.
          s.leased.one_lease c id id' q q' (get-by_id id q h).0 (get-by_id id' q' h').0 held held';
      alive = λ id q h. s.leased.alive id q (get-by_id id q h).0;
    };
    reserved = record {
      pending = λ k t h p.
          let (a, b, c) = s.reserved.pending k t h p in
          (ground (arith, get-remove m.by_key (key (m.heap r)) k), b, c);
    };
  }

  pub detach-IsSound : IsSound (detach m r)
  detach-IsSound = rw detach-registered without-IsSound

  -- After that, no lookup finds the kernel, and the others are found as before.
  pub get-detach :
      (id : Text)
      → get (detach m r).by_id id
        ≡ (if text_eq (m.heap r).resource_id id then none else get m.by_id id)
  get-detach id = rw detach-registered (get-remove m.by_id (m.heap r).resource_id id)

  pub gone : (id : Text) → get (detach m r).by_id id ≢ some r
  gone id h =
      ground (arith, get-detach id, text_eq_iff (m.heap r).resource_id id, s.registry.id_of id r)

  -- A kernel that is in no registry can change its life freely.
  pub closed-IsSound :
      (x : KernelResource)
      → x.resource_id ≡ (m.heap r).resource_id
      → x.name ≡ (m.heap r).name
      → x.home ≡ (m.heap r).home
      → x.client_leases ≡ (m.heap r).client_leases
      → IsSound (assign (detach m r) r x)
  closed-IsSound x id name home leases = rw detach-registered (
      quiet-IsSound without _ (assign-Keeps without r x id name home)
        (λ q c h. ground (arith, assign-has without r x leases q c))
        (λ j q found a. rw (elsewhere q (get-by_id j q found).1) a) without-IsSound)
    where
      elsewhere : (q : Ref) → q ≢ r → (r == q) ≡ false
      elsewhere q ne = ground arith
