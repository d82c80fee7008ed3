-- ===== src/Manager/Claims/Enroll.antt =====
-- resource/manager.py: the registration of a kernel that has started.
use loommux.Prelude.{
  ◌⊎◌, ◌≢◌, true, text_eq_refl, text_eq_iff, arith, ◌<◌, text_is_eq, ◌≡◌, ℕ, Text, false, some,
  none,
}
use loommux.Manager.State.{
  IsAlive, IsLeased, store-all, IsReserved, IsRegistry, Ref, Task, IsSound, Manager,
}
use loommux.Model.{key, new_resource, resource_key, KernelResource, SessionFacts}
use loommux.Prelude.Dict.{has, get-put, put-Distinct, get}
use loommux.Model.Keys.{HomeOk, NoColon}
use loommux.Manager.Claims.{provision, enroll}
use loommux.Prelude.Result.{ok}

module _ (m : Manager) (s : IsSound m) (k : Text) (t : Task) (id : Text) (session : SessionFacts)
    (wall : ℕ) (there : get m.provisioning k ≡ some t) (waits : t.registered ≡ false)
    (fresh : get m.by_id id ≡ none) (hex : NoColon id) where
  abbrev after : Manager
  after = enroll m k t id session wall

  free : get m.by_key k ≡ none
  free = (s.reserved.pending k t there waits).0

  key_of_task : resource_key t.name t.home ≡ k
  key_of_task = (s.reserved.pending k t there waits).1

  below : (j : Text) (r : Ref) → get m.by_key j ≡ some r → r < m.next_ref
  below j r h = s.registry.allocated _ r (s.registry.in_ids j r h)

  abbrev new : KernelResource
  new = new_resource t.name session t.home t.named id wall

  enroll-IsRegistry : IsRegistry after
  unfolding enroll new_resource
  enroll-IsRegistry = record {
    ids_distinct = put-Distinct m.by_id id m.next_ref s.registry.ids_distinct;
    id_of = λ j r h. ground (
      arith,
      get-put m.by_id id j m.next_ref,
      text_eq_iff id j,
      s.registry.id_of j r,
      s.registry.allocated j r,
    );
    in_keys = λ j r h. ground (
      arith,
      get-put m.by_id id j m.next_ref,
      text_eq_iff id j,
      get-put m.by_key k (key (m.heap r)) m.next_ref,
      text_eq_iff k (key (m.heap r)),
      get-put m.by_key k k m.next_ref,
      text_eq_refl k,
      key_of_task,
      free,
      s.registry.in_keys j r,
      s.registry.allocated j r,
    );
    key_of = λ j r h. ground (
      arith,
      get-put m.by_key k j m.next_ref,
      text_eq_iff k j,
      s.registry.key_of j r,
      below j r,
      key_of_task,
    );
    in_ids = λ j r h. ground (
      arith,
      get-put m.by_key k j m.next_ref,
      text_eq_iff k j,
      s.registry.in_ids j r,
      below j r,
      get-put m.by_id id (m.heap r).resource_id m.next_ref,
      text_eq_iff id (m.heap r).resource_id,
      get-put m.by_id id id m.next_ref,
      text_eq_refl id,
      fresh,
    );
    allocated = λ j r h. ground (arith, get-put m.by_id id j m.next_ref, s.registry.allocated j r);
    homes = λ r.
        store-all (λ x. HomeOk x.home) m.heap m.next_ref r new
          (s.reserved.pending k t there waits).2 (s.registry.homes r);
    ids =
        λ r. store-all (λ x. NoColon x.resource_id) m.heap m.next_ref r new hex (s.registry.ids r);
  }

  found_after :
      (j : Text) (r : Ref)
      → get after.by_id j ≡ some r
      → (r ≡ m.next_ref) ⊎ ((r < m.next_ref) × (get m.by_id j ≡ some r))
  unfolding enroll
  found_after j r h =
      ground (arith, get-put m.by_id id j m.next_ref, text_eq_iff id j, s.registry.allocated j r)

  has_after :
      (r : Ref) (client : Text)
      → has (after.heap r).client_leases client ≡ true
      → (r ≢ m.next_ref) × (has (m.heap r).client_leases client ≡ true)
  unfolding enroll new_resource get
  has_after r client h = ground arith

  home_after : (r : Ref) → r ≢ m.next_ref → (after.heap r).home ≡ (m.heap r).home
  unfolding enroll
  home_after r ne = ground arith

  IsAlive-after :
      (r : Ref)
      → ((r ≡ m.next_ref) ⊎ ((r < m.next_ref) × IsAlive (m.heap r)))
      → IsAlive (after.heap r)
  unfolding enroll new_resource
  IsAlive-after r h = ground arith

  enroll-IsLeased : IsLeased after
  enroll-IsLeased = record {
    main_only = λ j client r found held.
        let (old, before) = has_after r client held in
        ground (arith, found_after j r found, home_after r old, s.leased.main_only j client r);
    one_lease = λ client j j' r q found found' held held'.
        let (old, before) = has_after r client held in
        let (old', before') = has_after q client held' in
        ground (
          arith,
          found_after j r found,
          found_after j' q found',
          s.leased.one_lease client j j' r q,
        );
    alive =
        λ j r found. IsAlive-after r (ground (arith, found_after j r found, s.leased.alive j r));
  }

  enroll-IsReserved : IsReserved after
  unfolding enroll
  enroll-IsReserved = record {
    pending = λ j u h p. ground (
      arith,
      get-put m.provisioning k j (record t { registered = true }),
      text_eq_iff k j,
      get-put m.by_key k j m.next_ref,
      s.reserved.pending j u,
    );
  }

  enroll-places :
      (get after.by_key k ≡ some m.next_ref)
      × (get after.by_id id ≡ some m.next_ref)
      × ((after.heap m.next_ref).name ≡ t.name)
      × ((after.heap m.next_ref).home ≡ t.home)
  unfolding enroll new_resource
  enroll-places = ground (
    arith,
    get-put m.by_key k k m.next_ref,
    get-put m.by_id id id m.next_ref,
    text_eq_refl k,
    text_eq_refl id,
  )

-- Unless the manager is stopping, a kernel that a task has started is registered, under the task's
-- key, where nothing stood, and under its id; it has the task's name and home, and the registry
-- stays sound. Its id is in no use before, and has no colon.
pub provision-IsSound :
    (m : Manager) (k : Text) (t : Task) (id : Text) (session : SessionFacts) (wall : ℕ)
    → IsSound m
    → m.stopping ≡ false
    → get m.provisioning k ≡ some t
    → t.registered ≡ false
    → get m.by_id id ≡ none
    → NoColon id
    → (m' : Manager) × (provision m k id session wall ≡ ok m')
      × IsSound m'
      × (get m.by_key k ≡ none)
      × (get m'.by_key k ≡ some m.next_ref)
      × (get m'.by_id id ≡ some m.next_ref)
      × ((m'.heap m.next_ref).name ≡ t.name)
      × ((m'.heap m.next_ref).home ≡ t.home)
unfolding provision
provision-IsSound m k t id session wall s live there waits fresh hex =
    let places = enroll-places m s k t id session wall there waits fresh hex in
    (
      enroll m k t id session wall,
      rw (live, there),
      record {
        registry = enroll-IsRegistry m s k t id session wall there waits fresh hex;
        leased = enroll-IsLeased m s k t id session wall there waits fresh hex;
        reserved = enroll-IsReserved m s k t id session wall there waits fresh hex;
      },
      free m s k t id session wall there waits fresh hex,
      places.0,
      places.1,
      places.2,
      places.3,
    )

pub not_stopping :
    (m m' : Manager) (k id : Text) (session : SessionFacts) (wall : ℕ)
    → provision m k id session wall ≡ ok m'
    → m.stopping ≡ false
unfolding provision
not_stopping m m' k id session wall e = ground arith
