-- ===== src/Manager/Rename/Sound.antt =====
-- resource/manager.py: what a renaming does to the registry.
use loommux.Prelude.{
  Option-cases, ◌⊎◌, ℕ, text_eq, sym, ==_iff, if◌then◌else◌, text_eq_refl, subst, ◌==◌, ◌∙◌,
  Bool-cases, text_eq_iff, text_is_eq, arith, ◌≢◌, Text, ◌≡◌, inr, inl, false, true, refl, some,
  none,
}
use loommux.Manager.State.{assign-IsSound, assign, IsAlive, IsSound, Ref, Manager}
use loommux.Prelude.Dict.{get-put, get-remove, has, remove, get}
use loommux.Manager.Rename.{rename, renamed, named_as, rekey, unkeyed}
use loommux.Model.{resource_key, key}
use loommux.Model.Keys.{NoColon, HomeOk}
use loommux.Manager.Names.{home_names, is_taken, numbered}
use loommux.Manager.Names.Free.{free_name-IsFirst, IsFirst}
use loommux.Prelude.Result.{ok}

module _ (m : Manager) (r : Ref) (s : IsSound m)
    (here : get m.by_id (m.heap r).resource_id ≡ some r) where
  abbrev bare : Manager
  bare = record m { by_key = remove m.by_key (key (m.heap r)) }

  unkeyed_lem : unkeyed m r ≡ bare
  unfolding unkeyed
  unkeyed_lem = ground (arith, s.registry.in_keys (m.heap r).resource_id r here)

  bare_key : (k : Text) (q : Ref) → get bare.by_key k ≡ some q → (get m.by_key k ≡ some q) × (q ≢ r)
  bare_key k q h = ground (
    arith,
    get-remove m.by_key (key (m.heap r)) k,
    text_eq_iff (key (m.heap r)) k,
    s.registry.key_of k q,
  )

  key_differs :
      (id : Text) (q : Ref)
      → get m.by_id id ≡ some q
      → q ≢ r
      → get bare.by_key (key (m.heap q)) ≡ some q
  key_differs id q found ne = ground (
    arith,
    get-remove m.by_key (key (m.heap r)) (key (m.heap q)),
    text_eq_iff (key (m.heap r)) (key (m.heap q)),
    s.registry.in_keys id q found,
    s.registry.in_keys (m.heap r).resource_id r here,
  )

  module _ (name : Text) (vacant : get bare.by_key (resource_key name (m.heap r).home) ≡ none)
      (unclaimed : has m.provisioning (resource_key name (m.heap r).home) ≡ false) where
    abbrev after : Manager
    after = rekey bare r name

    rekey_id : (q : Ref) → (after.heap q).resource_id ≡ (m.heap q).resource_id
    unfolding rekey named_as
    rekey_id q = ground arith

    rekey_home : (q : Ref) → (after.heap q).home ≡ (m.heap q).home
    unfolding rekey named_as
    rekey_home q = ground arith

    rekey_leases : (q : Ref) → (after.heap q).client_leases ≡ (m.heap q).client_leases
    unfolding rekey named_as
    rekey_leases q = ground arith

    rekey-IsAlive : (q : Ref) → IsAlive (m.heap q) → IsAlive (after.heap q)
    unfolding rekey named_as
    rekey-IsAlive q a = ground arith

    key_other : (q : Ref) → q ≢ r → key (after.heap q) ≡ key (m.heap q)
    unfolding rekey named_as
    key_other q ne = ground arith

    key_self : key (after.heap r) ≡ resource_key name (m.heap r).home
    unfolding rekey named_as
    key_self = ground arith

    by_key_after :
        (k : Text)
        → get after.by_key k
          ≡ (if text_eq (resource_key name (m.heap r).home) k then some r else get bare.by_key k)
    unfolding rekey named_as
    by_key_after k = get-put bare.by_key (resource_key name (m.heap r).home) k r

    same_ids : after.by_id ≡ m.by_id
    unfolding rekey
    same_ids = refl

    in_keys_after :
        (id : Text) (q : Ref)
        → get m.by_id id ≡ some q
        → get after.by_key (key (after.heap q)) ≡ some q
    in_keys_after id q found = elim (Bool-cases (q == r)) [
      | inl e ↦
          let same : q ≡ r = (==_iff q r).0 e in
          rw (same, key_self, by_key_after, text_eq_refl (resource_key name (m.heap r).home))
      | inr e ↦
          let ne : q ≢ r = ground arith in
          rw (key_other q ne) (
            ground (
              arith,
              by_key_after (key (m.heap q)),
              key_differs id q found ne,
              text_eq_iff (resource_key name (m.heap r).home) (key (m.heap q)),
            ))
    ]

    key_of_after : (k : Text) (q : Ref) → get after.by_key k ≡ some q → key (after.heap q) ≡ k
    key_of_after k q h = ground (
      arith,
      by_key_after k,
      text_eq_iff (resource_key name (m.heap r).home) k,
      bare_key k q,
      key_self,
      key_other q,
      s.registry.key_of k q,
    )

    in_ids_after :
        (k : Text) (q : Ref)
        → get after.by_key k ≡ some q
        → get m.by_id (m.heap q).resource_id ≡ some q
    in_ids_after k q h = ground (arith, by_key_after k, bare_key k q, s.registry.in_ids k q, here)

    rekey-IsSound : IsSound after
    unfolding rekey
    rekey-IsSound = record {
      registry = record {
        ids_distinct = s.registry.ids_distinct;
        id_of = λ id q h. rekey_id q ∙ s.registry.id_of id q h;
        in_keys = λ id q h. in_keys_after id q h;
        key_of = λ k q h. key_of_after k q h;
        in_ids = λ k q h. rw (rekey_id q) (in_ids_after k q h);
        allocated = s.registry.allocated;
        homes = λ q. subst HomeOk (sym (rekey_home q)) (s.registry.homes q);
        ids = λ q. subst NoColon (sym (rekey_id q)) (s.registry.ids q);
      };
      leased = record {
        main_only = λ id c q h held.
            rekey_home q
            ∙ s.leased.main_only id c q h (subst (λ d. has d c ≡ true) (rekey_leases q) held);
        one_lease = λ c id id' q p h h' held held'.
            s.leased.one_lease c id id' q p h h' (subst (λ d. has d c ≡ true) (rekey_leases q) held)
              (subst (λ d. has d c ≡ true) (rekey_leases p) held');
        alive = λ id q h. rekey-IsAlive q (s.leased.alive id q h);
      };
      reserved = record {
        pending = λ k t h p.
            let (a, b, c) = s.reserved.pending k t h p in
            (
              ground (
                arith,
                by_key_after k,
                text_eq_iff (resource_key name (m.heap r).home) k,
                get-remove m.by_key (key (m.heap r)) k,
              ),
              b,
              c,
            );
      };
    }

    rekey-found : get after.by_key (resource_key name (m.heap r).home) ≡ some r
    rekey-found = by_key_after _ ∙ rw (text_eq_refl (resource_key name (m.heap r).home))

    rekey-name : ((after.heap r).name ≡ name) × ((after.heap r).named ≡ true)
    unfolding rekey named_as
    rekey-name = ground arith

-- What a renaming leaves: the kernel found under its id as before, now named.
record IsRenamed (m n : Manager) (r : Ref) (name : Text) : Type 0 where
  pub sound : IsSound n
  pub same_ids : n.by_id ≡ m.by_id
  pub named : (n.heap r).named ≡ true
  pub name_is : (n.heap r).name ≡ name
  pub found : get n.by_key (resource_key name (m.heap r).home) ≡ some r

module _ (m : Manager) (r : Ref) (s : IsSound m) (name : Text)
    (here : get m.by_id (m.heap r).resource_id ≡ some r) where
  renamed-IsRenamed :
      (n : ℕ) × IsRenamed m (renamed m r name) r (numbered name n)
      × IsFirst (is_taken (unkeyed m r) (m.heap r).home (home_names (unkeyed m r) r)) name 1 n
  unfolding renamed
  renamed-IsRenamed = rw (unkeyed_lem m r s here) (
      let b = bare m r s here in
      let (n, e, first) =
        free_name-IsFirst b name (m.heap r).home (home_names b r) (s.registry.homes r) in
      let vacant : get b.by_key (resource_key (numbered name n) (m.heap r).home) ≡ none =
        ground (arith, first.free) in
      let unclaimed : has m.provisioning (resource_key (numbered name n) (m.heap r).home) ≡ false =
        ground (arith, first.free) in
      (
        n,
        rw e (record {
          sound = rekey-IsSound m r s here (numbered name n) vacant unclaimed;
          same_ids = same_ids m r s here (numbered name n) vacant unclaimed;
          named = (rekey-name m r s here (numbered name n) vacant unclaimed).1;
          name_is = (rekey-name m r s here (numbered name n) vacant unclaimed).0;
          found = rekey-found m r s here (numbered name n) vacant unclaimed;
        }),
        first,
      ))

abbrev Outcome : Manager → Manager → Ref → Text → Text → Type 0
Outcome m n r id name =
    IsSound n
    × (n.by_id ≡ m.by_id)
    × (get m.by_id id ≡ some r)
    × ((n.heap r).named ≡ true)
    × (((m.heap r).name ≡ name) × ((n.heap r).name ≡ name)
        ⊎ ((i : ℕ) × ((n.heap r).name ≡ numbered name i)
            × (get n.by_key (resource_key (numbered name i) (m.heap r).home) ≡ some r)
            × IsFirst (is_taken (unkeyed m r) (m.heap r).home (home_names (unkeyed m r) r)) name 1
                i))

keeps_name :
    (m : Manager) (r : Ref) (id name : Text)
    → IsSound m
    → get m.by_id id ≡ some r
    → name ≡ (m.heap r).name
    → Outcome m (assign m r (named_as (m.heap r) name)) r id name
unfolding named_as
keeps_name m r id name s found same = (
  assign-IsSound m r _ refl same refl refl (λ a. a) s,
  refl,
  found,
  ground arith,
  inl (sym same, ground arith),
)

gets_name :
    (m : Manager) (r : Ref) (id name : Text)
    → IsSound m
    → get m.by_id id ≡ some r
    → get m.by_id (m.heap r).resource_id ≡ some r
    → Outcome m (renamed m r name) r id name
gets_name m r id name s found here =
    let (n, after, first) = renamed-IsRenamed m r s name here in
    (after.sound, after.same_ids, found, after.named, inr (n, after.name_is, after.found, first))

-- A renaming changes no id and keeps the registry sound. The kernel gets the first of name, name-2,
-- name-3 and so on that no other kernel of its scope has or is about to have, or keeps its name if
-- it is the one asked for, and counts as named.
pub rename-IsSound :
    (m m' : Manager) (id name : Text) (r : Ref)
    → IsSound m
    → rename m id name ≡ ok (r, m')
    → IsSound m'
      × (m'.by_id ≡ m.by_id)
      × (get m.by_id id ≡ some r)
      × ((m'.heap r).named ≡ true)
      × (((m.heap r).name ≡ name) × ((m'.heap r).name ≡ name)
          ⊎ ((n : ℕ) × ((m'.heap r).name ≡ numbered name n)
              × (get m'.by_key (resource_key (numbered name n) (m.heap r).home) ≡ some r)
              × IsFirst
                  (is_taken (unkeyed m r) (m.heap r).home (home_names (unkeyed m r) r))
                  name
                  1
                  n))
unfolding rename
rename-IsSound m m' id name r s e = elim (Option-cases (get m.by_id id)) [
  | inl absent ↦ ground arith
  | inr (q, found) ↦
      let same : q ≡ r = ground arith in
      let found' : get m.by_id id ≡ some r = ground arith in
      let here : get m.by_id (m.heap r).resource_id ≡ some r =
        rw (s.registry.id_of id r found') found' in
      elim (Bool-cases (text_eq name (m.heap r).name)) [
        | inl kept ↦
            subst (λ n. Outcome m n r id name) (ground arith)
              (keeps_name m r id name s found' ((text_eq_iff name (m.heap r).name).0 kept))
        | inr new ↦
            subst (λ n. Outcome m n r id name) (ground arith) (gets_name m r id name s found' here)
      ]
]
