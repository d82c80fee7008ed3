-- ===== src/Manager/State.antt =====
-- resource/manager.py: the state of `KernelResourceManager`. Kernel objects are shared by the two
-- registries and by the calls at work on them, so they stand in a heap, and `is` compares references.
use loommux.Prelude.{
  ==_iff, refl, Bool-cases, fun_ext, Option-cases, ap, inr, inl, sym, arith, subst, ◌⊎◌, false,
  true, text_is_eq, is_some, ◌<◌, ◌==◌, Bool, if◌then◌else◌, Option, ◌≡◌, Text, ℕ, some, none,
}
use loommux.Model.{orphaned, running, resource_key, key, KernelResource}
use loommux.Prelude.Dict.{
  first-values-none, first-values-some, values, has, remove, Dict, get, Distinct,
}
use loommux.Prelude.Lists.{first}
use loommux.Connections.{ConnectionRegistry}
use loommux.Model.Keys.{NoColon, HomeOk}

abbrev pub Ref : Type 0
Ref = ℕ

-- A task that starts a kernel. It is `registered` from the moment its kernel is in the registries
-- until it takes itself off the table of tasks.
pub record Task : Type 0 where
  pub name : Text
  pub home : Option Text
  pub named : Bool
  pub registered : Bool

pub record Manager : Type 0 where
  pub heap : Ref → KernelResource
  pub next_ref : Ref
  pub by_key : Dict Text Ref
  pub by_id : Dict Text Ref
  pub provisioning : Dict Text Task
  pub stopping : Bool
  pub connections : ConnectionRegistry
  pub orphan_grace : ℕ

pub data ManagerError : Type 0 where
  stopping provision_failed resource_not_found resource_busy kernel_not_found routing : ManagerError

-- Assignment to the fields of one object.
abbrev pub store : (Ref → KernelResource) → Ref → KernelResource → Ref → KernelResource
store h r x q = if r == q then x else h q

abbrev pub assign : Manager → Ref → KernelResource → Manager
assign m r x = record m { heap = store m.heap r x }

-- _bound_locked
unfoldable pub bound : Manager → Text → Option Ref
bound m client = first (λ r. has (m.heap r).client_leases client) (values m.by_id)

-- _main_locked
unfoldable pub main_kernel : Manager → Text → Option Ref
main_kernel m name = elim (get m.by_id name) [
  | none ↦ get m.by_key (resource_key name none)
  | some r ↦ if is_some (m.heap r).home then get m.by_key (resource_key name none) else some r
]

-- _detach_locked
unfoldable pub detach : Manager → Ref → Manager
detach m r = elim (get m.by_key (key (m.heap r))) [
  | none ↦ record m { by_id = remove m.by_id (m.heap r).resource_id }
  | some q ↦
      if q == r
      then record m {
        by_id = remove m.by_id (m.heap r).resource_id;
        by_key = remove m.by_key (key (m.heap r));
      }
      else record m { by_id = remove m.by_id (m.heap r).resource_id }
]

-- The registries agree, names are unique in their scope, and a client holds one lease at most.
pub record IsRegistry (m : Manager) : Type 0 where
  pub ids_distinct : Distinct m.by_id
  pub id_of : (id : Text) (r : Ref) → get m.by_id id ≡ some r → (m.heap r).resource_id ≡ id
  pub in_keys :
      (id : Text) (r : Ref) → get m.by_id id ≡ some r → get m.by_key (key (m.heap r)) ≡ some r
  pub key_of : (k : Text) (r : Ref) → get m.by_key k ≡ some r → key (m.heap r) ≡ k
  pub in_ids :
      (k : Text) (r : Ref) → get m.by_key k ≡ some r → get m.by_id (m.heap r).resource_id ≡ some r
  pub allocated : (id : Text) (r : Ref) → get m.by_id id ≡ some r → r < m.next_ref
  pub homes : (r : Ref) → HomeOk (m.heap r).home
  pub ids : (r : Ref) → NoColon (m.heap r).resource_id

-- A registered kernel runs or is orphaned, and only an orphan has an orphan time.
abbrev pub IsAlive : KernelResource → Type 0
IsAlive x =
    ((x.lifecycle ≡ running) × (x.orphaned_at ≡ none))
    ⊎ ((x.lifecycle ≡ orphaned) × (is_some x.orphaned_at ≡ true))

-- Child kernels hold no leases, and a client holds one lease at most.
pub record IsLeased (m : Manager) : Type 0 where
  pub main_only :
      (id client : Text) (r : Ref)
      → get m.by_id id ≡ some r
      → has (m.heap r).client_leases client ≡ true
      → (m.heap r).home ≡ none
  pub one_lease :
      (client id id' : Text) (r q : Ref)
      → get m.by_id id ≡ some r
      → get m.by_id id' ≡ some q
      → has (m.heap r).client_leases client ≡ true
      → has (m.heap q).client_leases client ≡ true
      → r ≡ q
  pub alive : (id : Text) (r : Ref) → get m.by_id id ≡ some r → IsAlive (m.heap r)

-- While a task has not registered its kernel, no kernel has the key that the task holds.
pub record IsReserved (m : Manager) : Type 0 where
  pub pending :
      (k : Text) (t : Task)
      → get m.provisioning k ≡ some t
      → t.registered ≡ false
      → (get m.by_key k ≡ none) × (resource_key t.name t.home ≡ k) × HomeOk t.home

-- `registry.get(resource.resource_id) is resource`.
abbrev pub is_registered : Manager → Ref → Bool
is_registered m r = elim (get m.by_id (m.heap r).resource_id) [ none ↦ false | some q ↦ q == r ]

-- What `bound` finds holds the client's lease; where it finds nothing, nobody does.
pub bound-some :
    (m : Manager) (client : Text) (r : Ref)
    → IsRegistry m
    → bound m client ≡ some r
    → (get m.by_id (m.heap r).resource_id ≡ some r) × (has (m.heap r).client_leases client ≡ true)
unfolding bound
bound-some m client r v e =
    let (id, found, held) = first-values-some _ m.by_id r v.ids_distinct e in
    (rw (v.id_of id r found) found, held)

pub bound-none :
    (m : Manager) (client id : Text) (r : Ref)
    → bound m client ≡ none
    → get m.by_id id ≡ some r
    → has (m.heap r).client_leases client ≡ false
unfolding bound
bound-none m client id r e found = first-values-none _ m.by_id id r e found

-- The new state has the registries of the old, and no kernel has another id, name or home.
pub record Keeps (m n : Manager) : Type 0 where
  pub same_ids : n.by_id ≡ m.by_id
  pub same_keys : n.by_key ≡ m.by_key
  pub same_next : n.next_ref ≡ m.next_ref
  pub same_tasks : n.provisioning ≡ m.provisioning
  pub same_id : (r : Ref) → (n.heap r).resource_id ≡ (m.heap r).resource_id
  pub same_name : (r : Ref) → (n.heap r).name ≡ (m.heap r).name
  pub same_home : (r : Ref) → (n.heap r).home ≡ (m.heap r).home

pub Keeps-IsRegistry : (m n : Manager) → Keeps m n → IsRegistry m → IsRegistry n
Keeps-IsRegistry m n k v = record {
  ids_distinct = subst Distinct (sym k.same_ids) v.ids_distinct;
  id_of = λ id r h. ground (arith, k.same_id r, v.id_of id r);
  in_keys = λ id r h. ground (arith, k.same_name r, k.same_home r, v.in_keys id r);
  key_of = λ key r h. ground (arith, k.same_name r, k.same_home r, v.key_of key r);
  in_ids = λ key r h. ground (arith, k.same_id r, v.in_ids key r);
  allocated = λ id r h. ground (arith, v.allocated id r);
  homes = λ r. subst HomeOk (sym (k.same_home r)) (v.homes r);
  ids = λ r. subst NoColon (sym (k.same_id r)) (v.ids r);
}

pub Keeps-IsReserved : (m n : Manager) → Keeps m n → IsReserved m → IsReserved n
Keeps-IsReserved m n k v = record { pending = λ key t h p. ground (arith, v.pending key t) }

pub registered_at :
    (m : Manager) (r : Ref) → is_registered m r ≡ true → get m.by_id (m.heap r).resource_id ≡ some r
registered_at m r h = elim (Option-cases (get m.by_id (m.heap r).resource_id)) [
  | inl e ↦ ground arith
  | inr (q, e) ↦ ground arith
]

-- A client's kernel depends on the registry of ids and on who holds a lease where.
pub bound_congr :
    (m n : Manager) (client : Text)
    → n.by_id ≡ m.by_id
    → ((r : Ref) → has (n.heap r).client_leases client ≡ has (m.heap r).client_leases client)
    → bound n client ≡ bound m client
unfolding bound
bound_congr m n client ids same = rw ids (ap (λ p. first p (values m.by_id)) (fun_ext same))

pub record IsSound (m : Manager) : Type 0 where
  pub registry : IsRegistry m
  pub leased : IsLeased m
  pub reserved : IsReserved m

-- A step that changes no registry and gives nobody a lease keeps the state sound.
pub quiet-IsSound :
    (m n : Manager)
    → Keeps m n
    → ((r : Ref) (client : Text)
        → has (n.heap r).client_leases client ≡ true
        → has (m.heap r).client_leases client ≡ true)
    → ((id : Text) (r : Ref) → get m.by_id id ≡ some r → IsAlive (m.heap r) → IsAlive (n.heap r))
    → IsSound m
    → IsSound n
quiet-IsSound m n k held alive s = record {
  registry = Keeps-IsRegistry m n k s.registry;
  reserved = Keeps-IsReserved m n k s.reserved;
  leased = record {
    main_only = λ id client r found h.
        ground (arith, held r client h, k.same_home r, k.same_ids, s.leased.main_only id client r);
    one_lease = λ client id id' r q found found' h h'. ground (
      arith,
      held r client h,
      held q client h',
      k.same_ids,
      s.leased.one_lease client id id' r q,
    );
    alive = λ id r found.
        let before : get m.by_id id ≡ some r = ground (arith, k.same_ids) in
        alive id r before (s.leased.alive id r before);
  };
}

-- The table of tasks matters to the reservations alone.
pub tasks-IsSound :
    (m : Manager) (tasks : Dict Text Task)
    → IsSound m
    → IsReserved (record m { provisioning = tasks })
    → IsSound (record m { provisioning = tasks })
tasks-IsSound m tasks s reserved = record {
  registry = record {
    ids_distinct = s.registry.ids_distinct;
    id_of = s.registry.id_of;
    in_keys = s.registry.in_keys;
    key_of = s.registry.key_of;
    in_ids = s.registry.in_ids;
    allocated = s.registry.allocated;
    homes = s.registry.homes;
    ids = s.registry.ids;
  };
  leased = record {
    main_only = s.leased.main_only;
    one_lease = s.leased.one_lease;
    alive = s.leased.alive;
  };
  reserved = reserved;
}

-- What holds of the stored object and of the old one holds after the assignment.
pub store-all :
    (P : KernelResource → Type 0) (h : Ref → KernelResource) (r q : Ref) (x : KernelResource)
    → P x
    → P (h q)
    → P (store h r x q)
store-all P h r q x new old = elim (Bool-cases (r == q)) [ inl e ↦ rw e new | inr e ↦ rw e old ]

-- An assignment that keeps the id, the name and the home keeps the registries in agreement.
module _ (m : Manager) (r : Ref) (x : KernelResource) where
  pub assign-Keeps :
      x.resource_id ≡ (m.heap r).resource_id
      → x.name ≡ (m.heap r).name
      → x.home ≡ (m.heap r).home
      → Keeps m (assign m r x)
  assign-Keeps id name home = record {
    same_ids = refl;
    same_keys = refl;
    same_next = refl;
    same_tasks = refl;
    same_id = λ q. ground arith;
    same_name = λ q. ground arith;
    same_home = λ q. ground arith;
  }

  pub assign-has :
      x.client_leases ≡ (m.heap r).client_leases
      → (q : Ref) (client : Text)
      → has (store m.heap r x q).client_leases client ≡ has (m.heap q).client_leases client
  assign-has leases q client = ground arith

  pub assign-IsSound :
      x.resource_id ≡ (m.heap r).resource_id
      → x.name ≡ (m.heap r).name
      → x.home ≡ (m.heap r).home
      → x.client_leases ≡ (m.heap r).client_leases
      → (IsAlive (m.heap r) → IsAlive x)
      → IsSound m
      → IsSound (assign m r x)
  assign-IsSound id name home leases alive s =
      quiet-IsSound m _ (assign-Keeps id name home)
        (λ q client h. ground (arith, assign-has leases q client))
        (λ j q found a. elim (Bool-cases (r == q)) [
          | inl e ↦ rw e (alive (subst (λ p. IsAlive (m.heap p)) (sym ((==_iff r q).0 e)) a))
          | inr e ↦ rw e a
        ])
        s

pub detach-heap : (m : Manager) (r : Ref) → (detach m r).heap ≡ m.heap
unfolding detach
detach-heap m r = ground arith
