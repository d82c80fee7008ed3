-- ===== src/Manager/Sweep/Sound.antt =====
-- resource/manager.py: the whole of `sweep_once`.
use loommux.Prelude.{List, text_is_eq, ◌⊎◌, arith, ◌∙◌, ◌≡◌, ◌∷◌, ℕ, Text, [], inl, true, refl}
use loommux.Prelude.Dict.{values, has, Dict, get}
use loommux.Manager.Sweep.{release_leases, sweep_clients, sweep_leases, sweep_lease}
use loommux.Connections.{ConnectionRegistry}
use loommux.Model.{KernelResource, ClientLease}
use loommux.Manager.Sweep.Leases.{sweep_lease-get}
use loommux.Manager.State.{assign, quiet-IsSound, Keeps, Ref, IsSound, Manager}

-- A kernel that a loop over leases has left: nobody has gained a lease there.
pub record Fewer (items : Dict Text ClientLease) (x y : KernelResource) : Type 0 where
  pub id : y.resource_id ≡ x.resource_id
  pub name : y.name ≡ x.name
  pub home : y.home ≡ x.home
  pub lifecycle : y.lifecycle ≡ x.lifecycle
  pub orphaned_at : y.orphaned_at ≡ x.orphaned_at
  pub active : y.active_operations ≡ x.active_operations
  pub session : y.session ≡ x.session
  pub held :
      (client : Text)
      → has y.client_leases client ≡ true
      → (has x.client_leases client ≡ true) ⊎ (has items client ≡ true)

swept_held :
    (reg : ConnectionRegistry) (x : KernelResource) (id client : Text) (lease : ClientLease)
    (now : ℕ)
    → has (sweep_lease reg x id lease now).1.client_leases client ≡ true
    → (has x.client_leases client ≡ true) ⊎ (has ((id, lease) ∷ []) client ≡ true)
unfolding get
swept_held reg x id client lease now h = ground (arith, sweep_lease-get reg x id client lease now)

sweep_lease-Fewer :
    (reg : ConnectionRegistry) (x : KernelResource) (id : Text) (lease : ClientLease) (now : ℕ)
    → Fewer ((id, lease) ∷ []) x (sweep_lease reg x id lease now).1
unfolding sweep_lease
sweep_lease-Fewer reg x id lease now = record {
  id = ground arith;
  name = ground arith;
  home = ground arith;
  lifecycle = ground arith;
  orphaned_at = ground arith;
  active = ground arith;
  session = ground arith;
  held = λ client h. swept_held reg x id client lease now h;
}

Fewer-trans :
    (items : Dict Text ClientLease) (id : Text) (lease : ClientLease) (x y z : KernelResource)
    → Fewer ((id, lease) ∷ []) x y
    → Fewer items y z
    → Fewer ((id, lease) ∷ items) x z
unfolding get
Fewer-trans items id lease x y z a b = record {
  id = b.id ∙ a.id;
  name = b.name ∙ a.name;
  home = b.home ∙ a.home;
  lifecycle = b.lifecycle ∙ a.lifecycle;
  orphaned_at = b.orphaned_at ∙ a.orphaned_at;
  active = b.active ∙ a.active;
  session = b.session ∙ a.session;
  held = λ client h. ground (arith, a.held client, b.held client h);
}

sweep_leases-Fewer :
    (reg : ConnectionRegistry) (x : KernelResource) (items : Dict Text ClientLease) (now : ℕ)
    → Fewer items x (sweep_leases reg x items now).1
unfolding sweep_leases
sweep_leases-Fewer reg x [] now = record {
  id = refl;
  name = refl;
  home = refl;
  lifecycle = refl;
  orphaned_at = refl;
  active = refl;
  session = refl;
  held = λ client h. inl h;
}
sweep_leases-Fewer reg x ((id, lease) ∷ items) now =
    Fewer-trans items id lease x _ _ (sweep_lease-Fewer reg x id lease now) (
      sweep_leases-Fewer (sweep_lease reg x id lease now).0 (sweep_lease reg x id lease now).1 items
        now)

-- A state in which nobody has gained a lease, and nothing but leases, retentions and the registry of
-- connections has changed.
pub record Released (m n : Manager) : Type 0 where
  pub same_ids : n.by_id ≡ m.by_id
  pub same_grace : n.orphan_grace ≡ m.orphan_grace
  pub keeps : Keeps m n
  pub lifecycle : (r : Ref) → (n.heap r).lifecycle ≡ (m.heap r).lifecycle
  pub orphaned_at : (r : Ref) → (n.heap r).orphaned_at ≡ (m.heap r).orphaned_at
  pub active : (r : Ref) → (n.heap r).active_operations ≡ (m.heap r).active_operations
  pub session : (r : Ref) → (n.heap r).session ≡ (m.heap r).session
  pub held :
      (r : Ref) (client : Text)
      → has (n.heap r).client_leases client ≡ true
      → has (m.heap r).client_leases client ≡ true

pub Released-IsSound : (m n : Manager) → Released m n → IsSound m → IsSound n
Released-IsSound m n h s =
    quiet-IsSound m n h.keeps h.held
      (λ id r found a. ground (arith, h.lifecycle r, h.orphaned_at r)) s

release_one :
    (m : Manager) (r : Ref) (reg : ConnectionRegistry) (x : KernelResource)
    → Fewer (m.heap r).client_leases (m.heap r) x
    → Released m (assign (record m { connections = reg }) r x)
release_one m r reg x f = record {
  same_ids = refl;
  same_grace = refl;
  keeps = record {
    same_ids = refl;
    same_keys = refl;
    same_next = refl;
    same_tasks = refl;
    same_id = λ q. ground (arith, f.id);
    same_name = λ q. ground (arith, f.name);
    same_home = λ q. ground (arith, f.home);
  };
  lifecycle = λ q. ground (arith, f.lifecycle);
  orphaned_at = λ q. ground (arith, f.orphaned_at);
  active = λ q. ground (arith, f.active);
  session = λ q. ground (arith, f.session);
  held = λ q client h. ground (arith, f.held client);
}

Released-trans : (l m n : Manager) → Released l m → Released m n → Released l n
Released-trans l m n a b = record {
  same_ids = b.same_ids ∙ a.same_ids;
  same_grace = b.same_grace ∙ a.same_grace;
  keeps = record {
    same_ids = b.keeps.same_ids ∙ a.keeps.same_ids;
    same_keys = b.keeps.same_keys ∙ a.keeps.same_keys;
    same_next = b.keeps.same_next ∙ a.keeps.same_next;
    same_tasks = b.keeps.same_tasks ∙ a.keeps.same_tasks;
    same_id = λ q. b.keeps.same_id q ∙ a.keeps.same_id q;
    same_name = λ q. b.keeps.same_name q ∙ a.keeps.same_name q;
    same_home = λ q. b.keeps.same_home q ∙ a.keeps.same_home q;
  };
  lifecycle = λ q. b.lifecycle q ∙ a.lifecycle q;
  orphaned_at = λ q. b.orphaned_at q ∙ a.orphaned_at q;
  active = λ q. b.active q ∙ a.active q;
  session = λ q. b.session q ∙ a.session q;
  held = λ q client h. a.held q client (b.held q client h);
}

Released-refl :
    (m : Manager) (reg : ConnectionRegistry) → Released m (record m { connections = reg })
Released-refl m reg = record {
  same_ids = refl;
  same_grace = refl;
  keeps = record {
    same_ids = refl;
    same_keys = refl;
    same_next = refl;
    same_tasks = refl;
    same_id = λ q. refl;
    same_name = λ q. refl;
    same_home = λ q. refl;
  };
  lifecycle = λ q. refl;
  orphaned_at = λ q. refl;
  active = λ q. refl;
  session = λ q. refl;
  held = λ q client h. h;
}

release_leases-Released :
    (m : Manager) (l : List Ref) (now : ℕ) → Released m (release_leases m l now)
unfolding release_leases
release_leases-Released m [] now = Released-refl m m.connections
release_leases-Released m (r ∷ l) now =
    let after = sweep_leases m.connections (m.heap r) (m.heap r).client_leases now in
    let m' = assign (record m { connections = after.0 }) r after.1 in
    Released-trans m m' (release_leases m' l now)
      (release_one m r after.0 after.1
        (sweep_leases-Fewer m.connections (m.heap r) (m.heap r).client_leases now))
      (release_leases-Released m' l now)

pub sweep_clients-Released : (m : Manager) (now : ℕ) → Released m (sweep_clients m now)
unfolding sweep_clients
sweep_clients-Released m now =
    Released-trans m (release_leases m (values m.by_id) now) _
      (release_leases-Released m (values m.by_id) now) (Released-refl _ _)
