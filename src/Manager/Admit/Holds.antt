-- ===== src/Manager/Admit/Holds.antt =====
-- resource/manager.py: whose lease is where after an admission.
use loommux.Prelude.{
  text_eq_refl, or_else, Option-cases, Bool-cases, ◌||◌, ◌&&◌, text_eq, ◌==◌, not, Bool, Option,
  if◌then◌else◌, inr, inl, refl, none, arith, text_is_eq, Text, ◌≡◌, false, some,
}
use loommux.Manager.State.{bound-some, bound-none, bound, Keeps, IsLeased, IsRegistry, Ref, Manager}
use loommux.Model.{new_lease, KernelResource, Instant, LeaseClient}
use loommux.Policy.{LeasePolicy}
use loommux.Prelude.Dict.{get-put, get-remove, has, get}
use loommux.Manager.Admit.{begin, enter, let_go, admitted}

-- Entering a kernel adds the client's lease.
has-enter :
    (x : KernelResource) (client : LeaseClient) (policy : LeasePolicy) (now : Instant)
    (other : Text)
    → has (enter x client policy now).client_leases other
      ≡ (text_eq client.client_id other || has x.client_leases other)
unfolding enter
has-enter x client policy now other = ground (
  arith,
  get-put x.client_leases client.client_id other
      (begin now (or_else (get x.client_leases client.client_id) (new_lease client policy now))),
)

-- The kernel that a session leaves, if it leaves one, loses the session's lease.
abbrev leaves : Option Ref → Ref → Ref → Bool
leaves none r q = false
leaves (some b) r q = not (b == r) && b == q

leaves_self : (b : Option Ref) (r : Ref) → leaves b r r ≡ false
leaves_self none r = refl
leaves_self (some b) r = ground arith

has-let_go :
    (m : Manager) (client : Text) (b : Option Ref) (r q : Ref) (other : Text)
    → has ((let_go m client b r).heap q).client_leases other
      ≡ (not (leaves b r q && text_eq client other) && has (m.heap q).client_leases other)
unfolding let_go
has-let_go m client none r q other = refl
has-let_go m client (some b) r q other =
    ground (arith, get-remove (m.heap b).client_leases client other)

module _ (m : Manager) (client : LeaseClient) (policy : LeasePolicy) (r : Ref) (now : Instant)
    (v : IsRegistry m) (l : IsLeased m) (here : get m.by_id (m.heap r).resource_id ≡ some r) where
  abbrev pub after : Manager
  after = admitted m client policy r now

  pub admitted-Keeps : Keeps m after
  unfolding admitted
  admitted-Keeps = record {
    same_ids = ground arith;
    same_keys = ground arith;
    same_next = ground arith;
    same_tasks = ground arith;
    same_id = λ q. ground arith;
    same_name = λ q. ground arith;
    same_home = λ q. ground arith;
  }

  has-admitted :
      (q : Ref) (other : Text)
      → has (after.heap q).client_leases other ≡ (
          if r == q
          then text_eq client.client_id other || has (m.heap r).client_leases other
          else not (leaves (bound m client.client_id) r q && text_eq client.client_id other)
            && has (m.heap q).client_leases other)
  unfolding admitted
  has-admitted q other = elim (Bool-cases (r == q)) [
    | inl same ↦ rw (
      same,
      has-enter,
      has-let_go m client.client_id (bound m client.client_id) r r other,
      leaves_self (bound m client.client_id) r,
    )
    | inr differ ↦ rw differ (has-let_go m client.client_id (bound m client.client_id) r q other)
  ]

  -- The client's lease is on the admitted kernel, and on no other that is registered.
  pub holds-admitted :
      (id : Text) (q : Ref)
      → get m.by_id id ≡ some q
      → has (after.heap q).client_leases client.client_id ≡ (r == q)
  holds-admitted id q found = elim (Option-cases (bound m client.client_id)) [
    | inl unbound ↦ ground (
      arith,
      has-admitted q client.client_id,
      text_eq_refl client.client_id,
      bound-none m client.client_id id q unbound found,
    )
    | inr (b, at) ↦ ground (
      arith,
      has-admitted q client.client_id,
      text_eq_refl client.client_id,
      bound-some m client.client_id b v at,
      l.one_lease client.client_id (m.heap b).resource_id id b q,
    )
  ]

  -- The leases of the others are where they were.
  pub others_stay :
      (q : Ref) (other : Text)
      → text_eq client.client_id other ≡ false
      → has (after.heap q).client_leases other ≡ has (m.heap q).client_leases other
  others_stay q other ne = ground (arith, has-admitted q other)
