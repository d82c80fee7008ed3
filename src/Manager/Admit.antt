-- ===== src/Manager/Admit.antt =====
-- resource/manager.py: `operation` and `program_operation`, from their admission to their end, and
-- the renewal of leases.
pub mod Holds
pub mod Sound
pub mod Ending
use loommux.Prelude.{
  ◌||◌, ◌&&◌, or_else, text_is_eq, ◌==◌, ◌+◌, ◌-◌, if◌then◌else◌, not, Bool, Text, Option, false,
  true, some, none,
}
use loommux.Model.{
  orphaned, running, attach, new_lease, Binding, BindingKind, ClientLease, LeaseClient,
  KernelRequest, KernelResource, Instant,
}
use loommux.Manager.State.{
  resource_not_found, is_registered, ManagerError, bound, assign, Ref, Manager,
}
use loommux.Prelude.Result.{err, ok, Result}
use loommux.Policy.{LeasePolicy}
use loommux.Prelude.Dict.{has, remove, get, put}
use loommux.Connections.{ConnectionRegistry, presence}

pub record_request : Instant → ClientLease → ClientLease
record_request now lease = record lease {
  last_seen_at = now.wall;
  renewed_at = now.monotonic;
  requested_at = now.monotonic;
}

pub renew_lease : Instant → ClientLease → ClientLease
renew_lease now lease = record lease { last_seen_at = now.wall; renewed_at = now.monotonic }

-- An orphaned kernel runs again.
unfoldable pub wake : KernelResource → KernelResource
wake x = elim x.lifecycle [
  | orphaned ↦ record x { lifecycle = running; orphaned_at = none }
  | _ ↦ x
]

-- `--attach` moves the session.
abbrev pub switching : Option KernelRequest → Bool
switching none = false
switching (some request) = elim request.mode [ attach ↦ true | _ ↦ false ]

-- The session works elsewhere already, and did not ask to move.
abbrev bound_elsewhere : Option Ref → Ref → Option KernelRequest → Bool
bound_elsewhere none r request = false
bound_elsewhere (some q) r request = not (q == r) && not (switching request)

-- The lease on the kernel that the session leaves, and the retention of that kernel, end.
let_go : Manager → Text → Option Ref → Ref → Manager
let_go m client none r = m
let_go m client (some q) r =
    if q == r
    then m
    else assign m q (record (m.heap q) {
      client_leases = remove (m.heap q).client_leases client;
      retained_until = none;
    })

released_name : Manager → Option Ref → Ref → Option Text
released_name m none r = none
released_name m (some q) r = if q == r then none else some (m.heap q).name

-- One more operation runs under the lease.
begin : Instant → ClientLease → ClientLease
unfolding record_request
begin now lease =
    record_request now (record lease { active_operations = lease.active_operations + 1 })

enter : KernelResource → LeaseClient → LeasePolicy → Instant → KernelResource
unfolding wake begin
enter x client policy now = record (wake x) {
  client_leases =
      put x.client_leases client.client_id
        (begin now (or_else (get x.client_leases client.client_id) (new_lease client policy now)));
  active_operations = x.active_operations + 1;
}

-- A new lease is on a session that the registry of connections knows.
known : ConnectionRegistry → Bool → Text → Instant → ConnectionRegistry
known connections held client now =
    if held then connections else (presence connections client now.monotonic).1

binding_of : KernelResource → Bool → Option BindingKind → Option Text → Option Binding
binding_of x held none released = none
binding_of x held (some kind) released =
    if held
    then none
    else some (record {
      name = x.name;
      kind = kind;
      executions = x.session.executions;
      released = released;
    })

-- The state after an admission: the session has let go of the kernel that it worked in, and holds
-- a lease on this one.
unfoldable pub admitted : Manager → LeaseClient → LeasePolicy → Ref → Instant → Manager
unfolding let_go enter known
admitted m client policy r now =
    let m₁ = let_go m client.client_id (bound m client.client_id) r in
    let x = m₁.heap r in
    let held = has x.client_leases client.client_id in
    assign (record m₁ { connections = known m₁.connections held client.client_id now }) r
      (enter x client policy now)

-- The admission section of `operation`; `none` is `continue`, which chooses a kernel again.
unfoldable pub admit :
    Manager
    → LeaseClient
    → LeasePolicy
    → Option KernelRequest
    → Ref
    → Option BindingKind
    → Instant
    → Option (Manager × Option Binding)
unfolding admitted released_name binding_of
admit m client policy request r kind now =
    let at = bound m client.client_id in
    if not (is_registered m r) || bound_elsewhere at r request
    then none
    else some (
      admitted m client policy r now,
      binding_of (m.heap r) (has (m.heap r).client_leases client.client_id) kind
          (released_name m at r),
    )

end_lease : Instant → Bool → ClientLease → ClientLease
unfolding renew_lease
end_lease now renews lease =
    let ended : ClientLease = record lease { active_operations = lease.active_operations - 1 } in
    if renews then renew_lease now ended else ended

abbrev is_running : KernelResource → Bool
is_running x = elim x.lifecycle [ running ↦ true | _ ↦ false ]

-- The last section of `operation`, on every way out of it. `max(0, n - 1)` is truncated subtraction.
pub finish : Manager → Text → Ref → Instant → Manager
unfolding end_lease
finish m client r now =
    let x = m.heap r in
    assign m r (record x {
      active_operations = x.active_operations - 1;
      client_leases = elim (get x.client_leases client) [
        | none ↦ x.client_leases
        | some lease ↦ put x.client_leases client (end_lease now (is_running x) lease)
      ];
    })

-- renew_client_lease
pub renew_client_lease : Manager → Text → Instant → Bool × Manager
renew_client_lease m client now = elim (bound m client) [
  | none ↦ (false, m)
  | some r ↦ elim (get (m.heap r).client_leases client) [
    | none ↦ (false, m)
    | some lease ↦ (
      true,
      assign m r (record (m.heap r) {
        client_leases = put (m.heap r).client_leases client (record_request now lease);
      }),
    )
  ]
]

-- The two sections of `program_operation`, which touches no lease.
unfoldable pub program_begin : Manager → Ref → Result ManagerError Manager
program_begin m r =
    if is_registered m r
    then ok
        (assign m r (record (m.heap r) { active_operations = (m.heap r).active_operations + 1 }))
    else err resource_not_found

unfoldable pub program_end : Manager → Ref → Manager
program_end m r =
    assign m r (record (m.heap r) { active_operations = (m.heap r).active_operations - 1 })
