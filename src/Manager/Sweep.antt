-- ===== src/Manager/Sweep.antt =====
-- resource/manager.py: `sweep_once`, which releases leases that have expired and retires the kernels
-- that nothing anchors. The clock is read once, at its start.
pub mod Leases
pub mod Retire
pub mod Anchored
pub mod Whole
pub mod Sound
use loommux.Prelude.{
  ◌∷◌, or_else, is_some, ◌++◌, leb, not, ltb, max, ◌&&◌, text_is_eq, ◌||◌, ◌+◌, if◌then◌else◌, ◌==◌,
  List, ℕ, Bool, Text, [], false, true, some, none,
}
use loommux.Model.{
  lease_expired, retention_ended, orphan_grace_expired, closing, alert, disconnected, orphaned,
  ClientLease, ClosingReason, KernelResource,
}
use loommux.Liveness.{expired, assess_lease, LeaseVerdict}
use loommux.Manager.State.{detach, assign, Ref, Manager}
use loommux.Connections.{elem, prune, presence, ConnectionRegistry}
use loommux.Prelude.Dict.{keys, put, remove, values, Dict}
use loommux.Manager.Admit.{wake}

-- _retain_locked
unfoldable pub retain_for : KernelResource → ClientLease → KernelResource
retain_for x lease =
    let until = lease.renewed_at + lease.policy.named_activity_timeout in
    record x {
      retained_until = elim x.retained_until [ none ↦ some until | some t ↦ some (max t until) ];
    }

-- _report_alert_locked, but for the log: the alert that the lease has reported last.
pub report_alert : LeaseVerdict → ClientLease → ClientLease
report_alert v lease = record lease {
  reported_alert = if alert v.standing then some v.standing else none;
}

-- The lease has expired, and no operation runs under it.
pub is_released : LeaseVerdict → ClientLease → ℕ → Bool
is_released v lease now = lease.active_operations == 0 && expired v now

-- A session that left a named kernel has it retained.
pub retains : LeaseVerdict → KernelResource → Bool
retains v x = elim v.standing [ disconnected ↦ x.named | _ ↦ false ]

-- _assess: the verdict, and the registry, which may have met the session for the first time.
unfoldable pub assess :
    ConnectionRegistry → Bool → ClientLease → ℕ → LeaseVerdict × ConnectionRegistry
assess connections named lease now =
    let (p, connections') = presence connections lease.client.client_id now in
    (assess_lease lease p named now, connections')

release : LeaseVerdict → KernelResource → Text → ClientLease → KernelResource
unfolding retain_for
release v x id lease =
    let x' = record x { client_leases = remove x.client_leases id } in
    if retains v x then retain_for x' lease else x'

-- One round of the loop over the leases of a kernel.
pub sweep_lease :
    ConnectionRegistry
    → KernelResource
    → Text
    → ClientLease
    → ℕ
    → ConnectionRegistry × KernelResource
unfolding release report_alert is_released retains
sweep_lease connections x id lease now =
    let (v, connections') = assess connections x.named lease now in
    (
      connections',
      if is_released v lease now
          then release v x id lease
          else record x { client_leases = put x.client_leases id (report_alert v lease) },
    )

pub sweep_leases :
    ConnectionRegistry
    → KernelResource
    → Dict Text ClientLease
    → ℕ
    → ConnectionRegistry × KernelResource
sweep_leases connections x [] now = (connections, x)
sweep_leases connections x ((id, lease) ∷ items) now =
    let (connections', x') = sweep_lease connections x id lease now in
    sweep_leases connections' x' items now

-- The loop over the kernels.
pub release_leases : Manager → List Ref → ℕ → Manager
release_leases m [] now = m
release_leases m (r ∷ refs) now =
    let (connections, x) = sweep_leases m.connections (m.heap r) (m.heap r).client_leases now in
    release_leases (assign (record m { connections = connections }) r x) refs now

pub leased_clients : Manager → List Ref → List Text
leased_clients m [] = []
leased_clients m (r ∷ refs) = keys (m.heap r).client_leases ++ leased_clients m refs

-- A client lease or the retention holds this kernel.
pub is_held : KernelResource → ℕ → Bool
is_held x now =
    (elim x.client_leases [ [] ↦ false | _ ↦ true ])
    || (elim x.retained_until [ none ↦ false | some t ↦ ltb now t ])

pub held_ids : Manager → List Ref → ℕ → List Text
held_ids m [] now = []
held_ids m (r ∷ refs) now =
    let rest = held_ids m refs now in
    if is_held (m.heap r) now then (m.heap r).resource_id ∷ rest else rest

pub child_ids : Manager → List Ref → List Text → List Text
child_ids m [] held = []
child_ids m (r ∷ refs) held =
    let rest = child_ids m refs held in
    if elim (m.heap r).home [ none ↦ false | some h ↦ elem h held ]
    then (m.heap r).resource_id ∷ rest
    else rest

-- _anchored_locked
pub anchored : Manager → ℕ → List Text
unfolding held_ids child_ids is_held
anchored m now =
    let held = held_ids m (values m.by_id) now in held ++ child_ids m (values m.by_id) held

pub is_idle : KernelResource → Bool
is_idle x = x.active_operations == 0 && not (is_some x.session.current_execution)

-- The kernel, unanchored since now or before.
orphan : KernelResource → ℕ → KernelResource
orphan x now = elim x.orphaned_at [
  | none ↦ record x { orphaned_at = some now; lifecycle = orphaned }
  | some t ↦ x
]

reason_of : KernelResource → ClosingReason
unfolding is_idle
reason_of x =
    if not (is_idle x)
    then orphan_grace_expired
    else if is_some x.retained_until
    then retention_ended
    else lease_expired

-- Whether an unanchored kernel goes now. `now - orphaned_at >= grace` on whole ticks.
pub retires : ℕ → KernelResource → ℕ → Bool
unfolding is_idle
retires grace x now = is_idle x || leb (or_else x.orphaned_at now + grace) now

-- One round of the second loop.
pub settle : Manager → List Text → ℕ → Ref → Manager
unfolding orphan reason_of retires
settle m ids now r =
    let x = m.heap r in
    if elem x.resource_id ids
    then assign m r (wake x)
    else if retires m.orphan_grace x now
    then assign (detach m r) r
        (record (orphan x now) { lifecycle = closing; closing_reason = some (reason_of x) })
    else assign m r (orphan x now)

pub settle_all : Manager → List Text → ℕ → List Ref → Manager
settle_all m ids now [] = m
settle_all m ids now (r ∷ refs) = settle_all (settle m ids now r) ids now refs

-- The first half of the sweep: leases, and the registry of connections.
pub sweep_clients : Manager → ℕ → Manager
unfolding release_leases leased_clients
sweep_clients m now =
    let m' = release_leases m (values m.by_id) now in
    record m' { connections = prune m'.connections (leased_clients m' (values m'.by_id)) }

pub sweep : Manager → ℕ → Manager
unfolding sweep_clients anchored settle_all settle
sweep m now = let m' = sweep_clients m now in settle_all m' (anchored m' now) now (values m'.by_id)
