-- ===== src/Model.antt =====
-- resource/model.py, and the standings of resource/liveness.py: kernels, leases and requests.
-- Monotonic times are ticks; wall-clock times are numbers of the same kind, which only sorting reads.
pub mod Keys
use loommux.Policy.{LeasePolicy}
use loommux.Prelude.{
  ◌∷◌, is_some, ◌++◌, codes, ◌||◌, [], ltb, Option, ℕ, Text, Bool, false, true, some, none,
}
use loommux.Prelude.Dict.{Dict}

pub data ResourceLifecycle : Type 0 where
  running orphaned closing stopped : ResourceLifecycle

pub data RequestMode : Type 0 where
  join attach : RequestMode

pub record KernelRequest : Type 0 where
  pub name : Text
  pub mode : RequestMode
  pub create : Bool

pub data BindingKind : Type 0 where
  opened attached : BindingKind

pub record Binding : Type 0 where
  pub name : Text
  pub kind : BindingKind
  pub executions : ℕ
  pub released : Option Text

-- The registry key of a kernel.
unfoldable pub resource_key : Text → Option Text → Text
resource_key name none = codes "main:" ++ name
resource_key name (some home) = codes "child:" ++ (home ++ b':' ∷ name)

pub record LeaseClient : Type 0 where
  pub client_id : Text
  pub display_name : Text

pub data LeaseStanding : Type 0 where
  renewable connected awaiting_stream reconnecting disconnected unbound stream_lost : LeaseStanding

unfoldable pub alert : LeaseStanding → Bool
alert unbound = true
alert stream_lost = true
alert _ = false

pub record ClientLease : Type 0 where
  pub client : LeaseClient
  pub policy : LeasePolicy
  pub created_at : ℕ
  pub last_seen_at : ℕ
  pub renewed_at : ℕ
  pub requested_at : ℕ
  pub active_operations : ℕ
  pub reported_alert : Option LeaseStanding

-- One reading of the two clocks.
pub record Instant : Type 0 where
  pub monotonic : ℕ
  pub wall : ℕ

-- ClientLease.create
unfoldable pub new_lease : LeaseClient → LeasePolicy → Instant → ClientLease
new_lease client policy now = record {
  client = client;
  policy = policy;
  created_at = now.wall;
  last_seen_at = now.wall;
  renewed_at = now.monotonic;
  requested_at = now.monotonic;
  active_operations = 0;
  reported_alert = none;
}

-- What the manager reads of a kernel's session.
pub record SessionFacts : Type 0 where
  pub kernel_started : Bool
  pub current_execution : Option ℕ
  pub executions : ℕ

-- Why a kernel is closing.
pub data ClosingReason : Type 0 where
  manual_recycle idle_cleanup recycle_all_kernels orphan_grace_expired retention_ended :
      ClosingReason
  lease_expired recovery_failed server_shutdown control_plane_recycle : ClosingReason

pub record KernelResource : Type 0 where
  pub resource_id : Text
  pub name : Text
  pub session : SessionFacts
  pub created_at : ℕ
  pub home : Option Text
  pub named : Bool
  pub lifecycle : ResourceLifecycle
  pub client_leases : Dict Text ClientLease
  pub active_operations : ℕ
  pub orphaned_at : Option ℕ
  pub retained_until : Option ℕ
  pub closing_reason : Option ClosingReason

-- KernelResource.create
unfoldable pub new_resource : Text → SessionFacts → Option Text → Bool → Text → ℕ → KernelResource
new_resource name session home named id now = record {
  resource_id = id;
  name = name;
  session = session;
  created_at = now;
  home = home;
  named = named;
  lifecycle = running;
  client_leases = [];
  active_operations = 0;
  orphaned_at = none;
  retained_until = none;
  closing_reason = none;
}

abbrev pub key : KernelResource → Text
key r = resource_key r.name r.home

unfoldable pub is_busy : KernelResource → Bool
is_busy r = ltb 0 r.active_operations || is_some r.session.current_execution
