-- ===== src/Liveness/Expiry.antt =====
-- resource/liveness.py: exactly when a lease has expired, and when it alerts.
use loommux.Connections
use loommux.Prelude.{◌↔◌, ◌<◌, ◌⊎◌, arith, ◌≡◌, ◌≢◌, ◌≤◌, ◌+◌, ℕ, Bool, false, true, some, none}
use loommux.Liveness.{expired, assess_lease}
use loommux.Model.{alert, ClientLease}
use loommux.Connections.{SessionPresence}
use loommux.Policy.{connection, timeout_for}

-- The renewal window has passed.
abbrev pub Lapsed : ClientLease → Bool → ℕ → Type 0
Lapsed lease named now = lease.renewed_at + timeout_for lease.policy named ≤ now

-- When a lease no longer holds its kernel, stated without the standings. A renewable lease: its
-- window has passed. A connection lease: no stream is open, the grace has passed since the session
-- was first seen or lost its last stream, and either the client sent nothing after that loss or its
-- window has passed.
abbrev pub LetGo : ClientLease → SessionPresence → Bool → ℕ → Type 0
LetGo lease p named now =
    ((lease.policy.mode ≢ connection) × Lapsed lease named now)
    ⊎ ((lease.policy.mode ≡ connection)
        × (Connections.connected p ≡ false)
        × ((p.closed_at ≡ none)
            × (p.first_seen_at + lease.policy.connection_grace ≤ now)
            × Lapsed lease named now))
    ⊎ ((lease.policy.mode ≡ connection)
        × (Connections.connected p ≡ false)
        × ((closed : ℕ) × (p.closed_at ≡ some closed)
            × (closed + lease.policy.connection_grace ≤ now)
            × ((lease.requested_at ≤ closed) ⊎ Lapsed lease named now)))

-- When an alert stands: a connection lease without an open stream, after the grace, whose client
-- never had a stream or has sent something since it lost the last one.
abbrev pub Alarming : ClientLease → SessionPresence → ℕ → Type 0
Alarming lease p now =
    (lease.policy.mode ≡ connection)
    × (Connections.connected p ≡ false)
    × (((p.closed_at ≡ none) × (p.first_seen_at + lease.policy.connection_grace ≤ now))
        ⊎ ((closed : ℕ) × (p.closed_at ≡ some closed)
            × (closed + lease.policy.connection_grace ≤ now)
            × (closed < lease.requested_at)))

module _ (lease : ClientLease) (p : SessionPresence) (named : Bool) (now : ℕ) where
  expired-LetGo : expired (assess_lease lease p named now) now ≡ true → LetGo lease p named now
  unfolding assess_lease expired
  expired-LetGo h = ground arith

  LetGo-expired : LetGo lease p named now → expired (assess_lease lease p named now) now ≡ true
  unfolding assess_lease expired
  LetGo-expired h = ground arith

  -- A lease is judged expired exactly when it has let go of its kernel.
  pub expired_iff : (expired (assess_lease lease p named now) now ≡ true) ↔ LetGo lease p named now
  expired_iff = (expired-LetGo, LetGo-expired)

  alert-Alarming : alert (assess_lease lease p named now).standing ≡ true → Alarming lease p now
  unfolding assess_lease alert
  alert-Alarming h = ground arith

  Alarming-alert : Alarming lease p now → alert (assess_lease lease p named now).standing ≡ true
  unfolding assess_lease alert
  Alarming-alert h = ground arith

  -- The standing is an alert exactly when the lease is alarming.
  pub alert_iff : (alert (assess_lease lease p named now).standing ≡ true) ↔ Alarming lease p now
  alert_iff = (alert-Alarming, Alarming-alert)

-- As long as nothing is recorded of the client or its streams, an expired lease stays expired.
pub expired_mono :
    (lease : ClientLease) (p : SessionPresence) (named : Bool) (now later : ℕ)
    → now ≤ later
    → expired (assess_lease lease p named now) now ≡ true
    → expired (assess_lease lease p named later) later ≡ true
unfolding assess_lease expired
expired_mono lease p named now later le h = ground arith
