-- ===== src/Liveness.antt =====
-- resource/liveness.py: whether a client lease still holds its kernel.
pub mod Expiry
use loommux.Connections
use loommux.Policy.{same_mode, timeout_for, connection}
use loommux.Prelude.{ltb, leb, if◌then◌else◌, Option, Bool, ◌+◌, ℕ, false, some, none}
use loommux.Model.{
  renewable, disconnected, stream_lost, reconnecting, unbound, awaiting_stream, ClientLease,
  LeaseStanding,
}
use loommux.Connections.{SessionPresence}

pub record LeaseVerdict : Type 0 where
  pub standing : LeaseStanding
  pub expires_at : Option ℕ
  pub window : Option ℕ
  pub grace_ends_at : Option ℕ

unfoldable pub expired : LeaseVerdict → ℕ → Bool
expired v now = elim v.expires_at [ none ↦ false | some t ↦ leb t now ]

unfoldable pub renewal : LeaseStanding → ClientLease → ℕ → LeaseVerdict
renewal standing lease window = record {
  standing = standing;
  expires_at = some (lease.renewed_at + window);
  window = some window;
  grace_ends_at = none;
}

-- The grace still decides.
abbrev pub in_grace : LeaseStanding → ℕ → ℕ → LeaseVerdict
in_grace standing grace ends = record {
  standing = standing;
  expires_at = none;
  window = some grace;
  grace_ends_at = some ends;
}

-- A connection lease whose session has no stream open.
assess_closed : ClientLease → SessionPresence → ℕ → ℕ → LeaseVerdict
unfolding renewal
assess_closed lease presence window now =
    let grace = lease.policy.connection_grace in
    elim presence.closed_at [
      | none ↦
          if ltb now (presence.first_seen_at + grace)
          then in_grace awaiting_stream grace (presence.first_seen_at + grace)
          else renewal unbound lease window
      | some closed ↦
          if ltb now (closed + grace)
          then in_grace reconnecting grace (closed + grace)
          else if ltb closed lease.requested_at
          then renewal stream_lost lease window
          else record {
            standing = disconnected;
            expires_at = some (closed + grace);
            window = some grace;
            grace_ends_at = some (closed + grace);
          }
    ]

unfoldable pub assess_lease : ClientLease → SessionPresence → Bool → ℕ → LeaseVerdict
unfolding assess_closed
assess_lease lease presence named now =
    let window = timeout_for lease.policy named in
    if same_mode lease.policy.mode connection
    then (if Connections.connected presence
        then record {
          standing = LeaseStanding.connected;
          expires_at = none;
          window = none;
          grace_ends_at = none;
        }
        else assess_closed lease presence window now)
    else renewal renewable lease window
