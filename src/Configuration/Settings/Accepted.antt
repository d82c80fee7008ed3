-- ===== src/Configuration/Settings/Accepted.antt =====
-- resource/settings.py: the policies that settings make.
use loommux.Configuration.Settings.{
  Setting, ResourceServerSettings, SettingError, positive_seconds, from_values, duration,
}
use loommux.Policy.{
  Durations, LeaseMode, check_durations, init, validate, policy_of, LeasePolicyManager,
  is_positive_finite,
}
use loommux.Prelude.{◌∷◌, [], none, codes, Bool, arith, ◌≡◌, Text, ℕ, false, true, refl}
use loommux.Prelude.Result.{err, ok, Result}
use loommux.Prelude.Dict.{Dict}
use loommux.Prelude.Int.{float_le, Float}

-- A duration that is accepted is positive and finite.
positive_result : Result SettingError Float → Bool
positive_result (ok x) = is_positive_finite x
positive_result (err e) = true

positive_seconds-positive :
    (name : Text) (v : Setting) → positive_result (positive_seconds name v) ≡ true
unfolding positive_result positive_seconds
positive_seconds-positive name v = ground arith

first_policy : LeaseMode → Durations → LeasePolicyManager
first_policy mode d = record {
  policy = policy_of mode 1 d;
  by_generation = (1, policy_of mode 1 d) ∷ [];
}

init_valid :
    (mode : LeaseMode) (d : Durations) → validate d ≡ none → init mode d ≡ ok (first_policy mode d)
unfolding init first_policy policy_of
init_valid mode d h = rw (init, h) refl

module _ (second : ℕ) where
  duration-positive :
      (values : Dict Text Setting) (name : Text) (default : ℕ)
      → positive_result (duration second values name default) ≡ true
  unfolding duration
  duration-positive values name default = positive_seconds-positive name _

  -- Durations of settings that are accepted.
  record IsPositive (s : ResourceServerSettings) : Type 0 where
    private : is_positive_finite s.durations.private_activity_timeout ≡ true
    named : is_positive_finite s.durations.named_activity_timeout ≡ true
    interval : is_positive_finite s.durations.heartbeat_interval ≡ true
    timeout : is_positive_finite s.durations.heartbeat_timeout ≡ true
    grace : is_positive_finite s.durations.connection_grace ≡ true
    sweep : is_positive_finite s.sweep_interval ≡ true
    orphan : is_positive_finite s.orphan_grace ≡ true
    greater : float_le s.durations.heartbeat_timeout s.durations.heartbeat_interval ≡ false

  from_values-IsPositive :
      (values : Dict Text Setting) (s : ResourceServerSettings)
      → from_values second values ≡ ok s
      → IsPositive s
  unfolding from_values positive_result
  from_values-IsPositive values s h =
      let d = duration-positive values in
      ground (
        arith,
        d (codes "private_activity_timeout_seconds") 4800,
        d (codes "named_activity_timeout_seconds") 86400,
        d (codes "heartbeat_interval_seconds") 15,
        d (codes "heartbeat_timeout_seconds") 60,
        d (codes "connection_grace_seconds") 60,
        d (codes "sweep_interval_seconds") 10,
        d (codes "orphan_grace_seconds") 30,
      )

  valid : (s : ResourceServerSettings) → IsPositive s → validate s.durations ≡ none
  unfolding validate check_durations
  valid s p = ground (arith, p.private, p.named, p.interval, p.timeout, p.grace, p.greater)

  -- Settings that are accepted make the first generation of the lease policy, in their mode, and their
  -- other two durations are positive and finite.
  pub from_values-init :
      (values : Dict Text Setting) (s : ResourceServerSettings)
      → from_values second values ≡ ok s
      → (m : LeasePolicyManager) × (init s.lease_mode s.durations ≡ ok m)
        × (m.policy ≡ policy_of s.lease_mode 1 s.durations)
        × (is_positive_finite s.sweep_interval ≡ true)
        × (is_positive_finite s.orphan_grace ≡ true)
  unfolding first_policy
  from_values-init values s h =
      let p = from_values-IsPositive values s h in
      (_, init_valid s.lease_mode s.durations (valid s p), refl, p.sweep, p.orphan)
