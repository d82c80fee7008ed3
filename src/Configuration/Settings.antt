-- ===== src/Configuration/Settings.antt =====
-- resource/settings.py: the lease settings that a `config.py` names. A second has `second` ticks.
pub mod Accepted
use loommux.Policy.{activity, heartbeat, connection, LeaseMode, Durations, is_positive_finite}
use loommux.Prelude.Int.{Float, finite, pos, isfinite, float_le}
use loommux.Prelude.{
  not, text_is_eq, ◌==◌, ◌||◌, ◌+◌, codes, text_eq, or_else, if◌then◌else◌, ◌*◌, Bool, map, ◌∷◌, ℕ,
  Option, Text, [], some, none,
}
use loommux.Prelude.Result.{guard, ◌>>◌, or_raise, err, ◌>>=◌, ok, Result}
use loommux.Prelude.Dict.{get, Dict}
use loommux.Prelude.Strings.{between_codes, strip}

-- A value that a `config.py` sets, as the checks see it; a Boolean is no number.
pub data Setting : Type 0 where
  number : Float → Setting
  word : Text → Setting
  flag other_value : Setting

pub record ResourceServerSettings : Type 0 where
  pub lease_mode : LeaseMode
  pub durations : Durations
  pub sweep_interval : Float
  pub orphan_grace : Float

pub data SettingError : Type 0 where
  bad_lease_mode timeout_too_short : SettingError
  not_positive_seconds : (name : Text) → SettingError

-- `str.lower` on ASCII; no other character has a lower case that stands in the name of a mode.
abbrev lower : ℕ → ℕ
lower c = if between_codes b'A' b'Z' c then c + 32 else c

unfoldable pub mode_of : Text → Option LeaseMode
unfolding strip
mode_of t =
    let name = map lower (strip t) in
    if text_eq name (codes "activity")
    then some activity
    else if text_eq name (codes "heartbeat")
    then some heartbeat
    else if text_eq name (codes "connection")
    then some connection
    else none

lease_mode_of : Option Setting → Result SettingError LeaseMode
unfolding mode_of
lease_mode_of none = ok activity
lease_mode_of (some (word t)) = or_raise (mode_of t) bad_lease_mode
lease_mode_of (some _) = err bad_lease_mode

-- _positive_seconds
unfoldable pub positive_seconds : Text → Setting → Result SettingError Float
positive_seconds name (number x) =
    if is_positive_finite x then ok x else err (not_positive_seconds name)
positive_seconds name _ = err (not_positive_seconds name)

module _ (second : ℕ) where
  abbrev seconds : ℕ → Float
  seconds n = finite (pos (n * second))

  -- `_positive_seconds(name, values.get(name, default))`
  duration : Dict Text Setting → Text → ℕ → Result SettingError Float
  duration values name default =
      positive_seconds name (or_else (get values name) (number (seconds default)))

  -- ResourceServerSettings.from_values
  unfoldable pub from_values : Dict Text Setting → Result SettingError ResourceServerSettings
  unfolding lease_mode_of duration
  from_values values = do
    mode ← lease_mode_of (get values (codes "lease_mode"))
    private ← duration values (codes "private_activity_timeout_seconds") 4800
    named ← duration values (codes "named_activity_timeout_seconds") 86400
    interval ← duration values (codes "heartbeat_interval_seconds") 15
    timeout ← duration values (codes "heartbeat_timeout_seconds") 60
    grace ← duration values (codes "connection_grace_seconds") 60
    sweep ← duration values (codes "sweep_interval_seconds") 10
    orphan ← duration values (codes "orphan_grace_seconds") 30
    guard (not (float_le timeout interval)) timeout_too_short
    ok (record {
      lease_mode = mode;
      durations = record {
        private_activity_timeout = private;
        named_activity_timeout = named;
        heartbeat_interval = interval;
        heartbeat_timeout = timeout;
        connection_grace = grace;
      };
      sweep_interval = sweep;
      orphan_grace = orphan;
    })
