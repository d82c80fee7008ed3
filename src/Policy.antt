-- ===== src/Policy.antt =====
-- resource/policy.py: lease policies, and the manager that publishes them by generation. The
-- manager's lock makes each method one step.
pub mod Generations
use loommux.Prelude.{
  nat_eq, ℕ, ◌+◌, Bool, true, false, ◌&&◌, ◌||◌, not, List, [], ◌∷◌, Option, none, some, ◌==◌,
  if◌then◌else◌,
}
use loommux.Prelude.Dict.{Dict, get, put}
use loommux.Prelude.Result.{Result, ok, err, ◌>>=◌, ◌>>◌, raise_if}
use loommux.Prelude.Int.{pos, Float, finite, isfinite, float_le, ticks}

pub data LeaseMode : Type 0 where
  activity heartbeat connection : LeaseMode

-- Durations in ticks.
pub record LeasePolicy : Type 0 where
  pub mode : LeaseMode
  pub generation : ℕ
  pub private_activity_timeout : ℕ
  pub named_activity_timeout : ℕ
  pub heartbeat_interval : ℕ
  pub heartbeat_timeout : ℕ
  pub connection_grace : ℕ

unfoldable pub timeout_for : LeasePolicy → Bool → ℕ
timeout_for p named = elim p.mode [
  | heartbeat ↦ p.heartbeat_timeout
  | _ ↦ if named then p.named_activity_timeout else p.private_activity_timeout
]

-- The values that `update` and the constructor take, before they are checked.
pub record Durations : Type 0 where
  pub private_activity_timeout : Float
  pub named_activity_timeout : Float
  pub heartbeat_interval : Float
  pub heartbeat_timeout : Float
  pub connection_grace : Float

pub data Label : Type 0 where
  private_activity_timeout named_activity_timeout heartbeat_interval : Label
  heartbeat_timeout connection_grace : Label

-- The two messages of `ValueError`.
pub data PolicyError : Type 0 where
  not_positive : Label → PolicyError
  timeout_not_greater : PolicyError

abbrev pub is_positive_finite : Float → Bool
is_positive_finite x = not (not (isfinite x) || float_le x (finite (pos 0)))

-- The loop over the labelled durations stops at the first that is refused.
unfoldable pub check_durations : List (Label × Float) → Option PolicyError
check_durations [] = none
check_durations ((label, value) ∷ rest) =
    if is_positive_finite value then check_durations rest else some (not_positive label)

abbrev pub labelled : Durations → List (Label × Float)
labelled d =
    (private_activity_timeout, d.private_activity_timeout)
    ∷ (named_activity_timeout, d.named_activity_timeout)
    ∷ (heartbeat_interval, d.heartbeat_interval)
    ∷ (heartbeat_timeout, d.heartbeat_timeout)
    ∷ (connection_grace, d.connection_grace)
    ∷ []

-- `_validate`: the error that it raises, if any.
unfoldable pub validate : Durations → Option PolicyError
unfolding check_durations isfinite float_le
validate d = elim (check_durations (labelled d)) [
  | some e ↦ some e
  | none ↦
      if float_le d.heartbeat_timeout d.heartbeat_interval then some timeout_not_greater else none
]

-- A policy of checked durations.
unfoldable pub policy_of : LeaseMode → ℕ → Durations → LeasePolicy
unfolding ticks
policy_of mode generation d = record {
  mode = mode;
  generation = generation;
  private_activity_timeout = ticks d.private_activity_timeout;
  named_activity_timeout = ticks d.named_activity_timeout;
  heartbeat_interval = ticks d.heartbeat_interval;
  heartbeat_timeout = ticks d.heartbeat_timeout;
  connection_grace = ticks d.connection_grace;
}

pub record LeasePolicyManager : Type 0 where
  pub policy : LeasePolicy
  pub by_generation : Dict ℕ LeasePolicy

-- LeasePolicyManager(...)
unfoldable pub init : LeaseMode → Durations → Result PolicyError LeasePolicyManager
init mode d = do
  raise_if (validate d)
  let first = policy_of mode 1 d
  ok (record { policy = first; by_generation = (first.generation, first) ∷ [] })

-- generation(n)
unfoldable pub generation : LeasePolicyManager → ℕ → Option LeasePolicy
generation m n = get m.by_generation n

abbrev pub same_mode : LeaseMode → LeaseMode → Bool
same_mode activity activity = true
same_mode heartbeat heartbeat = true
same_mode connection connection = true
same_mode _ _ = false

-- `values == current_values`: everything but the generation.
unfoldable pub same_values : LeasePolicy → LeasePolicy → Bool
same_values p q =
    same_mode p.mode q.mode
    && p.private_activity_timeout == q.private_activity_timeout
    && p.named_activity_timeout == q.named_activity_timeout
    && p.heartbeat_interval == q.heartbeat_interval
    && p.heartbeat_timeout == q.heartbeat_timeout
    && p.connection_grace == q.connection_grace

publish : LeasePolicyManager → LeasePolicy → LeasePolicyManager × LeasePolicy
publish m policy = if same_values policy m.policy then (m, m.policy) else (
  record { policy = policy; by_generation = put m.by_generation policy.generation policy },
  policy,
)

-- update(...): the new state, and the policy that is current after it.
unfoldable pub update :
    LeasePolicyManager
    → LeaseMode
    → Durations
    → Result PolicyError (LeasePolicyManager × LeasePolicy)
unfolding publish
update m mode d = do
  raise_if (validate d)
  ok (publish m (policy_of mode (m.policy.generation + 1) d))
