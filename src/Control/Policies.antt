-- ===== src/Control/Policies.antt =====
-- mcp/control.py: `update_policy`. What `float` makes of a string is an argument.
use loommux.Policy.{generation, update, LeaseMode, LeasePolicy, LeasePolicyManager, Durations}
use loommux.Control.{Json, json_number, json_text, Body, Response, answered, refused, json_body}
use loommux.Configuration.Settings.{mode_of}
use loommux.Prelude.Int.{Float, finite, pos}
use loommux.Prelude.{
  ◌∙◌, ap, arith, ◌+◌, ◌⊎◌, ◌≡◌, inr, inl, true, refl, ◌==◌, not, text_is_eq, codes, ℕ, Option,
  Text, false, some, none,
}
use loommux.Prelude.Dict.{get, Dict}
use loommux.Prelude.Result.{Result-cases, or_raise, Result, ok, ◌>>=◌, err}
use loommux.Policy.Generations.{update-next, update-IsPublished, IsPublished}

-- The mode that a body asks for, or the one there is; a value that is no string names none.
mode_field : Dict Text Json → LeaseMode → Option LeaseMode
mode_field d previous = elim (get d (codes "mode")) [
  | none ↦ some previous
  | some (json_text t) ↦ mode_of t
  | _ ↦ none
]

abbrev field : {A : Type 0} → Option A → Result Response A
field o = or_raise o (refused 400)

module _ (to_float : Text → Option Float) where
  -- _number: `none` is ValueError or TypeError.
  number_field : Dict Text Json → Text → ℕ → Option Float
  number_field d name previous = elim (get d name) [
    | none ↦ some (finite (pos previous))
    | some (json_number x) ↦ some x
    | some (json_text t) ↦ to_float t
    | _ ↦ none
  ]

  seconds : Dict Text Json → Text → ℕ → Result Response Float
  seconds d name previous = field (number_field d name previous)

  asked : LeasePolicy → Dict Text Json → Result Response (LeaseMode × Durations)
  asked p d = do
    mode ← field (mode_field d p.mode)
    private ← seconds d (codes "private_activity_timeout_seconds") p.private_activity_timeout
    named ← seconds d (codes "named_activity_timeout_seconds") p.named_activity_timeout
    interval ← seconds d (codes "heartbeat_interval_seconds") p.heartbeat_interval
    timeout ← seconds d (codes "heartbeat_timeout_seconds") p.heartbeat_timeout
    grace ← seconds d (codes "connection_grace_seconds") p.connection_grace
    ok (
      mode,
      record {
        private_activity_timeout = private;
        named_activity_timeout = named;
        heartbeat_interval = interval;
        heartbeat_timeout = timeout;
        connection_grace = grace;
      },
    )

  -- update_policy
  unfoldable pub update_policy : LeasePolicyManager → Body → Response × LeasePolicyManager
  unfolding asked mode_field seconds number_field
  update_policy m body = elim (json_body false body >>= asked m.policy) [
    | err response ↦ (response, m)
    | ok (mode, durations) ↦ elim (update m mode durations) [
      | err e ↦ (refused 400, m)
      | ok (m', p) ↦
          (record answered { changed = some (not (p.generation == m.policy.generation)) }, m')
    ]
  ]

  -- Whatever a request to change the policy says: every generation that was published still answers with
  -- its policy; either nothing changes, or the response says that it has, and there is one generation more.
  pub update_policy-IsPublished :
      (m : LeasePolicyManager) (body : Body)
      → IsPublished m
      → let (response, m') = update_policy m body in
        IsPublished m'
        × ((g : ℕ) (q : LeasePolicy) → generation m g ≡ some q → generation m' g ≡ some q)
        × ((m' ≡ m)
            ⊎ ((response.changed ≡ some true) × (m'.policy.generation ≡ m.policy.generation + 1)))
  unfolding update_policy
  update_policy-IsPublished m body v =
      elim (Result-cases (json_body false body >>= asked m.policy)) [
        | inr (response, h) ↦ rw (update_policy, h) (v, (λ g q e. e), inl refl)
        | inl ((mode, d), h) ↦ elim (Result-cases (update m mode d)) [
          | inr (e, u) ↦ rw (update_policy, h, u) (v, (λ g q e. e), inl refl)
          | inl ((m', p), u) ↦
              let (published, current, kept) = update-IsPublished m m' mode d p u v in
              rw (update_policy, h, u)
                (
                  published,
                  kept,
                  elim (update-next m m' mode d p u) [
                    | inl same ↦ inl same
                    | inr next ↦ inr (ground (arith, next), ap (λ x. x.generation) current ∙ next)
                  ],
                )
        ]
      ]
