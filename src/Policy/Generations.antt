-- ===== src/Policy/Generations.antt =====
-- resource/policy.py: no generation is changed or lost.
use loommux.Prelude.{
  ◌∙◌, sym, ◌⊎◌, inr, inl, false, Bool-cases, nat_eq, ℕ, ◌+◌, ◌≤◌, ◌<◌, ◌≡◌, refl, ap, subst, [],
  ◌∷◌, true, none, some, arith,
}
use loommux.Prelude.Dict.{put, get, get-put}
use loommux.Prelude.Result.{Result, ok, raise_if-eq-ok}
use loommux.Policy.{
  same_values, LeaseMode, LeasePolicy, Durations, PolicyError, LeasePolicyManager, validate,
  policy_of, init, generation, update, publish, same_mode, activity, heartbeat, connection,
}

-- What makes a policy usable.
pub record IsUsable (p : LeasePolicy) : Type 0 where
  pub private_pos : 0 < p.private_activity_timeout
  pub named_pos : 0 < p.named_activity_timeout
  pub interval_pos : 0 < p.heartbeat_interval
  pub timeout_gt : p.heartbeat_interval < p.heartbeat_timeout
  pub grace_pos : 0 < p.connection_grace

policy_of-IsUsable :
    (mode : LeaseMode) (g : ℕ) (d : Durations) → validate d ≡ none → IsUsable (policy_of mode g d)
unfolding validate policy_of
policy_of-IsUsable mode g d h = ground arith

-- The table holds the current policy, every policy under its own generation, and none newer.
pub record IsPublished (m : LeasePolicyManager) : Type 0 where
  pub current : get m.by_generation m.policy.generation ≡ some m.policy
  pub usable : IsUsable m.policy
  pub entries :
      (g : ℕ) (p : LeasePolicy)
      → get m.by_generation g ≡ some p
      → (p.generation ≡ g) × (g ≤ m.policy.generation) × IsUsable p

first-IsPublished :
    (p : LeasePolicy)
    → IsUsable p
    → IsPublished (record { policy = p; by_generation = (p.generation, p) ∷ [] })
unfolding get
first-IsPublished p u = record {
  current = ground arith;
  usable = u;
  entries = λ g q h. ground arith;
}

-- A new manager has the given policy as generation one.
pub init-IsPublished :
    (mode : LeaseMode) (d : Durations) (m : LeasePolicyManager)
    → init mode d ≡ ok m
    → IsPublished m × (m.policy ≡ policy_of mode 1 d)
unfolding init
init-IsPublished mode d m h =
    let (valid, e) = raise_if-eq-ok (validate d) _ m h in
    subst (λ x. IsPublished x × (x.policy ≡ policy_of mode 1 d)) e
      (first-IsPublished _ (policy_of-IsUsable mode 1 d valid), refl)

publish-IsPublished :
    (m : LeasePolicyManager) (p : LeasePolicy)
    → IsPublished m
    → IsUsable p
    → p.generation ≡ m.policy.generation + 1
    → IsPublished (publish m p).0
unfolding publish
publish-IsPublished m p v u e = record {
  current = ground (arith, get-put m.by_generation p.generation p.generation p, v.current);
  usable = ground (arith, u, v.usable);
  entries = λ g q h. ground (arith, get-put m.by_generation p.generation g p, v.entries g q);
}

publish-keeps :
    (m : LeasePolicyManager) (p : LeasePolicy) (g : ℕ) (q : LeasePolicy)
    → IsPublished m
    → p.generation ≡ m.policy.generation + 1
    → get m.by_generation g ≡ some q
    → get (publish m p).0.by_generation g ≡ some q
unfolding publish
publish-keeps m p g q v e h =
    ground (arith, get-put m.by_generation p.generation g p, v.entries g q)

publish-current :
    (m : LeasePolicyManager) (p : LeasePolicy) → (publish m p).0.policy ≡ (publish m p).1
unfolding publish
publish-current m p = ground arith

same_mode_self : (x : LeaseMode) → same_mode x x ≡ true
same_mode_self activity = refl
same_mode_self heartbeat = refl
same_mode_self connection = refl

publish_same :
    (m : LeasePolicyManager) (p : LeasePolicy)
    → same_values p m.policy ≡ true
    → publish m p ≡ (m, m.policy)
unfolding publish
publish_same m p h = rw h

publish_new :
    (m : LeasePolicyManager) (p : LeasePolicy)
    → same_values p m.policy ≡ false
    → publish m p ≡ (record { policy = p; by_generation = put m.by_generation p.generation p }, p)
unfolding publish
publish_new m p h = rw h

same_values-policy_of :
    (mode : LeaseMode) (d : Durations) (g k : ℕ)
    → same_values (policy_of mode k d) (policy_of mode g d) ≡ true
unfolding policy_of same_values
same_values-policy_of mode d g k = ground (arith, same_mode_self mode)

publish_twice :
    (m : LeasePolicyManager) (mode : LeaseMode) (d : Durations) (g k : ℕ)
    → publish (publish m (policy_of mode g d)).0 (policy_of mode k d)
      ≡ publish m (policy_of mode g d)
unfolding policy_of same_values
publish_twice m mode d g k = elim (Bool-cases (same_values (policy_of mode g d) m.policy)) [
  | inl same ↦
      rw (publish_same m (policy_of mode g d) same) (publish_same m (policy_of mode k d) same)
  | inr new ↦
      rw (publish_new m (policy_of mode g d) new)
        (publish_same _ _ (same_values-policy_of mode d g k))
]

module _ (m m' : LeasePolicyManager) (mode : LeaseMode) (d : Durations) (p : LeasePolicy)
    (updated : update m mode d ≡ ok (m', p)) where
  update_parts :
      (validate d ≡ none) × (publish m (policy_of mode (m.policy.generation + 1) d) ≡ (m', p))
  unfolding update
  update_parts = raise_if-eq-ok (validate d) _ (m', p) updated

  -- An update that succeeds publishes the policy that it returns, and every policy published before
  -- it stays under its generation.
  pub update-IsPublished :
      IsPublished m
      → IsPublished m'
        × (m'.policy ≡ p)
        × ((g : ℕ) (q : LeasePolicy) → generation m g ≡ some q → generation m' g ≡ some q)
  unfolding generation policy_of
  update-IsPublished v =
      let (valid, e) = update_parts in
      let usable = policy_of-IsUsable mode (m.policy.generation + 1) d valid in
      let new : LeasePolicy = policy_of mode (m.policy.generation + 1) d in
      (
        subst IsPublished (ap (λ x. x.0) e) (publish-IsPublished m new v usable refl),
        subst (λ x. x.0.policy ≡ x.1) e (publish-current m new),
        λ g q h. subst (λ x. get x.0.by_generation g ≡ some q) e (publish-keeps m new g q v refl h),
      )

  -- An update that succeeds changes nothing, or publishes the next generation.
  pub update-next : (m' ≡ m) ⊎ (p.generation ≡ m.policy.generation + 1)
  unfolding policy_of
  update-next =
      let (valid, e) = update_parts in
      let new : LeasePolicy = policy_of mode (m.policy.generation + 1) d in
      elim (Bool-cases (same_values new m.policy)) [
        | inl same ↦ inl (ap (λ x. x.0) (sym e ∙ publish_same m new same))
        | inr fresh ↦ inr (ap (λ x. x.1.generation) (sym e ∙ publish_new m new fresh))
      ]

  -- Asking again for the values in force changes nothing, and returns the policy of the first time.
  pub update_again : update m' mode d ≡ ok (m', p)
  unfolding update
  update_again =
      let (valid, e) = update_parts in
      let pol : ℕ → LeasePolicy = λ g. policy_of mode g d in
      rw valid (
        subst
          (λ x.
            ◌≡◌ {A = Result PolicyError (LeasePolicyManager × LeasePolicy)}
              (ok (publish x.0 (pol (x.0.policy.generation + 1)))) (ok x))
          e (ap ok (publish_twice m mode d _ _)))
