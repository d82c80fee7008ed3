-- ===== src/Examples/Leases.antt =====
-- Tests of leases, policies, renamings and recyclings.
use loommux.Connections
use loommux.Examples.Data.{lab-IsSound, kernel, lease, lab, policy}
use loommux.Prelude.{
  ◌&&◌, ◌==◌, inr, inl, text_is_eq, if◌then◌else◌, arith, ◌⊎◌, ◌↔◌, codes, Text, ℕ, text_eq, ◌∷◌,
  ◌≡◌, [], false, true, refl, some, none,
}
use loommux.Manager.Recycle.{retire, recycle}
use loommux.Policy.{validate, policy_of, connection, LeasePolicyManager, Durations, init}
use loommux.Manager.State.{assign, IsSound}
use loommux.Manager.Rename.{unkeyed, rename, named_as}
use loommux.Model.{resource_key, is_busy, manual_recycle}
use loommux.Liveness.{assess_lease, expired}
use loommux.Connections.{presence, SessionPresence}
use loommux.Prelude.Dict.{get}
use loommux.Prelude.Int.{pos, finite}
use loommux.Manager.Sweep.{sweep_leases}
use loommux.Prelude.Result.{ok}
use loommux.Manager.Sweep.Leases.{reported, sweep_leases_exact}
use loommux.Liveness.Expiry.{LetGo, expired_iff}
use loommux.Manager.Recycle.Sound.{recycle-IsSound}
use loommux.Manager.Names.{home_names, is_taken, numbered}
use loommux.Manager.Names.Free.{IsFirst}
use loommux.Manager.Rename.Sound.{rename-IsSound}

abbrev away : SessionPresence
away = record {
  first_seen_at = 0;
  open_streams = 0;
  closed_at = some 20;
  process_bound = false;
  open_addresses = [];
}

expired_iff_example :
    (expired (assess_lease lease away true 40) 40 ≡ true) ↔ LetGo lease away true 40
expired_iff_example = expired_iff lease away true 40

expired_at_40 : expired (assess_lease lease away true 40) 40 ≡ true
unfolding Connections.connected
expired_at_40 =
    (expired_iff lease away true 40).1
      (inr (inr (refl, refl, (20, refl, omega arith, inl (omega arith)))))

sweep_leases_exact_example :
    get (sweep_leases [] kernel kernel.client_leases 5).1.client_leases (codes "s1")
    ≡ elim (get kernel.client_leases (codes "s1")) [
      | none ↦ none
      | some l ↦
          let v = assess_lease l (presence [] l.client.client_id 5).0 kernel.named 5 in
          if l.active_operations == 0 && expired v 5
          then none
          else some (record l { reported_alert = reported v.standing })
    ]
unfolding get
sweep_leases_exact_example = sweep_leases_exact [] kernel 5 (codes "s1") (refl, tt)

recycled : recycle lab (codes "a1") true manual_recycle ≡ ok (0, retire lab 0 manual_recycle)
unfolding recycle get text_eq is_busy
recycled = refl

recycle-IsSound_example :
    (get lab.by_id (codes "a1") ≡ some 0)
    × ((true ≡ true) ⊎ (is_busy kernel ≡ false))
    × IsSound (retire lab 0 manual_recycle)
    × ((j : Text)
        → get (retire lab 0 manual_recycle).by_id j
          ≡ (if text_eq (codes "a1") j then none else get lab.by_id j))
    × (((retire lab 0 manual_recycle).heap 0).closing_reason ≡ some manual_recycle)
recycle-IsSound_example =
    recycle-IsSound lab (retire lab 0 manual_recycle) (codes "a1") true manual_recycle 0 lab-IsSound
      recycled

rename_same :
    rename lab (codes "a1") (codes "lab") ≡ ok (0, assign lab 0 (named_as kernel (codes "lab")))
unfolding rename get text_eq
rename_same = refl

rename-IsSound_example :
    IsSound (assign lab 0 (named_as kernel (codes "lab")))
    × (lab.by_id ≡ lab.by_id)
    × (get lab.by_id (codes "a1") ≡ some 0)
    × (true ≡ true)
    × ((codes "lab" ≡ codes "lab") × (codes "lab" ≡ codes "lab")
        ⊎ ((n : ℕ) × (codes "lab" ≡ numbered (codes "lab") n)
            × (get lab.by_key (resource_key (numbered (codes "lab") n) none) ≡ some 0)
            × IsFirst
                (is_taken (unkeyed lab 0) none (home_names (unkeyed lab 0) 0))
                (codes "lab")
                1
                n))
unfolding named_as
rename-IsSound_example =
    rename-IsSound lab (assign lab 0 (named_as kernel (codes "lab"))) (codes "a1") (codes "lab") 0
      lab-IsSound rename_same

abbrev pub minutes : Durations
minutes = record {
  private_activity_timeout = finite (pos 60);
  named_activity_timeout = finite (pos 600);
  heartbeat_interval = finite (pos 15);
  heartbeat_timeout = finite (pos 60);
  connection_grace = finite (pos 10);
}

abbrev pub published : LeasePolicyManager
published = record { policy = policy; by_generation = (1, policy) ∷ [] }

pub init-published : init connection minutes ≡ ok published
unfolding init validate policy_of
init-published = refl
