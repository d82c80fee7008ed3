-- ===== src/Examples/Registry.antt =====
-- Tests of the registry of kernels.
use loommux.Prelude.{
  text_is_eq, ◌⊎◌, if◌then◌else◌, arith, ◌↔◌, text_eq, codes, ℕ, Option, Text, ◌≡◌, [], true, refl,
  some, none,
}
use loommux.Model.Keys.{resource_key-injective, NoColon}
use loommux.Model.{attached, BindingKind, Binding}
use loommux.Manager.State.{Manager, IsSound, bound}
use loommux.Manager.Claims.{provision, claim}
use loommux.Manager.Admit.{admitted, admit}
use loommux.Examples.Data.{
  session, policy, starting_task, lab_found, lab-IsSound, clocks, bob, kernel, ann, lab,
}
use loommux.Prelude.Dict.{values, get}
use loommux.Manager.Names.{is_taken, numbered, free_name}
use loommux.Prelude.Lists.{first}
use loommux.Manager.Sweep.{sweep_clients, sweep}
use loommux.Manager.Reach.{sweeping, claiming, initially, then_, Reach-IsSound, new_manager}
use loommux.Prelude.Result.{ok}
use loommux.Manager.Sweep.Whole.{sweep_outcome, Busy}
use loommux.Manager.Names.Free.{free_name-IsFirst, IsFirst}
use loommux.Manager.Sweep.Anchored.{Anchored}
use loommux.Manager.Claims.Chosen.{choose_stays, choose-settled}
use loommux.Manager.Admit.Sound.{admit-IsSound}
use loommux.Manager.Claims.Enroll.{provision-IsSound}
use loommux.Manager.Paths.Found.{lookup-found}
use loommux.Manager.Paths.{resolve, lookup}

blank_named : NoColon kernel.resource_id
blank_named = ground arith

Reach-IsSound_example :
    IsSound (sweep (claim (new_manager [] 30 kernel) (codes "lab") none true).1 5)
Reach-IsSound_example =
    Reach-IsSound [] 30 kernel _ blank_named tt
      (then_ (then_ initially (claiming (codes "lab") none true tt)) (sweeping 5))

sweep_outcome_example :
    (get (sweep lab 100).by_id (codes "a1") ≡ some 0)
    ↔ (Anchored (sweep_clients lab 100) 100 0 ⊎ Busy lab 100 0)
sweep_outcome_example = sweep_outcome lab 100 0 lab-IsSound lab_found

abbrev admission : Option (Manager × Option Binding)
admission = admit lab bob policy none 0 (some attached) (clocks 7)

admits :
    admission
    ≡ some (
      admitted lab bob policy 0 (clocks 7),
      some (record { name = codes "lab"; kind = attached; executions = 2; released = none }),
    )
unfolding admit bound get first values text_eq
admits = refl

admit-IsSound_example :
    IsSound (admitted lab bob policy 0 (clocks 7))
    × (bound (admitted lab bob policy 0 (clocks 7)) (codes "s2") ≡ some 0)
    × ((other : Text)
        → bound (admitted lab bob policy 0 (clocks 7)) other
          ≡ (if text_eq (codes "s2") other then some 0 else bound lab other))
admit-IsSound_example =
    admit-IsSound lab (admitted lab bob policy 0 (clocks 7)) bob policy none 0 (some attached)
      (clocks 7) _ lab-IsSound refl admits

provision-IsSound_example :
    (m' : Manager) × (provision lab (codes "main:new") (codes "b2") session 1005 ≡ ok m')
    × IsSound m'
    × (get lab.by_key (codes "main:new") ≡ none)
    × (get m'.by_key (codes "main:new") ≡ some 1)
    × (get m'.by_id (codes "b2") ≡ some 1)
    × ((m'.heap 1).name ≡ codes "new")
    × ((m'.heap 1).home ≡ none)
unfolding get text_eq
provision-IsSound_example =
    provision-IsSound lab (codes "main:new") starting_task (codes "b2") session 1005 lab-IsSound
      refl refl refl refl (ground arith)

free_name-IsFirst_example :
    (n : ℕ) × (free_name lab (codes "lab") none [] ≡ numbered (codes "lab") n)
    × IsFirst (is_taken lab none []) (codes "lab") 1 n
free_name-IsFirst_example = free_name-IsFirst lab (codes "lab") none [] tt

stays_there : bound lab (codes "s1") ≡ some 0
unfolding bound first values get text_eq
stays_there = refl

choose-settled_example :
    (lab ≡ lab)
    × (kernel.home ≡ none)
    × (get lab.by_id (codes "a1") ≡ some 0)
    × ((◌≡◌ {A = Option BindingKind} none none) ↔ (bound lab (codes "s1") ≡ some 0))
choose-settled_example =
    choose-settled lab lab ann none 0 none lab-IsSound
      (choose_stays lab ann none 0 refl stays_there refl)

resource_key-injective_example :
    (codes "lab" ≡ codes "lab") × (◌≡◌ {A = Option Text} (some (codes "a1")) (some (codes "a1")))
resource_key-injective_example =
    resource_key-injective (codes "lab") (codes "lab") (some (codes "a1")) (some (codes "a1"))
      blank_named blank_named refl

looked_up : lookup lab (codes "a1") none ≡ ok 0
unfolding lookup resolve get text_eq
looked_up = refl

lookup-found_example : get lab.by_id (codes "a1") ≡ some 0
lookup-found_example = lookup-found lab (codes "a1") none 0 lab-IsSound looked_up
