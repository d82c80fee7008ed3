-- ===== src/Manager/Claims/Unique.antt =====
-- resource/manager.py: one kernel to a name.
use loommux.Manager.State.{Ref, tasks-IsSound, IsReserved, IsSound, Manager}
use loommux.Manager.Claims.{provision_end, new_task, claim}
use loommux.Prelude.{
  text_eq_refl, some, text_eq_iff, arith, ◌≡◌, none, text_is_eq, Bool-cases, Option-cases, inr, inl,
  Bool, Option, Text,
}
use loommux.Model.Keys.{HomeOk}
use loommux.Prelude.Dict.{get-remove, get-put, put, has, get}
use loommux.Model.{resource_key}

module _ (m : Manager) (s : IsSound m) where
  -- A claim keeps the registry sound.
  pub claim-IsSound :
      (name : Text) (home : Option Text) (named : Bool)
      → HomeOk home
      → IsSound (claim m name home named).1
  unfolding claim
  claim-IsSound name home named ok = elim (Option-cases (get m.by_key (resource_key name home))) [
    | inr (r, e) ↦ rw (e, claim) s
    | inl free ↦ elim (Bool-cases (has m.provisioning (resource_key name home))) [
      | inl e ↦ rw (free, claim, e) s
      | inr e ↦ rw (free, claim, e) (tasks-IsSound m _ s (new_task_reserved free))
    ]
  ]
    where
      new_task_reserved :
          get m.by_key (resource_key name home) ≡ none
          → IsReserved (record m {
            provisioning = put m.provisioning (resource_key name home) (new_task name home named);
          })
      new_task_reserved free = record {
        pending = λ k t h p. ground (
          arith,
          get-put m.provisioning (resource_key name home) k (new_task name home named),
          text_eq_iff (resource_key name home) k,
          s.reserved.pending k t,
        );
      }

-- A second claim on the same name, before the first is settled, starts nothing: it is answered by the
-- same kernel or the same task, and changes nothing.
pub claim_again :
    (m : Manager) (name : Text) (home : Option Text) (named named' : Bool)
    → claim (claim m name home named).1 name home named'
      ≡ ((claim m name home named).0, (claim m name home named).1)
unfolding claim
claim_again m name home named named' = elim (Option-cases (get m.by_key (resource_key name home))) [
  | inr (r, e) ↦ ground arith
  | inl free ↦ ground (
    arith,
    get-put m.provisioning (resource_key name home) (resource_key name home)
        (new_task name home named),
    text_eq_refl (resource_key name home),
  )
]

-- In a sound state two registered kernels of one name and one home are the same kernel.
pub kernel_unique :
    (m : Manager) (r q : Ref)
    → IsSound m
    → get m.by_id (m.heap r).resource_id ≡ some r
    → get m.by_id (m.heap q).resource_id ≡ some q
    → (m.heap r).name ≡ (m.heap q).name
    → (m.heap r).home ≡ (m.heap q).home
    → r ≡ q
kernel_unique m r q s there there' name home =
    ground (arith, s.registry.in_keys _ r there, s.registry.in_keys _ q there')

-- The table after the end of a task: the other tasks stay.
pub provision_end-IsSound : (m : Manager) (k : Text) → IsSound m → IsSound (provision_end m k)
unfolding provision_end
provision_end-IsSound m k s = tasks-IsSound m _ s (record {
  pending = λ j t h p. ground (arith, get-remove m.provisioning k j, s.reserved.pending j t);
})
