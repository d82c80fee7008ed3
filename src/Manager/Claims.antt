-- ===== src/Manager/Claims.antt =====
-- resource/manager.py: claims on kernels (`_claim_locked`), the tasks that start them (`_provision`),
-- and the choice of a session's main kernel (`_session_kernel`).
pub mod Unique
pub mod Chosen
pub mod Enroll
use loommux.Prelude.{
  not, ◌||◌, ◌==◌, ℕ, ◌++◌, text_is_eq, codes, if◌then◌else◌, Bool, Text, Option, [], suc, false,
  true, some, none,
}
use loommux.Manager.State.{
  provision_failed, bound, kernel_not_found, main_kernel, ManagerError, store, Task, Manager, Ref,
}
use loommux.Model.{
  join, attached, opened, new_resource, resource_key, BindingKind, SessionFacts, KernelRequest,
  LeaseClient, RequestMode,
}
use loommux.Prelude.Dict.{put, get, has, remove}
use loommux.Prelude.Result.{or_raise, ◌>>=◌, guard, ◌>>◌, err, ok, Result}
use loommux.Manager.Names.{free_name}
use loommux.Prelude.Lists.{take}

-- A registered kernel, or the task under this key that starts it.
pub data Claim : Type 0 where
  registered : Ref → Claim
  starting : Text → Claim

pub new_task : Text → Option Text → Bool → Task
new_task name home named = record { name = name; home = home; named = named; registered = false }

-- _claim_locked
unfoldable pub claim : Manager → Text → Option Text → Bool → Claim × Manager
unfolding new_task
claim m name home named =
    let key = resource_key name home in
    elim (get m.by_key key) [
      | some r ↦ (registered r, m)
      | none ↦ if has m.provisioning key then (starting key, m) else (
        starting key,
        record m { provisioning = put m.provisioning key (new_task name home named) },
      )
    ]

-- get_or_create, up to the wait for the task.
abbrev pub get_or_create :
    Manager → Text → Option Text → Bool → Result ManagerError (Claim × Manager)
get_or_create m name home named = do
  guard (not m.stopping) ManagerError.stopping
  ok (claim m name home named)

pub enroll : Manager → Text → Task → Text → SessionFacts → ℕ → Manager
enroll m k t id session wall = record m {
  heap = store m.heap m.next_ref (new_resource t.name session t.home t.named id wall);
  next_ref = suc m.next_ref;
  by_key = put m.by_key k m.next_ref;
  by_id = put m.by_id id m.next_ref;
  provisioning = put m.provisioning k (record t { registered = true });
}

-- The section of `_provision` that registers the kernel which the task under this key has started.
unfoldable pub provision : Manager → Text → Text → SessionFacts → ℕ → Result ManagerError Manager
unfolding enroll
provision m k id session wall = do
  guard (not m.stopping) ManagerError.stopping
  t ← or_raise (get m.provisioning k) provision_failed
  ok (enroll m k t id session wall)

-- The last section of `_provision`, whether the kernel started or not.
-- A key has no other task until this one has left the table, so the task under it is this one.
pub provision_end : Manager → Text → Manager
provision_end m k = record m { provisioning = remove m.provisioning k }

-- The kernel that a call runs in, or the task it waits for, and how the session came to it.
pub data Choice : Type 0 where
  settled : Ref → Option BindingKind → Choice
  awaiting : Claim → BindingKind → Choice

-- private_kernel_name
abbrev pub private_kernel_name : LeaseClient → Text
private_kernel_name client = codes "private-" ++ take 8 client.client_id

abbrev is_at : Option Ref → Ref → Bool
is_at none r = false
is_at (some q) r = r == q

abbrev pub is_join : RequestMode → Bool
is_join join = true
is_join _ = false

choose_named : Manager → Option Ref → KernelRequest → Result ManagerError (Choice × Manager)
choose_named m at request = elim (main_kernel m request.name) [
  | some r ↦ ok (settled r (if is_at at r then none else some attached), m)
  | none ↦
      if request.create || is_join request.mode
      then (let kind =
            if has m.provisioning (resource_key request.name none) then attached else opened in
          let (c, m') = claim m request.name none true in ok (awaiting c kind, m'))
      else err kernel_not_found
]

choose_private : Manager → LeaseClient → Choice × Manager
choose_private m client =
    let base = private_kernel_name client in
    let name = if has m.by_key (resource_key base none) then free_name m base none [] else base in
    let (c, m') = claim m name none false in (awaiting c opened, m')

choose_from :
    Manager
    → LeaseClient
    → Option KernelRequest
    → Option Ref
    → Result ManagerError (Choice × Manager)
unfolding choose_named choose_private
choose_from m client none none = ok (choose_private m client)
choose_from m client none (some b) = ok (settled b none, m)
choose_from m client (some request) none = choose_named m none request
choose_from m client (some request) (some b) =
    if is_join request.mode then ok (settled b none, m) else choose_named m (some b) request

-- The section of `_session_kernel` under the lock.
unfoldable pub choose :
    Manager → LeaseClient → Option KernelRequest → Result ManagerError (Choice × Manager)
unfolding choose_from
choose m client request = do
  guard (not m.stopping) ManagerError.stopping
  choose_from m client request (bound m client.client_id)
