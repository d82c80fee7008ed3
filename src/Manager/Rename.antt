-- ===== src/Manager/Rename.antt =====
-- resource/manager.py: `rename`. The name has passed `validate_kernel_name`.
pub mod Sound
use loommux.Prelude.{text_eq, ◌==◌, text_is_eq, if◌then◌else◌, Text, true, some, none}
use loommux.Model.{key, KernelResource}
use loommux.Manager.State.{resource_not_found, ManagerError, assign, Ref, Manager}
use loommux.Manager.Names.{home_names, free_name}
use loommux.Prelude.Dict.{remove, put, get}
use loommux.Prelude.Result.{ok, or_raise, ◌>>=◌, Result}

unfoldable pub named_as : KernelResource → Text → KernelResource
named_as x name = record x { name = name; named = true }

-- The registry of keys without the kernel's own key.
pub unkeyed : Manager → Ref → Manager
unkeyed m r = elim (get m.by_key (key (m.heap r))) [
  | none ↦ m
  | some q ↦ if q == r then record m { by_key = remove m.by_key (key (m.heap r)) } else m
]

-- The kernel takes this name, which is free.
rekey : Manager → Ref → Text → Manager
unfolding named_as
rekey m r name =
    let x = named_as (m.heap r) name in assign (record m { by_key = put m.by_key (key x) r }) r x

renamed : Manager → Ref → Text → Manager
unfolding unkeyed rekey
renamed m r name =
    let m' = unkeyed m r in rekey m' r (free_name m' name (m'.heap r).home (home_names m' r))

unfoldable pub rename : Manager → Text → Text → Result ManagerError (Ref × Manager)
unfolding renamed named_as
rename m id name = do
  r ← or_raise (get m.by_id id) resource_not_found
  ok (
    r,
    if text_eq name (m.heap r).name
        then assign m r (named_as (m.heap r) name)
        else renamed m r name,
  )
