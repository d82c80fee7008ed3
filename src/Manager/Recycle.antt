-- ===== src/Manager/Recycle.antt =====
-- resource/manager.py: the ways out of the registry other than the sweep: `recycle`, `recycle_idle`,
-- `recycle_all`, the recovery that fails, and `stop`. The sessions that close afterwards are outside
-- the lock and change no registry.
pub mod Sound
pub mod Many
use loommux.Prelude.{
  ◌||◌, not, ◌+◌, if◌then◌else◌, ◌∷◌, text_is_eq, Bool, ℕ, Text, List, [], false, true, some,
}
use loommux.Manager.State.{
  resource_busy, resource_not_found, ManagerError, detach, store, assign, Manager, Ref,
}
use loommux.Model.{
  recovery_failed, server_shutdown, closing, is_busy, recycle_all_kernels, idle_cleanup,
  KernelResource, ClosingReason,
}
use loommux.Prelude.Dict.{get, keys, values}
use loommux.Prelude.Result.{guard, ◌>>◌, or_raise, ◌>>=◌, ok, err, Result}

-- The section that takes a kernel out.
unfoldable pub retire : Manager → Ref → ClosingReason → Manager
retire m r reason =
    assign (detach m r) r (record (m.heap r) { lifecycle = closing; closing_reason = some reason })

-- recycle
unfoldable pub recycle : Manager → Text → Bool → ClosingReason → Result ManagerError (Ref × Manager)
recycle m id force reason = do
  r ← or_raise (get m.by_id id) resource_not_found
  guard (not (is_busy (m.heap r)) || force) resource_busy
  ok (r, retire m r reason)

-- `gather(..., return_exceptions=True)`, one call at a time, and how many of them succeed.
pub recycle_each : Manager → List Text → Bool → ClosingReason → ℕ × Manager
recycle_each m [] force reason = (0, m)
recycle_each m (id ∷ ids) force reason = elim (recycle m id force reason) [
  | err e ↦ recycle_each m ids force reason
  | ok (r, m') ↦ let (n, m'') = recycle_each m' ids force reason in (n + 1, m'')
]

pub idle_ids : Manager → List Ref → List Text
idle_ids m [] = []
idle_ids m (r ∷ l) =
    let rest = idle_ids m l in if is_busy (m.heap r) then rest else (m.heap r).resource_id ∷ rest

-- recycle_idle
pub recycle_idle : Manager → ℕ × Manager
unfolding idle_ids recycle_each
recycle_idle m = recycle_each m (idle_ids m (values m.by_id)) false idle_cleanup

-- recycle_all
pub recycle_all : Manager → ℕ × Manager
unfolding recycle_each
recycle_all m = recycle_each m (keys m.by_id) true recycle_all_kernels

-- _recover_if_needed, where the restart has failed.
unfoldable pub recovery_fails : Manager → Ref → Manager
recovery_fails m r = retire m r recovery_failed

-- The first section of `stop`.
unfoldable pub stop_begin : Manager → Manager
stop_begin m = record m { stopping = true }

close_all : (Ref → KernelResource) → List Ref → Ref → KernelResource
close_all h [] = h
close_all h (r ∷ l) =
    close_all
      (store h r (record (h r) { lifecycle = closing; closing_reason = some server_shutdown })) l

-- The section of `stop` that empties the registries, which runs once more when the tasks have ended.
pub stop_clear : Manager → Manager
unfolding close_all
stop_clear m = record m { heap = close_all m.heap (values m.by_id); by_key = []; by_id = [] }
