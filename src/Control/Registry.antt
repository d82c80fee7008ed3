-- ===== src/Control/Registry.antt =====
-- mcp/control.py: what the routes do to the registry.
use loommux.Manager.State.{is_registered, IsSound, Manager, Ref}
use loommux.Control.{
  Recovery, beyond_recovery, Body, Response, answered, rename_resource, recycle_resource,
  lookup_resource, session_call, SessionAnswer,
}
use loommux.Prelude.{text_is_eq, ◌⊎◌, ◌≡◌, Bool, Option, Text, ℕ, false, some}
use loommux.Manager.Recycle.{recovery_fails, recycle_all, recycle_idle}
use loommux.Manager.Rename.{rename}
use loommux.Prelude.Result.{ok}
use loommux.Prelude.Dict.{get}
use loommux.Manager.Admit.{program_begin}
use loommux.Manager.Reach.{Reach}

pub data Request : Type 0 where
  renames recycles : Text → Body → Request
  recycles_idle recycles_all : Request
  looks_up : Text → Option Text → Request
  calls : Text → Recovery → SessionAnswer → Request

-- What other sections do while a request waits: any of them in any order. The id of a kernel is never
-- given to another one.
pub record IsOthers (others : Manager → Manager) : Type 0 where
  pub reaches : (m : Manager) → Reach m (others m)
  pub own_id :
      (m : Manager) (id : Text) (r q : Ref)
      → IsSound m
      → get m.by_id id ≡ some r
      → get (others m).by_id ((others m).heap r).resource_id ≡ some q
      → q ≡ r

module _ (others : Manager → Manager) (printable : ℕ → Bool) where
  unfoldable pub handle : Manager → Request → Response × Manager
  handle m (renames id body) = rename_resource others printable m id body
  handle m (recycles id body) = recycle_resource m id body
  handle m recycles_idle = let (n, m') = recycle_idle m in (record answered { count = some n }, m')
  handle m recycles_all = let (n, m') = recycle_all m in (record answered { count = some n }, m')
  handle m (looks_up path context) = (lookup_resource m path context, m)
  handle m (calls id found a) = session_call others m id found a

abbrev pub SameRegistries : Manager → Manager → Type 0
SameRegistries m n = (n.by_id ≡ m.by_id) × (n.by_key ≡ m.by_key)

module _ (others : Manager → Manager) where
  -- What a request that is not answered with success has done.
  abbrev pub Refused : Manager → Request → Response × Manager → Type 0
  Refused m (renames id body) (response, final) =
      SameRegistries m final
      ⊎ ((name : Text) × (r : Ref) × (n : Manager) × (rename m id name ≡ ok (r, n))
          × (final ≡ others n)
          × (is_registered final r ≡ false)
          × (response.code ≡ 404))
  Refused m (calls id found a) (response, final) =
      SameRegistries m final
      ⊎ ((r : Ref) × (get m.by_id id ≡ some r)
          × (SameRegistries (others m) final
              ⊎ (((found ≡ beyond_recovery)
                    × (final ≡ recovery_fails (others m) r)
                    × (response.code ≡ 409))
                  ⊎ ((n : Manager) × (program_begin (others m) r ≡ ok n)
                      × SameRegistries (others n) final))))
  Refused m _ (response, final) = SameRegistries m final
