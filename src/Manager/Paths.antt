-- ===== src/Manager/Paths.antt =====
-- resource/manager.py: what a path names: `lookup`, `create`, `_resolve_locked` and `_scope_locked`. The
-- test of printable characters, `str.isprintable`, is an argument.
pub mod Found
use loommux.Prelude.{
  ltb, ◌||◌, text_is_eq, not, text_eq, if◌then◌else◌, ◌==◌, ◌&&◌, Bool, ◌∷◌, List, ℕ, Text, Option,
  [], false, true, some, none,
}
use loommux.Manager.State.{
  kernel_not_found, resource_not_found, routing, ManagerError, Ref, Manager,
}
use loommux.Manager.Claims.{claim, Claim}
use loommux.Prelude.Result.{raise_if, guard, or_raise, ◌>>=◌, ◌>>◌, err, ok, Result}
use loommux.Prelude.Dict.{has, get}
use loommux.Model.{resource_key}
use loommux.Prelude.Lists.{length, any}

abbrev pub is_slash : ℕ → Bool
is_slash c = c == b'/'

skip_slashes : Text → Text
skip_slashes [] = []
skip_slashes (c ∷ t) = let rest = skip_slashes t in if is_slash c then rest else c ∷ t

all_slashes : Text → Bool
all_slashes [] = true
all_slashes (c ∷ t) = is_slash c && all_slashes t

cut_slashes : Text → Text
cut_slashes [] = []
cut_slashes (c ∷ t) = if all_slashes (c ∷ t) then [] else c ∷ cut_slashes t

-- path.strip("/")
pub strip_slashes : Text → Text
unfolding skip_slashes cut_slashes all_slashes
strip_slashes t = cut_slashes (skip_slashes t)

abbrev push : ℕ → List Text → List Text
push c [] = (c ∷ []) ∷ []
push c (p ∷ ps) = (c ∷ p) ∷ ps

-- path.split("/")
pub split_slashes : Text → List Text
split_slashes [] = [] ∷ []
split_slashes (c ∷ t) = let rest = split_slashes t in if is_slash c then [] ∷ rest else push c rest

abbrev is_blank : Text → Bool
is_blank [] = true
is_blank (c ∷ t) = false

-- The kernel, the main kernel in whose scope the name is read, and the name.
abbrev pub Resolved : Type 0
Resolved = Option Ref × Option Ref × Text

-- _scope_locked
unfoldable pub scope_of : Manager → Option Text → Result ManagerError (Option Ref)
scope_of m none = ok none
scope_of m (some context_id) = do
  context ← or_raise (get m.by_id context_id) resource_not_found
  elim (m.heap context).home [
    | none ↦ ok (some context)
    | some home ↦ or_raise (get m.by_id home) resource_not_found >>= λ main. ok (some main)
  ]

-- A path from the root.
unfoldable pub resolve_parts : Manager → List Text → Result ManagerError Resolved
resolve_parts m [] = err routing
resolve_parts m (p ∷ []) =
    if is_blank p then err routing else ok (get m.by_key (resource_key p none), none, p)
resolve_parts m (p ∷ q ∷ []) =
    if is_blank p || is_blank q
    then err routing
    else or_raise (get m.by_key (resource_key p none)) kernel_not_found >>= λ main.
        ok (get m.by_key (resource_key q (some (m.heap main).resource_id)), some main, q)
resolve_parts m (p ∷ q ∷ r ∷ parts) = err routing

-- A bare name.
unfoldable pub resolve_name : Manager → Text → Option Ref → Resolved
resolve_name m path none = (get m.by_key (resource_key path none), none, path)
resolve_name m path (some s) =
    if text_eq path (m.heap s).name
    then (some s, some s, path)
    else (get m.by_key (resource_key path (some (m.heap s).resource_id)), some s, path)

-- _resolve_locked
unfoldable pub resolve : Manager → Text → Option Text → Result ManagerError Resolved
unfolding strip_slashes split_slashes
resolve m path context_id = elim (get m.by_id path) [
  | some r ↦ ok (some r, none, path)
  | none ↦
      if any is_slash path
      then resolve_parts m (split_slashes (strip_slashes path))
      else scope_of m context_id >>= λ scope. ok (resolve_name m path scope)
]

-- lookup
unfoldable pub lookup : Manager → Text → Option Text → Result ManagerError Ref
lookup m path context_id = do found ← resolve m path context_id; or_raise found.0 kernel_not_found

-- The kernel that is there, or the claim on a new one and the id of its home.
pub data Creation : Type 0 where
  existing : Ref → Creation
  opening : Claim → Text → Creation

abbrev max_label_length : ℕ
max_label_length = 256

-- validate_kernel_name, with label_problem of identity.py: the error, if any.
unfoldable pub validate_kernel_name : (ℕ → Bool) → Text → Option ManagerError
validate_kernel_name printable name =
    if ltb max_label_length (length name)
    then some routing
    else if any (λ c. not (printable c)) name
    then some routing
    else if any is_slash name
    then some routing
    else none

-- Opening a child in this scope, under this name.
unfoldable pub open_child :
    (ℕ → Bool) → Manager → Option Ref → Text → Result ManagerError (Creation × Manager)
open_child printable m none name = err routing
open_child printable m (some s) name = do
  raise_if (validate_kernel_name printable name)
  guard (not (text_eq name (m.heap s).name)) routing
  let (c, m') = claim m name (some (m.heap s).resource_id) true
  ok (opening c (m.heap s).resource_id, m')

-- The first section of `create`.
unfoldable pub create :
    (ℕ → Bool) → Manager → Text → Option Text → Result ManagerError (Creation × Manager)
create printable m path context_id = do
  guard (not m.stopping) ManagerError.stopping
  found ← resolve m path context_id
  elim found.0 [ some r ↦ ok (existing r, m) | none ↦ open_child printable m found.1 found.2 ]

-- The last section of `create`, when the kernel has started.
unfoldable pub create_end : Manager → Text → Ref → Result ManagerError Ref
create_end m home r = do guard (has m.by_id home) resource_not_found; ok r
