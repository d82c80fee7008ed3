-- ===== src/Control.antt =====
-- mcp/control.py: the routes of the HTTP control plane, as functions from a request to a response and
-- the state after it. A response is its code, and what it says of kernels; messages are left out.
pub mod Answers
pub mod Policies
pub mod Registry
use loommux.Prelude.Int.{Float}
use loommux.Manager.State.{
  is_registered, Manager, Ref, ManagerError, resource_not_found, resource_busy, kernel_not_found,
  routing, provision_failed,
}
use loommux.Model.{control_plane_recycle}
use loommux.Prelude.{
  ◌∷◌, codes, text_is_eq, not, ◌||◌, Option, ℕ, if◌then◌else◌, Bool, Text, [], false, true, some,
  none,
}
use loommux.Prelude.Result.{raise_if, ◌>>◌, or_raise, ◌>>=◌, ok, err, Result}
use loommux.Prelude.Dict.{has, get, Dict}
use loommux.Manager.Admit.{program_end, program_begin}
use loommux.Manager.Recycle.{recycle, recovery_fails}
use loommux.Manager.Paths.{validate_kernel_name, lookup}
use loommux.Manager.Rename.{rename}

-- A JSON value, as the routes look at it. An integer is a number.
pub data Json : Type 0 where
  json_null json_other : Json
  json_bool : Bool → Json
  json_number : Float → Json
  json_text : Text → Json

-- The body of a request: blank, an object, or anything else, malformed JSON included.
pub data Body : Type 0 where
  blank malformed : Body
  json_object : Dict Text Json → Body

pub record Response : Type 0 where
  pub code : ℕ
  pub succeeded : Bool
  pub resource : Option Ref
  pub count : Option ℕ
  pub changed : Option Bool

abbrev pub refused : ℕ → Response
refused code = record {
  code = code;
  succeeded = false;
  resource = none;
  count = none;
  changed = none;
}

abbrev pub answered : Response
answered = record { code = 200; succeeded = true; resource = none; count = none; changed = none }

-- _json_object
unfoldable pub json_body : Bool → Body → Result Response (Dict Text Json)
json_body optional (json_object d) = ok d
json_body optional malformed = err (refused 400)
json_body optional blank = if optional then ok [] else err (refused 400)

-- The code of an error: what is not found, what names no kernel, and the rest.
abbrev pub code_of : ManagerError → ℕ
code_of resource_not_found = 404
code_of kernel_not_found = 404
code_of routing = 400
code_of _ = 409

-- _registry_answer: the kernel may be retired before it is described.
unfoldable pub registry_answer : Manager → Result ManagerError Ref → Response
registry_answer m (err e) = refused (code_of e)
registry_answer m (ok r) =
    if is_registered m r then record answered { resource = some r } else refused 404

-- The answer of a call on a session, and whether it is a state of an execution.
pub record SessionAnswer : Type 0 where
  pub is_ok : Bool
  pub is_execution_state : Bool

-- The response of _session_call, when the call has been made.
unfoldable pub session_response : SessionAnswer → Response
session_response a = if a.is_ok || a.is_execution_state then answered else refused 409

-- How the kernel of a call is found: it runs, or its restart works or fails.
pub data Recovery : Type 0 where
  runs revived beyond_recovery : Recovery

-- What becomes of a request whose kernel is there again, or could not be restarted.
unfoldable pub recovered : Manager → Ref → Recovery → Result ManagerError Manager × Manager
recovered n r beyond_recovery = (err provision_failed, recovery_fails n r)
recovered n r _ = (program_begin n r, n)

module _ (others : Manager → Manager) where
  -- The call itself, and the response of _session_call.
  unfoldable pub call_of :
      Ref → SessionAnswer → Result ManagerError Manager × Manager → Response × Manager
  call_of r a (err e, n) = (refused (code_of e), n)
  call_of r a (ok m, n) = (session_response a, program_end (others m) r)

  -- program_operation and _session_call: `others` is what other sections make of the manager while the
  -- request waits, for the restart of the kernel or the locks, and for the call itself.
  unfoldable pub session_call : Manager → Text → Recovery → SessionAnswer → Response × Manager
  unfolding call_of recovered
  session_call m id found a = elim (get m.by_id id) [
    | none ↦ (refused 404, m)
    | some r ↦ call_of r a (recovered (others m) r found)
  ]

-- _resource_action, for an operation that finds its kernel and answers, or fails.
unfoldable pub resource_action : Manager → Text → Result ManagerError Bool → Response
resource_action m id result = if not (has m.by_id id) then refused 404 else elim result [
  | err e ↦ refused (code_of e)
  | ok succeeded ↦ if succeeded then answered else refused 409
]

unfoldable pub text_field : Dict Text Json → Text → Option Text
text_field d key = elim (get d key) [ some (json_text t) ↦ some t | _ ↦ none ]

-- `body.get("force", False)`, where it is a Boolean.
unfoldable pub force_field : Dict Text Json → Option Bool
force_field d = elim (get d (codes "force")) [
  | none ↦ some false
  | some (json_bool b) ↦ some b
  | _ ↦ none
]

-- The error or the response of a route, and the manager after it.
abbrev pub settled : Manager → Result Response (Response × Manager) → Response × Manager
settled m (err response) = (response, m)
settled m (ok answer) = answer

abbrev pub raised : {A : Type 0} → Result ManagerError A → Result Response A
raised (ok a) = ok a
raised (err e) = err (refused (code_of e))

module _ (others : Manager → Manager) (printable : ℕ → Bool) where
  -- rename_resource: the kernel may be retired between renaming and describing.
  unfoldable pub rename_resource : Manager → Text → Body → Response × Manager
  unfolding text_field
  rename_resource m id body = settled m do
    fields ← json_body false body
    name ← or_raise (text_field fields (codes "name")) (refused 400)
    raised (raise_if (validate_kernel_name printable name))
    (r, m') ← raised (rename m id name)
    ok (registry_answer (others m') (ok r), others m')

-- recycle_resource
unfoldable pub recycle_resource : Manager → Text → Body → Response × Manager
unfolding force_field
recycle_resource m id body = settled m do
  fields ← json_body true body
  force ← or_raise (force_field fields) (refused 400)
  (r, m') ← raised (recycle m id force control_plane_recycle)
  ok (answered, m')

-- lookup_resource: an empty path is refused, an empty context is none.
unfoldable pub lookup_resource : Manager → Text → Option Text → Response
lookup_resource m [] context = refused 400
lookup_resource m (c ∷ path) (some []) = registry_answer m (lookup m (c ∷ path) none)
lookup_resource m (c ∷ path) context = registry_answer m (lookup m (c ∷ path) context)
