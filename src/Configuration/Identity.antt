-- ===== src/Configuration/Identity.antt =====
-- identity.py: which kernel a process is, and kernel/launch.py: the environment in which it is told.
-- `str.isprintable` is an argument, of one character.
pub mod Environment
use loommux.Prelude.{
  not, ◌&&◌, text_eq, ◌++◌, ltb, ◌==◌, text_is_eq, or_else, if◌then◌else◌, Bool, codes, ◌∷◌, Option,
  ℕ, List, Text, [], false, true, some, none,
}
use loommux.Prelude.Dict.{remove, get, put, Dict}
use loommux.Prelude.Lists.{length, any, keep}
use loommux.Prelude.Decimal.{decimal}

-- LOOMMUX_KERNEL_ID and the other names.
abbrev pub kernel_id_env : Text
kernel_id_env = codes "LOOMMUX_KERNEL_ID"

abbrev pub kernel_name_env : Text
kernel_name_env = codes "LOOMMUX_KERNEL_NAME"

abbrev pub control_url_env : Text
control_url_env = codes "LOOMMUX_CONTROL_URL"

pub record KernelIdentity : Type 0 where
  pub kernel_id : Text
  pub name : Text
  pub control_url : Option Text

pub data LabelProblem : Type 0 where
  too_long not_printable : LabelProblem

-- label_problem
abbrev pub label_problem : (ℕ → Bool) → Text → Option LabelProblem
label_problem isprintable value =
    if ltb 256 (length value)
    then some too_long
    else if any (λ c. not (isprintable c)) value
    then some not_printable
    else none

abbrev pub is_filled : Text → Bool
is_filled [] = false
is_filled (c ∷ t) = true

-- names: the ways in which a cell header may name this kernel.
unfoldable pub names : KernelIdentity → List Text
names i = keep is_filled (i.kernel_id ∷ i.name ∷ [])

-- environment()
unfoldable pub environment : KernelIdentity → Dict Text Text
environment i =
    let base : Dict Text Text = (kernel_id_env, i.kernel_id) ∷ (kernel_name_env, i.name) ∷ [] in
    elim i.control_url [ none ↦ base | some url ↦ put base control_url_env url ]

-- `x or None`.
abbrev pub filled : Option Text → Option Text
filled none = none
filled (some []) = none
filled (some (c ∷ t)) = some (c ∷ t)

-- from_environ
unfoldable pub from_environ : Dict Text Text → Option KernelIdentity
from_environ values = elim (filled (get values kernel_id_env)) [
  | none ↦ none
  | some id ↦ some (record {
    kernel_id = id;
    name = or_else (get values kernel_name_env) [];
    control_url = filled (get values control_url_env);
  })
]

abbrev wildcard_hosts : List Text
wildcard_hosts = [] ∷ codes "0.0.0.0" ∷ codes "::" ∷ codes "[::]" ∷ []

abbrev opens_bracket : Text → Bool
opens_bracket [] = false
opens_bracket (c ∷ t) = c == b'['

-- The host of loopback_control_url.
unfoldable pub loopback_host : Text → Text
loopback_host host =
    if any (text_eq host) wildcard_hosts
    then codes "127.0.0.1"
    else if any (λ c. c == b':') host && not (opens_bracket host)
    then b'[' ∷ (host ++ b']' ∷ [])
    else host

-- loopback_control_url
abbrev pub loopback_control_url : Text → ℕ → Text
loopback_control_url host port = codes "http://" ++ loopback_host host ++ codes ":" ++ decimal port

-- _REMOVED_ENVIRONMENT_VARIABLES
abbrev pub removed_environment_variables : List Text
removed_environment_variables =
    codes "IPYTHONDIR"
    ∷ codes "JUPYTER_CONFIG_DIR"
    ∷ codes "CLICOLOR"
    ∷ codes "CLICOLOR_FORCE"
    ∷ codes "FORCE_COLOR"
    ∷ kernel_id_env
    ∷ kernel_name_env
    ∷ control_url_env
    ∷ []

-- _CONTROLLED_ENVIRONMENT
abbrev pub controlled_environment : Dict Text Text
controlled_environment =
    (codes "NO_COLOR", codes "1")
    ∷ (codes "PY_COLORS", codes "0")
    ∷ (codes "PYTHONUNBUFFERED", codes "1")
    ∷ []

unfoldable pub remove_all : Dict Text Text → List Text → Dict Text Text
remove_all d [] = d
remove_all d (k ∷ ks) = remove_all (remove d k) ks

-- d.update(other)
unfoldable pub update_all : Dict Text Text → Dict Text Text → Dict Text Text
update_all d [] = d
update_all d ((k, v) ∷ other) = update_all (put d k v) other

-- The environment of KernelLaunch.create, from that of the daemon.
unfoldable pub launch_environment :
    Dict Text Text
    → Option KernelIdentity
    → (ipython_dir jupyter_config_dir : Text) → Dict Text Text
launch_environment environ identity ipython_dir jupyter_config_dir =
    let controlled =
      update_all (remove_all environ removed_environment_variables) controlled_environment in
    let told : Dict Text Text = elim identity [
      | none ↦ controlled
      | some i ↦ update_all controlled (environment i)
    ] in
    put (put told (codes "IPYTHONDIR") ipython_dir) (codes "JUPYTER_CONFIG_DIR") jupyter_config_dir
