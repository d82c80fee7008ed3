-- ===== src/Client.antt =====
-- daemon.py: the client that a kernel holds, and the path parameter with which mcp/control.py reads
-- what it asks for. `str.isdecimal` is taken on ASCII digits.
pub mod Paths
use loommux.Configuration.Identity.{KernelIdentity, from_environ, control_url_env}
use loommux.Header.{CellHeader, Options, read_cell_header}
use loommux.Prelude.Decimal.{all_decimal, decimal, value}
use loommux.Prelude.{
  text_is_eq, not, leb, ◌&&◌, ◌==◌, text_eq, if◌then◌else◌, ◌∷◌, Bool, ◌*◌, codes, Text, ℕ, Option,
  [], false, true, some, none,
}
use loommux.Prelude.Dict.{get, Dict}

-- DEFAULT_CONTROL_URL
abbrev default_control_url : Text
default_control_url = codes "http://127.0.0.1:8801"

cut_slashes : Text → Text
cut_slashes [] = []
cut_slashes (c ∷ t) = elim (cut_slashes t) [
  | [] ↦ if c == b'/' then [] else c ∷ []
  | d ∷ u ↦ c ∷ d ∷ u
]

or_default : Option Text → Text
or_default none = default_control_url
or_default (some []) = default_control_url
or_default (some (c ∷ t)) = c ∷ t

-- Daemon.__init__: the origin that it talks to; a kernel of a stdio daemon has none.
unfoldable pub url_of : Option Text → Dict Text Text → Option Text
unfolding cut_slashes or_default
url_of (some url) environ = some (cut_slashes url)
url_of none environ = elim (from_environ environ) [
  | some i ↦ i.control_url
  | none ↦ some (or_default (get environ control_url_env))
]

-- Daemon._learn
unfoldable pub learn : Option KernelIdentity → (resource_id name : Text) → Option KernelIdentity
learn none resource_id name = none
learn (some i) resource_id name =
    if text_eq resource_id i.kernel_id && not (text_eq name i.name)
    then some (record i { name = name })
    else some i

-- _selected
unfoldable pub selected_path : Option ℕ → Text
selected_path none = codes "latest"
selected_path (some n) = decimal n

is_filled_text : Text → Bool
is_filled_text [] = false
is_filled_text (c ∷ t) = true

-- _execution of mcp/control.py: `none` is ValueError, and the inner `none` is `latest`.
unfoldable pub execution_of_path : Text → Option (Option ℕ)
unfolding all_decimal is_filled_text
execution_of_path t =
    if text_eq t (codes "latest")
    then some none
    else if is_filled_text t && all_decimal t
    then some (some (value 0 t))
    else none

-- _header_wait: how long the daemon may hold a submission.
unfoldable pub header_wait : Options → ℕ → Option Text → Option ℕ → ℕ
header_wait parse_args second line (some wait_seconds) = wait_seconds
header_wait parse_args second line none = elim (read_cell_header parse_args second line) [
  | some h ↦ h.wait_seconds
  | none ↦ 10 * second
]
