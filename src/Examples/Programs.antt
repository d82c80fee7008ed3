-- ===== src/Examples/Programs.antt =====
-- Tests of what programs and configurations say.
use loommux.Header.{CellHeader, remove_own_header}
use loommux.Header.Agreement.{remove_own_header-again}
use loommux.Client.{selected_path, execution_of_path}
use loommux.Client.Paths.{execution_of_path-selected_path}
use loommux.Connections.Presence.{
  Scope, AsgiMessage, response_start, other_asgi_message, presence_reports, presence_reports_lem,
  stream_session, opened, closed, opens_event_stream,
}
use loommux.Configuration.Identity.{KernelIdentity, from_environ, launch_environment, kernel_id_env}
use loommux.Configuration.Identity.Environment.{IsTellable, from_environ-launch_environment}
use loommux.Prelude.{
  text_is_eq, ◌||◌, ℕ, text_eq, ◌⊎◌, if◌then◌else◌, ◌∷◌, Option, ◌≡◌, Text, List, arith, codes, [],
  false, true, refl, some, none,
}
use loommux.Prelude.Lists.{drop, any}
use loommux.Configuration.Files.{
  is_setting_name, function_value, resolver_name, setting_value, is_read, ModuleValue,
  LoommuxConfig, config_of,
}
use loommux.Control.{
  call_of, recovered, session_call, beyond_recovery, json_text, json_number, json_object, Body,
}
use loommux.Prelude.Int.{float_le, isfinite, pos, finite, Float}
use loommux.Prelude.Dict.{keys, retain, remove, Distinct, get, Dict}
use loommux.Policy.Generations.{init-IsPublished, IsPublished}
use loommux.Control.Registry.{calls, renames, handle, Request}
use loommux.Policy.{
  policy_of, init, LeasePolicyManager, generation, LeasePolicy, connection, activity,
}
use loommux.Control.Policies.{update_policy-IsPublished, update_policy}
use loommux.Examples.Leases.{init-published, minutes, published}
use loommux.Configuration.Settings.{positive_seconds, from_values, number}
use loommux.Examples.Data.{lab}
use loommux.Prelude.Result.{ok}
use loommux.Configuration.Files.Loaded.{config_of-known}
use loommux.Prelude.Strings.{starts_with}

-- The parser of the arguments, where there are none.
abbrev parse : Text → Option CellHeader
parse t = some (record {
  wait_seconds = 10;
  full_output = false;
  kernel = none;
  attach = none;
  create = false;
  silence_seconds = 10;
})

abbrev cell_lines : List Text
cell_lines = codes "x = 1" ∷ codes "x" ∷ []

remove_own_header-again_example :
    (remove_own_header parse [] (remove_own_header parse [] (codes "%%loommux" ∷ cell_lines))
      ≡ remove_own_header parse [] (codes "%%loommux" ∷ cell_lines))
    × ((remove_own_header parse [] (codes "%%loommux" ∷ cell_lines)
          ≡ codes "%%loommux" ∷ cell_lines)
        ⊎ ((drop 1 (remove_own_header parse [] (codes "%%loommux" ∷ cell_lines)) ≡ cell_lines)
            ⊎ (remove_own_header parse [] (codes "%%loommux" ∷ cell_lines) ≡ cell_lines)))
remove_own_header-again_example = remove_own_header-again parse [] (codes "%%loommux") cell_lines

execution_of_path-selected_path_example :
    execution_of_path (selected_path (some 42)) ≡ some (some 42)
execution_of_path-selected_path_example = execution_of_path-selected_path (some 42)

abbrev exchange : Scope
exchange = record {
  is_http_get = true;
  headers = (codes "mcp-session-id", codes "s1") ∷ [];
  client = none;
}

abbrev answer : List AsgiMessage
answer =
    response_start 200 ((codes "content-type", codes "text/event-stream; charset=utf-8") ∷ [])
    ∷ other_asgi_message
    ∷ []

presence_reports_lem_example : presence_reports exchange answer ≡ elim (stream_session exchange) [
  | none ↦ []
  | some session ↦
      if any opens_event_stream answer then opened session none ∷ closed session none ∷ [] else []
]
presence_reports_lem_example = presence_reports_lem exchange answer

abbrev child : KernelIdentity
child = record {
  kernel_id = codes "k2";
  name = codes "build";
  control_url = some (codes "http://h");
}

child-IsTellable : IsTellable child
child-IsTellable = record { has_id = refl; url_filled = λ url h. ground arith }

from_environ-launch_environment_example :
    (from_environ
        (launch_environment ((kernel_id_env, codes "k1") ∷ []) (some child) (codes "i") (codes "j"))
      ≡ some child)
    × (from_environ
          (launch_environment ((kernel_id_env, codes "k1") ∷ []) none (codes "i") (codes "j"))
        ≡ none)
from_environ-launch_environment_example =
    from_environ-launch_environment ((kernel_id_env, codes "k1") ∷ []) child (codes "i") (codes "j")
      child-IsTellable

-- A kernel that gets another name.
abbrev new_name : Request
new_name = renames (codes "a1") (json_object ((codes "name", json_text (codes "desk")) ∷ []))

-- A call of a kernel that cannot be started again.
abbrev lost_call : Request
lost_call = calls (codes "a1") beyond_recovery (record { is_ok = true; is_execution_state = false })

lost : (handle (λ m. m) (λ c. true) lab lost_call).0.code ≡ 409
unfolding handle session_call get text_eq recovered call_of
lost = refl

published-IsPublished : IsPublished published
published-IsPublished = (init-IsPublished connection minutes published init-published).0

abbrev faster : Body
faster = json_object ((codes "heartbeat_interval_seconds", json_number (finite (pos 5))) ∷ [])

abbrev to_float : Text → Option Float
to_float t = none

update_policy-IsPublished_example :
    IsPublished (update_policy to_float published faster).1
    × ((g : ℕ) (q : LeasePolicy)
        → generation published g ≡ some q
        → generation (update_policy to_float published faster).1 g ≡ some q)
    × (((update_policy to_float published faster).1 ≡ published)
        ⊎ (((update_policy to_float published faster).0.changed ≡ some true)
            × ((update_policy to_float published faster).1.policy.generation ≡ 2)))
update_policy-IsPublished_example =
    update_policy-IsPublished to_float published faster published-IsPublished

abbrev module_names : Dict Text ModuleValue
module_names =
    (codes "sweep_interval_seconds", setting_value (number (finite (pos 7))))
    ∷ (codes "resolve_workspace", function_value)
    ∷ []

module_names-Distinct : Distinct module_names
unfolding get text_eq
module_names-Distinct = (refl, (refl, tt))

abbrev config : LoommuxConfig
config = record {
  settings = record {
    lease_mode = activity;
    durations = record {
      private_activity_timeout = finite (pos 4800);
      named_activity_timeout = finite (pos 86400);
      heartbeat_interval = finite (pos 15);
      heartbeat_timeout = finite (pos 60);
      connection_grace = finite (pos 60);
    };
    sweep_interval = finite (pos 7);
    orphan_grace = finite (pos 30);
  };
  has_resolver = true;
  has_startup_directory = false;
}

config-loads : config_of 1 module_names false ≡ ok config
unfolding config_of get text_eq remove retain is_read keys from_values positive_seconds isfinite
    float_le starts_with
config-loads = refl

config_of-known_example :
    ((name : Text) (v : ModuleValue)
      → get module_names name ≡ some v
      → is_read name v ≡ true
      → (text_eq resolver_name name || is_setting_name name) ≡ true)
    × (m : LeasePolicyManager) × (init activity config.settings.durations ≡ ok m)
    × (m.policy ≡ policy_of activity 1 config.settings.durations)
config_of-known_example =
    config_of-known 1 module_names false config module_names-Distinct config-loads
