-- ===== src/Configuration/Files.antt =====
-- config.py and workspace_resolver.py: the directory that configures a daemon, and its workspace. What
-- the file system says of a path, and the names that running `config.py` binds, are arguments.
pub mod Loaded
use loommux.Configuration.Settings.{
  Setting, ResourceServerSettings, SettingError, from_values, other_value,
}
use loommux.Prelude.{
  text_is_eq, not, map, text_eq, ◌++◌, codes, if◌then◌else◌, ◌∷◌, ℕ, Bool, List, Text, Option, [],
  false, true, some, none,
}
use loommux.Prelude.Dict.{keys, get, remove, retain, Dict}
use loommux.Prelude.Result.{or_raise, ok, guard, ◌>>◌, ◌>>=◌, err, Result}
use loommux.Prelude.Lists.{any, first}
use loommux.Prelude.Strings.{starts_with}

-- A value that a module-level name is bound to.
pub data ModuleValue : Type 0 where
  setting_value : Setting → ModuleValue
  none_value module_or_feature class_value function_value : ModuleValue

pub data ConfigError : Type 0 where
  config_not_found config_not_directory config_load_failed config_unknown_setting : ConfigError
  invalid_resolver : ConfigError
  config_invalid_setting : SettingError → ConfigError

pub record LoommuxConfig : Type 0 where
  pub settings : ResourceServerSettings
  pub has_resolver : Bool
  pub has_startup_directory : Bool

-- find_config: the nearest directory that has a `.loommux`, of the start and those above it.
abbrev pub find_config : (Text → Bool) → List Text → Option Text
find_config is_dir directories = first is_dir (map (λ d. d ++ codes "/.loommux") directories)

-- RESOLVER_NAME
abbrev pub resolver_name : Text
resolver_name = codes "resolve_workspace"

-- SETTING_NAMES
abbrev pub setting_names : List Text
setting_names =
    codes "lease_mode"
    ∷ codes "private_activity_timeout_seconds"
    ∷ codes "named_activity_timeout_seconds"
    ∷ codes "heartbeat_interval_seconds"
    ∷ codes "heartbeat_timeout_seconds"
    ∷ codes "connection_grace_seconds"
    ∷ codes "sweep_interval_seconds"
    ∷ codes "orphan_grace_seconds"
    ∷ []

abbrev is_own : ModuleValue → Bool
is_own (setting_value v) = false
is_own none_value = false
is_own _ = true

-- _is_read
unfoldable pub is_read : Text → ModuleValue → Bool
is_read name value =
    if starts_with (codes "_") name
    then false
    else if text_eq name resolver_name
    then true
    else not (is_own value)

-- `resolver is not None and not callable(resolver)`, for the name that is popped.
bad_resolver : Option ModuleValue → Bool
bad_resolver (some (setting_value v)) = true
bad_resolver (some module_or_feature) = true
bad_resolver _ = false

-- The values that `from_values` gets.
abbrev as_setting : ModuleValue → Setting
as_setting (setting_value v) = v
as_setting _ = other_value

abbrev pub is_setting_name : Text → Bool
is_setting_name name = any (text_eq name) setting_names

unfoldable pub as_settings : Dict Text ModuleValue → Dict Text Setting
as_settings [] = []
as_settings ((name, v) ∷ d) = (name, as_setting v) ∷ as_settings d

checked_settings : ℕ → Dict Text ModuleValue → Result ConfigError ResourceServerSettings
checked_settings second names = elim (from_values second names') [
  | err e ↦ err (config_invalid_setting e)
  | ok s ↦ ok s
]
  where
    names' : Dict Text Setting
    names' = as_settings names

abbrev is_resolved : Option ModuleValue → Bool
is_resolved (some function_value) = true
is_resolved (some class_value) = true
is_resolved _ = false

-- What load_config makes of the names that a module binds, and of `startup`.
unfoldable pub config_of : ℕ → Dict Text ModuleValue → Bool → Result ConfigError LoommuxConfig
unfolding bad_resolver checked_settings as_settings
config_of second module_names has_startup =
    let read = retain is_read module_names in
    let names = remove read resolver_name in
    do
      guard (not (bad_resolver (get read resolver_name))) invalid_resolver
      guard (not (any (λ name. not (is_setting_name name)) (keys names))) config_unknown_setting
      settings ← checked_settings second names
      ok (record {
        settings = settings;
        has_resolver = is_resolved (get read resolver_name);
        has_startup_directory = has_startup;
      })

-- load_config: `none` is a `config.py` that raises, and one that is not there binds no name.
unfoldable pub load_config :
    ℕ
    → (exists is_directory has_file : Bool) → Option (Dict Text ModuleValue)
    → Bool
    → Result ConfigError LoommuxConfig
load_config second exists is_directory has_file module_names has_startup = do
  guard exists config_not_found
  guard is_directory config_not_directory
  names ← if has_file then or_raise module_names config_load_failed else ok []
  config_of second names has_startup

pub data WorkspaceConfigError : Type 0 where
  resolver_failed invalid_return workspace_not_found workspace_not_directory : WorkspaceConfigError

-- What calling a resolver brings.
pub data Called : Type 0 where
  raises returns_other : Called
  returns_path : Text → Called

module _ (exists is_dir is_absolute : Text → Bool) (resolved : Text → Text) where
  -- _validate_workspace
  validate_workspace : Text → Result WorkspaceConfigError Text
  validate_workspace path = do
    guard (exists path) workspace_not_found
    guard (is_dir path) workspace_not_directory
    ok path

  -- _resolve_path
  resolve_path : Text → Text → Text
  resolve_path value cwd = resolved (if is_absolute value then value else cwd ++ codes "/" ++ value)

  -- resolve_workspace_launch: the workspace, and whether the configuration chose it.
  abbrev pub resolve_workspace_launch :
      Text → Option Called → Result WorkspaceConfigError (Text × Bool)
  unfolding validate_workspace resolve_path
  resolve_workspace_launch cwd none = do path ← validate_workspace cwd; ok (path, false)
  resolve_workspace_launch cwd (some raises) = err resolver_failed
  resolve_workspace_launch cwd (some returns_other) = err invalid_return
  resolve_workspace_launch cwd (some (returns_path value)) = do
    path ← validate_workspace (resolve_path value cwd)
    ok (path, true)
