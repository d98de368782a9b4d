-- ===== src/Workspace.antt =====
-- tactus-runtime/src/workspace.rs: the configuration of a workspace, its validation, and the resolution
-- of a plugin's name. A `BTreeMap` is its list of entries, and a path is its text. The prompts' paths
-- and the discovery of the workspace are left out. An error's constructor stands for its message.
pub mod Commands
pub mod Resolution
mod Examples
use agenstro.Common.{
  ℕ, ◌+◌, ltb, Bool, true, false, not, ◌||◌, Option, none, some, is_some, is_none_or, Result, ok,
  err, ◌>>=◌, ◌>>◌, fail_if, ok_or, map_err, List, [], ◌∷◌, if◌then◌else◌,
}
use agenstro.Common.Text.{Text, lit, text_eq, is_empty}
use agenstro.Json.{Fields}
use agenstro.Limits.{RuntimeLimits, LimitsError, validate}
use agenstro.Limits.Options.{OptionsError, Numbers, validate_provider_options}
use agenstro.Daemon.{DaemonConfig, ConfigError, validate_config}

abbrev pub runtime_api : Text
runtime_api = lit "clef.runtime/v1"

abbrev pub Map : Type 0 → Type 0
Map A = List (Text × A)

abbrev pub find : {A : Type 0} → Text → Map A → Option A
find name [] = none
find name ((key, a) ∷ more) = if text_eq key name then some a else find name more

abbrev pub contains : {A : Type 0} → Text → Map A → Bool
contains name entries = is_some (find name entries)

module _ (N : Type 0) where
  pub record ProviderDefinition : Type 0 where
    pub command : List Text
    pub model : Option Text
    pub effort : Option Text
    pub options : Fields N

  pub record EffectDefinition : Type 0 where
    pub command : List Text
    pub options : Fields N
    pub observe_invocations : Bool

  pub record PluginDefinition : Type 0 where
    pub command : List Text
    pub options : Fields N

  pub record RuntimeConfig : Type 0 where
    pub api : Text
    pub default_provider : Text
    pub instructions : Text
    pub runtime_instructions : Option Text
    pub limits : RuntimeLimits
    pub daemon : DaemonConfig
    pub providers : Map ProviderDefinition
    pub effects : Map EffectDefinition
    pub plugins : Map PluginDefinition

  pub data ResolvedPlugin : Type 0 where
    plugin : PluginDefinition → ResolvedPlugin
    provider : ProviderDefinition → ResolvedPlugin
    effect : EffectDefinition → ResolvedPlugin

pub data PluginNamespace : Type 0 where
  auto_namespace plugin_namespace provider_namespace effect_namespace : PluginNamespace

pub data WorkspaceError : Type 0 where
  wrong_api default_not_registered daemon_provider_not_registered : WorkspaceError
  wrong_limits : LimitsError → WorkspaceError
  wrong_daemon : ConfigError → WorkspaceError
  empty_command : Text → Text → WorkspaceError
  wrong_options : Text → OptionsError → WorkspaceError
  ambiguous_plugin unknown_plugin : Text → WorkspaceError

-- `command.first().is_none_or(String::is_empty)`.
abbrev pub has_no_program : List Text → Bool
has_no_program [] = true
has_no_program (program ∷ arguments) = is_empty program

abbrev pub validate_command : Text → Text → List Text → Result WorkspaceError (Unit {0})
validate_command namespace name command =
    fail_if (is_empty name || has_no_program command) (empty_command namespace name)

abbrev pub validate_commands : Text → Map (List Text) → Result WorkspaceError (Unit {0})
validate_commands namespace [] = ok tt
validate_commands namespace ((name, command) ∷ more) = do
  validate_command namespace name command
  validate_commands namespace more

abbrev pub commands_of : {A : Type 0} → (A → List Text) → Map A → Map (List Text)
commands_of f [] = []
commands_of f ((name, p) ∷ more) = (name, f p) ∷ commands_of f more

abbrev pub count : Bool → ℕ
count true = 1
count false = 0

module _ {N : Type 0} where
  abbrev pub command : ResolvedPlugin N → List Text
  command (plugin value) = value.command
  command (provider value) = value.command
  command (effect value) = value.command

  -- The registries that hold the name.
  abbrev pub matches : RuntimeConfig N → Text → ℕ
  matches c name =
      count (contains name c.plugins)
      + count (contains name c.providers)
      + count (contains name c.effects)

  abbrev pub or_else :
      Option (ResolvedPlugin N) → Option (ResolvedPlugin N) → Option (ResolvedPlugin N)
  or_else none q = q
  or_else (some p) q = some p

  abbrev pub option_map :
      {A : Type 0} → (A → ResolvedPlugin N) → Option A → Option (ResolvedPlugin N)
  option_map f none = none
  option_map f (some a) = some (f a)

  abbrev pub first_match : RuntimeConfig N → Text → Option (ResolvedPlugin N)
  first_match c name = or_else (option_map plugin (find name c.plugins)) (
      or_else (option_map provider (find name c.providers))
        (option_map effect (find name c.effects)))

  unfoldable pub resolve_plugin :
      RuntimeConfig N → Text → PluginNamespace → Result WorkspaceError (ResolvedPlugin N)
  resolve_plugin c name plugin_namespace =
      ok_or (option_map plugin (find name c.plugins)) (unknown_plugin name)
  resolve_plugin c name provider_namespace =
      ok_or (option_map provider (find name c.providers)) (unknown_plugin name)
  resolve_plugin c name effect_namespace =
      ok_or (option_map effect (find name c.effects)) (unknown_plugin name)
  resolve_plugin c name auto_namespace =
      if ltb 1 (matches c name)
      then err (ambiguous_plugin name)
      else ok_or (first_match c name) (unknown_plugin name)

  module _ {F : Type 0} (a : Numbers N F) where
    abbrev pub validate_providers :
        RuntimeLimits → Map (ProviderDefinition N) → Result WorkspaceError (Unit {0})
    validate_providers l [] = ok tt
    validate_providers l ((name, p) ∷ more) = do
      validate_command (lit "providers") name p.command
      map_err (wrong_options name)
          (validate_provider_options a l p.options l.provider_timeout_seconds)
      validate_providers l more

    unfoldable pub validate_runtime : RuntimeConfig N → Result WorkspaceError (Unit {0})
    unfolding validate validate_config validate_provider_options
    validate_runtime c = do
      fail_if (not (text_eq c.api runtime_api)) wrong_api
      fail_if (not (contains c.default_provider c.providers)) default_not_registered
      map_err wrong_limits (validate c.limits)
      map_err wrong_daemon (validate_config c.daemon)
      fail_if (not (is_none_or (λ p. contains p c.providers) c.daemon.provider))
          daemon_provider_not_registered
      validate_providers c.limits c.providers
      validate_commands (lit "effects") (commands_of (λ e. e.command) c.effects)
      validate_commands (lit "plugins") (commands_of (λ p. p.command) c.plugins)
