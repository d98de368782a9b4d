-- ===== src/Workspace/Examples.antt =====
-- A configuration with one provider, and the resolution of its name.
use agenstro.Common.{ℕ, ◌+◌, ltb, leb, ◌≡◌, refl, true, none, some, ok, err, [], ◌∷◌}
use agenstro.Common.Text.{lit, text_eq}
use agenstro.Json.{number, field, end, get}
use agenstro.Limits.{
  default_limits, validate, validate_timeouts, validate_deadlines, validate_plugin, validate_native,
}
use agenstro.Limits.Options.{Numbers, provider_usize_option, validate_provider_options}
use agenstro.Daemon.{default_config, validate_config}
use agenstro.Workspace.{
  runtime_api, ProviderDefinition, RuntimeConfig, provider, auto_namespace, provider_namespace,
  resolve_plugin, validate_runtime, ambiguous_plugin,
}
use agenstro.Workspace.Resolution.{IsRunnable, IsSole, validate-IsRunnable}

abbrev naturals : Numbers ℕ ℕ
naturals = record {
  as_u64 = λ n. some n;
  as_f64 = λ n. some n;
  of_nat = λ n. n;
  is_finite = λ n. true;
  plus = λ m n. m + n;
  less = ltb;
  less_equal = leb;
}

abbrev codex : ProviderDefinition ℕ
codex = record {
  command = lit "codex" ∷ [];
  model = none;
  effort = none;
  options = field (lit "native_output_queue_bound") (number 4) end;
}

abbrev config : RuntimeConfig ℕ
config = record {
  api = runtime_api;
  default_provider = lit "codex";
  instructions = lit "prompt.md";
  runtime_instructions = none;
  limits = default_limits;
  daemon = default_config;
  providers = (lit "codex", codex) ∷ [];
  effects = [];
  plugins = [];
}

config_valid : validate_runtime naturals config ≡ ok tt
unfolding validate_runtime validate validate_timeouts validate_deadlines validate_plugin
    validate_native default_limits validate_config validate_provider_options provider_usize_option
    get text_eq
config_valid = refl

codex_resolves : resolve_plugin config (lit "codex") auto_namespace ≡ ok (provider codex)
unfolding resolve_plugin text_eq
codex_resolves = refl

-- A name that two registries hold is not resolved automatically.
codex_twice :
    resolve_plugin
      (record config {
        plugins = (lit "codex", record { command = lit "other" ∷ []; options = end }) ∷ [];
      })
      (lit "codex")
      auto_namespace
    ≡ err (ambiguous_plugin (lit "codex"))
unfolding resolve_plugin text_eq
codex_twice = refl

validate-IsRunnable_example :
    ((d : ProviderDefinition ℕ) × (resolve_plugin config (lit "codex") provider_namespace
        ≡ ok (provider d)))
    × IsRunnable naturals config (lit "codex") (provider codex)
    × IsSole naturals config (lit "codex") auto_namespace
validate-IsRunnable_example =
    validate-IsRunnable naturals config (lit "codex") auto_namespace (provider codex) config_valid
      codex_resolves
