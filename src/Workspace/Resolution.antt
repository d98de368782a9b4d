-- ===== src/Workspace/Resolution.antt =====
-- tactus-runtime/src/workspace.rs: what a validated configuration resolves a plugin's name to.
use agenstro.Common.{
  ltb, true, not, Option, none, some, is_some, is_none_or, ok, fail_if, map_err, [], ◌∷◌, ◌≡◌, refl,
  subst, subst₂, inl, inr, >>=-eq-ok, fail_if-eq-ok,
}
use agenstro.Common.Text.{Text, lit, text_eq}
use agenstro.Limits.{RuntimeLimits, validate}
use agenstro.Limits.Options.{
  Numbers, OptionsFit, validate_provider_options, validate_provider_options-OptionsFit,
}
use agenstro.Daemon.{validate_config}
use agenstro.Workspace.{
  runtime_api, Map, find, contains, ProviderDefinition, EffectDefinition, PluginDefinition,
  RuntimeConfig, ResolvedPlugin, plugin, provider, effect, PluginNamespace, auto_namespace,
  plugin_namespace, provider_namespace, effect_namespace, wrong_options, validate_command, command,
  matches, first_match, option_map, default_not_registered, wrong_limits, wrong_daemon,
  daemon_provider_not_registered, resolve_plugin, validate_providers, validate_commands,
  commands_of, validate_runtime,
}
use agenstro.Workspace.Commands.{
  command-ok, map_err-eq-ok, not-false, some-injective, ok_or-eq-ok, or_else-cases, unless_many,
  one, matched, find-cons, IsCommand, commands-ok,
}

module _ {N F : Type 0} (a : Numbers N F) where
  providers-ok :
      (l : RuntimeLimits) (m : Map (ProviderDefinition N)) (name : Text) (p : ProviderDefinition N)
      → validate_providers a l m ≡ ok tt
      → find name m ≡ some p
      → IsCommand name p.command × OptionsFit a l p.options
  providers-ok l [] name p h k = cc
  providers-ok l ((key, q) ∷ more) name p h k =
      let first = >>=-eq-ok (validate_command (lit "providers") key q.command) _ h in
      let second =
        >>=-eq-ok
          (map_err (wrong_options key)
            (validate_provider_options a l q.options l.provider_timeout_seconds))
          _ first.2 in
      elim (find-cons key name q p more k) [
        | inl (e, d) ↦
            subst₂
              (λ (n : Text) (z : ProviderDefinition N).
                IsCommand n z.command × OptionsFit a l z.options)
              e d
              (
                command-ok (lit "providers") key q.command first.1,
                validate_provider_options-OptionsFit a l q.options l.provider_timeout_seconds (
                    map_err-eq-ok (wrong_options key)
                      (validate_provider_options a l q.options l.provider_timeout_seconds) tt
                      second.1),
              )
        | inr e ↦ providers-ok l more name p second.2 e
      ]

  abbrev pub Fits : RuntimeConfig N → ResolvedPlugin N → Type 0
  Fits c (provider d) = OptionsFit a c.limits d.options
  Fits c (plugin d) = Unit
  Fits c (effect d) = Unit

  -- What a call of a resolved plugin relies on.
  pub record IsRunnable (c : RuntimeConfig N) (name : Text) (p : ResolvedPlugin N) : Type 0 where
    pub is_command : IsCommand name (command p)
    pub fits : Fits c p

  record IsChecked (c : RuntimeConfig N) : Type 0 where
    default : contains c.default_provider c.providers ≡ true
    providers : validate_providers a c.limits c.providers ≡ ok tt
    effects : validate_commands (lit "effects") (commands_of (λ e. e.command) c.effects) ≡ ok tt
    plugins : validate_commands (lit "plugins") (commands_of (λ p. p.command) c.plugins) ≡ ok tt

  validate-IsChecked : (c : RuntimeConfig N) → validate_runtime a c ≡ ok tt → IsChecked c
  unfolding validate_runtime
  validate-IsChecked c h =
      let api = >>=-eq-ok (fail_if (not (text_eq c.api runtime_api)) _) _ h in
      let default =
        >>=-eq-ok (fail_if (not (contains c.default_provider c.providers)) default_not_registered) _
          api.2 in
      let limits = >>=-eq-ok (map_err wrong_limits (validate c.limits)) _ default.2 in
      let daemon = >>=-eq-ok (map_err wrong_daemon (validate_config c.daemon)) _ limits.2 in
      let daemon_provider =
        >>=-eq-ok
          (fail_if (not (is_none_or (λ p. contains p c.providers) c.daemon.provider))
            daemon_provider_not_registered)
          _ daemon.2 in
      let providers = >>=-eq-ok (validate_providers a c.limits c.providers) _ daemon_provider.2 in
      let effects =
        >>=-eq-ok (validate_commands (lit "effects") (commands_of (λ e. e.command) c.effects)) _
          providers.2 in
      record {
        default =
            not-false _
              (fail_if-eq-ok (not (contains c.default_provider c.providers)) _ _ default.1);
        providers = providers.1;
        effects = effects.1;
        plugins = effects.2;
      }

  by_plugin :
      (c : RuntimeConfig N) (name : Text) (p : ResolvedPlugin N) (o : Option (PluginDefinition N))
      → IsChecked c
      → find name c.plugins ≡ o
      → option_map plugin o ≡ some p
      → IsRunnable c name p
  by_plugin c name p none k f h = cc
  by_plugin c name p (some d) k f h = subst (IsRunnable c name) (some-injective h) (record {
    is_command = commands-ok _ (λ q. q.command) c.plugins name d k.plugins f;
    fits = tt;
  })

  by_effect :
      (c : RuntimeConfig N) (name : Text) (p : ResolvedPlugin N) (o : Option (EffectDefinition N))
      → IsChecked c
      → find name c.effects ≡ o
      → option_map effect o ≡ some p
      → IsRunnable c name p
  by_effect c name p none k f h = cc
  by_effect c name p (some d) k f h = subst (IsRunnable c name) (some-injective h) (record {
    is_command = commands-ok _ (λ q. q.command) c.effects name d k.effects f;
    fits = tt;
  })

  by_provider :
      (c : RuntimeConfig N) (name : Text) (p : ResolvedPlugin N) (o : Option (ProviderDefinition N))
      → IsChecked c
      → find name c.providers ≡ o
      → option_map provider o ≡ some p
      → IsRunnable c name p
  by_provider c name p none k f h = cc
  by_provider c name p (some d) k f h =
      let both = providers-ok c.limits c.providers name d k.providers f in
      subst (IsRunnable c name) (some-injective h) (record { is_command = both.0; fits = both.1 })

  by_match :
      (c : RuntimeConfig N) (name : Text) (p : ResolvedPlugin N)
      → IsChecked c
      → first_match c name ≡ some p
      → IsRunnable c name p
  by_match c name p k h = elim (or_else-cases (option_map plugin (find name c.plugins)) _ p h) [
    | inl e ↦ by_plugin c name p (find name c.plugins) k refl e
    | inr e ↦ elim (or_else-cases (option_map provider (find name c.providers)) _ p e) [
      | inl f ↦ by_provider c name p (find name c.providers) k refl f
      | inr f ↦ by_effect c name p (find name c.effects) k refl f
    ]
  ]

  -- An automatic resolution finds the name in one registry.
  abbrev pub IsSole : RuntimeConfig N → Text → PluginNamespace → Type 0
  IsSole c name auto_namespace = matches c name ≡ 1
  IsSole c name plugin_namespace = Unit
  IsSole c name provider_namespace = Unit
  IsSole c name effect_namespace = Unit

  resolve-IsRunnable :
      (c : RuntimeConfig N) (name : Text) (namespace : PluginNamespace) (p : ResolvedPlugin N)
      → IsChecked c
      → resolve_plugin c name namespace ≡ ok p
      → IsRunnable c name p × IsSole c name namespace
  unfolding resolve_plugin
  resolve-IsRunnable c name plugin_namespace p k h =
      (by_plugin c name p (find name c.plugins) k refl (ok_or-eq-ok _ _ p h), tt)
  resolve-IsRunnable c name provider_namespace p k h =
      (by_provider c name p (find name c.providers) k refl (ok_or-eq-ok _ _ p h), tt)
  resolve-IsRunnable c name effect_namespace p k h =
      (by_effect c name p (find name c.effects) k refl (ok_or-eq-ok _ _ p h), tt)
  resolve-IsRunnable c name auto_namespace p k h =
      let u = unless_many (ltb 1 (matches c name)) _ _ p h in
      let first = ok_or-eq-ok (first_match c name) _ p u.1 in
      let some_match =
        matched (find name c.plugins) (find name c.providers) (find name c.effects) p first in
      (by_match c name p k first, one (matches c name) u.0 some_match)

  default_resolves :
      (c : RuntimeConfig N) (o : Option (ProviderDefinition N))
      → find c.default_provider c.providers ≡ o
      → is_some o ≡ true
      → (d : ProviderDefinition N) × (resolve_plugin c c.default_provider provider_namespace
          ≡ ok (provider d))
  unfolding resolve_plugin
  default_resolves c none f h = cc
  default_resolves c (some d) f h = (d, rw f refl)

  -- In a configuration that passes its validation, the default provider resolves to a provider, and
  -- whatever a name resolves to in a namespace can be run: the name is not empty, the command names a
  -- program, and a provider's options leave room for the frame of its result and for its queue of
  -- lines. An automatic resolution succeeds only where exactly one registry holds the name.
  pub validate-IsRunnable :
      (c : RuntimeConfig N) (name : Text) (namespace : PluginNamespace) (p : ResolvedPlugin N)
      → validate_runtime a c ≡ ok tt
      → resolve_plugin c name namespace ≡ ok p
      → ((d : ProviderDefinition N) × (resolve_plugin c c.default_provider provider_namespace
            ≡ ok (provider d)))
        × IsRunnable c name p
        × IsSole c name namespace
  validate-IsRunnable c name namespace p v h =
      let k = validate-IsChecked c v in
      let r = resolve-IsRunnable c name namespace p k h in
      (default_resolves c (find c.default_provider c.providers) refl k.default, r.0, r.1)
