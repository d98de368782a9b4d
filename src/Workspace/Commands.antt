-- ===== src/Workspace/Commands.antt =====
-- tactus-runtime/src/workspace.rs: the commands of the registries, and what the tests of them say.
use agenstro.Common.{
  ℕ, ◌+◌, ltb, Bool, true, false, not, ◌||◌, Option, none, some, is_some, Result, ok, err, ok_or,
  map_err, List, [], ◌∷◌, if◌then◌else◌, arith, ◌<◌, ◌≡◌, refl, subst₂, ◌⊎◌, inl, inr, >>=-eq-ok,
  fail_if-eq-ok,
}
use agenstro.Common.Text.{Text, text_eq→eq, is_empty}
use agenstro.Workspace.{
  Map, find, ProviderDefinition, EffectDefinition, PluginDefinition, ResolvedPlugin, plugin,
  provider, effect, WorkspaceError, has_no_program, validate_command, count, or_else, option_map,
  validate_commands, commands_of,
}

pub command-ok :
    (namespace name : Text) (c : List Text)
    → validate_command namespace name c ≡ ok tt
    → (is_empty name ≡ false) × (has_no_program c ≡ false)
command-ok namespace name c h =
    let e = fail_if-eq-ok (is_empty name || has_no_program c) _ _ h in (ground arith, ground arith)

pub map_err-eq-ok :
    {E F A : Type 0} (f : E → F) (r : Result E A) (a : A) → map_err f r ≡ ok a → r ≡ ok a
map_err-eq-ok f (ok b) a h = cc
map_err-eq-ok f (err e) a h = cc

pub not-false : (b : Bool) → not b ≡ false → b ≡ true
not-false true h = refl
not-false false h = cc

pub some-injective : {A : Type 0} {x y : A} → some x ≡ some y → x ≡ y
some-injective h = cc

pub ok_or-eq-ok :
    {A : Type 0} (o : Option A) (e : WorkspaceError) (x : A) → ok_or o e ≡ ok x → o ≡ some x
ok_or-eq-ok none e x h = cc
ok_or-eq-ok (some y) e x h = cc

pub or_else-cases :
    {N : Type 0} (o q : Option (ResolvedPlugin N)) (p : ResolvedPlugin N)
    → or_else o q ≡ some p
    → (o ≡ some p) ⊎ (q ≡ some p)
or_else-cases none q p h = inr h
or_else-cases (some x) q p h = inl h

pub unless_many :
    {A : Type 0} (b : Bool) (e : WorkspaceError) (r : Result WorkspaceError A) (x : A)
    → (if b then err e else r) ≡ ok x
    → (b ≡ false) × (r ≡ ok x)
unless_many true e r x h = cc
unless_many false e r x h = (refl, h)

pub one : (n : ℕ) → ltb 1 n ≡ false → 0 < n → n ≡ 1
one n h k = ground arith

pub matched :
    {N : Type 0} (o : Option (PluginDefinition N)) (q : Option (ProviderDefinition N))
    (r : Option (EffectDefinition N)) (p : ResolvedPlugin N)
    → or_else (option_map plugin o) (or_else (option_map provider q) (option_map effect r)) ≡ some p
    → 0 < count (is_some o) + count (is_some q) + count (is_some r)
matched (some d) q r p h = omega arith
matched none (some d) r p h = omega arith
matched none none (some d) p h = omega arith
matched none none none p h = cc

pub find-cons :
    {A : Type 0} (key name : Text) (x y : A) (more : Map A)
    → find name ((key, x) ∷ more) ≡ some y
    → ((key ≡ name) × (x ≡ y)) ⊎ (find name more ≡ some y)
find-cons key name x y more h = let e = text_eq→eq key name in ground (arith, e)

abbrev pub IsCommand : Text → List Text → Type 0
IsCommand name c = (is_empty name ≡ false) × (has_no_program c ≡ false)

pub commands-ok :
    {A : Type 0} (namespace : Text) (f : A → List Text) (m : Map A) (name : Text) (x : A)
    → validate_commands namespace (commands_of f m) ≡ ok tt
    → find name m ≡ some x
    → IsCommand name (f x)
commands-ok {A} namespace f [] name x h k = cc
commands-ok {A} namespace f ((key, y) ∷ more) name x h k =
    let first = >>=-eq-ok (validate_command namespace key (f y)) _ h in
    elim (find-cons key name y x more k) [
      | inl (e, d) ↦
          subst₂ (λ (n : Text) (z : A). IsCommand n (f z)) e d
            (command-ok namespace key (f y) first.1)
      | inr e ↦ commands-ok namespace f more name x first.2 e
    ]
