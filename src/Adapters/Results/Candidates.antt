-- ===== src/Adapters/Results/Candidates.antt =====
-- A description of a provider's result that has no bound: the last final text, or else all fragments.
mod Additions
mod Agreement
pub mod Reference
use agenstro.Common.{
  ℕ, suc, ◌+◌, ◌≤◌, ◌<◌, min, ◌≡◌, refl, sym, ap, ap₂, subst, ◌∙◌, ◌⊎◌, inl, inr, Bool, true, false,
  ◌&&◌, ◌||◌, not, Option, none, some, is_some, Result, ok, err, map_err, List, [], ◌∷◌, ◌++◌,
  append_assoc, append-nil, length-append, ltb, lt→ltb, ◌==◌, length, arith, Bool-cases,
  if◌then◌else◌,
}
use agenstro.Common.Text.{Text, lit}
use agenstro.Adapters.{Provider, codex, claude_code, open_code, antigravity, AdapterError}
use agenstro.Adapters.Results.{
  ProviderResultKind, plain, fragments, final, ProviderResultOverflow, is_plain, is_fragments,
  is_final, ProviderResultAccumulator, usize_max, new_result, append, reset, append_fragments,
  start_fragments, observe_fragments, observe_final, observe_reported_failure, finish, finish_with,
  authoritative_kind, has_authoritative_result, finish_provider_result, recognized,
  finalize_provider_result,
}

-- What a line of native output adds.
pub data Observation : Type 0 where
  fragments_of : List Text → Observation
  final_of : Text → Observation
  failure_of : Observation

abbrev pub observe : Observation → ProviderResultAccumulator → ProviderResultAccumulator
observe (fragments_of ts) r = observe_fragments ts r
observe (final_of t) r = observe_final t r
observe failure_of r = observe_reported_failure r

abbrev pub observe_all : List Observation → ProviderResultAccumulator → ProviderResultAccumulator
observe_all [] r = r
observe_all (o ∷ os) r = observe_all os (observe o r)

abbrev pub concat : List Text → Text
concat [] = []
concat (t ∷ ts) = t ++ concat ts

-- The description: the kind and the text of the candidate.
pub record Candidate : Type 0 where
  pub kind : ProviderResultKind
  pub text : Text

abbrev pub add_fragments : List Text → Candidate → Candidate
add_fragments [] c = c
add_fragments (t ∷ ts) c =
    if is_final c.kind then c else record { kind = fragments; text = c.text ++ concat (t ∷ ts) }

abbrev pub follow : Observation → Candidate → Candidate
follow (fragments_of ts) c = add_fragments ts c
follow (final_of t) c = record { kind = final; text = t }
follow failure_of c = c

abbrev pub follow_all : List Observation → Candidate → Candidate
follow_all [] c = c
follow_all (o ∷ os) c = follow_all os (follow o c)

abbrev pub candidate : List Observation → Candidate
candidate os = follow_all os (record { kind = plain; text = [] })

abbrev pub has_failure : List Observation → Bool
has_failure [] = false
has_failure (failure_of ∷ os) = true
has_failure (fragments_of ts ∷ os) = has_failure os
has_failure (final_of t ∷ os) = has_failure os

-- What the result should be: the text of the candidate, and whether it is the provider's own.
abbrev pub reference : ℕ → Provider → List Observation → Result Text (Text × Bool × Bool)
reference m p os =
    let whole : Text × Bool × Bool =
      ((candidate os).text, authoritative_kind p (candidate os).kind, false) in
    if has_failure os
    then ok ([], true, true)
    else if ltb m (length (candidate os).text)
    then err (lit "outcome_unknown")
    else ok whole
