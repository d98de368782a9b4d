-- ===== src/Adapters/Observations/Examples.antt =====
-- Two calls of `observe.end` that commit at once, and one after an interruption.
use agenstro.Common.{ℕ, true, false, none, some, ok, List, [], ◌∷◌, ◌≡◌, refl, ◌==◌}
use agenstro.Common.Text.{lit, text_eq}
use agenstro.Protocol.{plugin_api}
use agenstro.Adapters.Snapshots.{WorkspaceSnapshot, snapshot_delta}
use agenstro.Adapters.Observations.{
  observation, EffectState, Effects, Request, Choice, World, starting, step, run, path_effect_name,
  load_observation_completion,
}
use agenstro.Adapters.Observations.Ownership.{IsOwn}
use agenstro.Adapters.Observations.Recovery.{HasReturned, turns, run-returns}

abbrev no_paths : WorkspaceSnapshot
no_paths = record { workspace = lit "/w"; paths = []; skipped_paths = [] }

abbrev state : EffectState ℕ
state = record {
  api = plugin_api;
  effect = path_effect_name;
  state_kind = observation;
  workspace = lit "/w";
  invocation = some 5;
  snapshot = no_paths;
}

-- The result is the outcome.
abbrev effects : Effects ℕ
effects = record {
  platform = record { windows = false; to_lowercase = λ t. t };
  same = λ a b. a == b;
  same_path = text_eq;
  to_value = λ invocation outcome d before after. outcome;
}

abbrev request : ℕ → Request ℕ
request outcome = record { workspace = lit "/w"; invocation = 5; outcome = outcome }

abbrev begun : World ℕ effects
begun = record {
  files = record { original = some (ok state); claimed = none; completed = none };
  stages = λ i. starting;
}

abbrev by_call : ℕ → Choice
by_call i = record { call = i; fault = false; capture = ok no_paths }

abbrev both : List Choice → List Choice
both more = by_call 0 ∷ (by_call 1 ∷ more)

abbrev race : List Choice
race = both (both (both (both (both (both (both (both (both []))))))))

-- The first call stops after it has linked its completion.
abbrev interrupted : List Choice
interrupted = by_call 0 ∷ (by_call 0 ∷ (by_call 0 ∷ (by_call 0 ∷ (by_call 0 ∷ (by_call 0 ∷ [])))))

begun-IsOwn : IsOwn ℕ effects (request 7) begun.files
unfolding text_eq
begun-IsOwn = (refl, refl, refl)

second_waits : (run ℕ effects (λ i. request 7) interrupted begun).stages 1 ≡ starting
unfolding run step load_observation_completion text_eq snapshot_delta
second_waits = refl

same_workspace : text_eq (lit "/w") (lit "/w") ≡ true
unfolding text_eq
same_workspace = refl

run-returns_example : HasReturned ℕ effects (request 7) refl same_workspace (
  (run ℕ effects
      (λ i. request 7)
      (turns ℕ effects (request 7) refl same_workspace 1 no_paths 12)
      (run ℕ effects (λ i. request 7) interrupted begun)).files,
  (run ℕ effects
        (λ i. request 7)
        (turns ℕ effects (request 7) refl same_workspace 1 no_paths 12)
        (run ℕ effects (λ i. request 7) interrupted begun)).stages
      1,
)
run-returns_example =
    run-returns ℕ effects (request 7) refl same_workspace 1 no_paths interrupted begun (λ i. refl)
      begun-IsOwn refl second_waits
