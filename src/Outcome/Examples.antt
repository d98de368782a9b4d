-- ===== src/Outcome/Examples.antt =====
-- The theorem of `Outcome.Classification` at a failure that a provider reported.
use agenstro.Common.{ℕ, refl, false, none, some, []}
use agenstro.Common.Text.{lit}
use agenstro.Protocol.{failure}
use agenstro.Process.{InvocationKind, ProcessOutcome}
use agenstro.Outcome.{classify_outcome, validate_outcome_consistency}
use agenstro.Outcome.Classification.{Evidence, classify-Evidence}

abbrev unresolved : ProcessOutcome ℕ
unresolved = record {
  kind = InvocationKind.plugin_failed;
  exit_code = some 1;
  terminal = some (failure (record { code = lit "outcome_unknown"; message = []; details = none }));
  frames_seen = 1;
  events_dropped = 0;
  observation_error = none;
  stderr = [];
  stderr_truncated = false;
  error = none;
  elapsed_ms = 5;
  progress = none;
}

classify-Evidence_example : Evidence (classify_outcome unresolved) unresolved
unfolding validate_outcome_consistency
classify-Evidence_example = classify-Evidence unresolved refl
