-- ===== src/Journal/Examples.antt =====
-- The theorems on the journal at a run that reports a failure, with an encoder that gives each value
-- the same bytes and digest.
use agenstro.Common.{ℕ, ◌≡◌, refl, false, none, some, Option, ok, List, [], ◌∷◌}
use agenstro.Common.Text.{lit}
use agenstro.Json.{Value, string, array, object, nil, cons, end, field}
use agenstro.Protocol.{failure}
use agenstro.Process.{InvocationKind, ProcessOutcome}
use agenstro.Outcome.{classify_outcome, validate_outcome_consistency}
use agenstro.Journal.Redaction.{Encoder, redact_diagnostic_value}
use agenstro.Journal.Redaction.Safety.{IsRedacted, redact-IsRedacted}
use agenstro.Journal.Summary.{RunSummary, trace_api, diagnostic_summary}
use agenstro.Journal.Summary.Fidelity.{diagnostic_summary_faithful}
use agenstro.Journal.Writer.{
  RunJournal, finish, record_with_presentation, create, appended, append_failed, JournalError,
}
use agenstro.Journal.Writer.Calls.{Call, log, close_run, run_call, run_calls, Refuses, IsWellFormed}
use agenstro.Journal.Writer.Sequence.{journal-IsWellFormed, published_final}

abbrev one_digest : Encoder ℕ
one_digest = record {
  to_vec = λ v. lit "null";
  digest = λ s. lit "74234e98afe7498fb5daf1f36ac2d78acc339464f950703b8c019892f982b90b";
  from_usize = λ n. n;
  decimal = λ n. lit "4";
}

abbrev evidence : Value ℕ
evidence = object (
    field (lit "Api-Key") (string (lit "hunter2")) (
      field (lit "steps") (array (cons (object (field (lit "code") (string (lit "x")) end)) nil))
        end))

redact-IsRedacted_example : IsRedacted one_digest (redact_diagnostic_value one_digest evidence)
redact-IsRedacted_example = redact-IsRedacted one_digest (λ s. refl) evidence

abbrev failed_outcome : ProcessOutcome ℕ
failed_outcome = record {
  kind = InvocationKind.plugin_failed;
  exit_code = some 1;
  terminal =
      some (failure (record { code = lit "bad"; message = lit "no such file"; details = none }));
  frames_seen = 2;
  events_dropped = 0;
  observation_error = none;
  stderr = lit "trace";
  stderr_truncated = false;
  error = none;
  elapsed_ms = 9;
  progress = none;
}

abbrev failed_run : RunSummary ℕ
failed_run = record {
  api = trace_api;
  run_id = lit "run-1-2-0";
  started_unix_ms = 1;
  finished_unix_ms = 10;
  events_recorded = 2;
  outcome = failed_outcome;
}

diagnostic_summary_faithful_example :
    (classify_outcome (diagnostic_summary one_digest failed_run).outcome
      ≡ classify_outcome failed_run.outcome)
    × (validate_outcome_consistency (diagnostic_summary one_digest failed_run).outcome
        ≡ validate_outcome_consistency failed_run.outcome)
diagnostic_summary_faithful_example = diagnostic_summary_faithful one_digest failed_run

-- The second event is refused; its number is used for the third.
abbrev calls : List (Call ℕ)
calls =
    log (lit "a") evidence none 2 appended
    ∷ log (lit "b") evidence none 3 (append_failed (JournalError.io (lit "disk full")) false)
    ∷ log (lit "c") evidence none 4 appended
    ∷ close_run failed_outcome 10 (ok tt) none
    ∷ []

journal-IsWellFormed_example :
    IsWellFormed (run_calls one_digest calls (create (lit "run-1-2-0") 1))
journal-IsWellFormed_example = journal-IsWellFormed one_digest (lit "run-1-2-0") 1 calls refl

abbrev closed : RunJournal ℕ
closed = run_calls one_digest calls (create (lit "run-1-2-0") 1)

-- The summary that is published, and another one when there is none.
abbrev published_or : RunSummary ℕ → Option (RunSummary ℕ) → RunSummary ℕ
published_or other none = other
published_or other (some s) = s

calls_published : closed.published ≡ some (published_or failed_run closed.published)
unfolding run_calls run_call create finish record_with_presentation validate_outcome_consistency
calls_published = refl

published_final_example :
    (run_calls one_digest calls closed ≡ closed)
    × Refuses one_digest
        (close_run failed_outcome 12 (ok tt) none)
        (run_calls one_digest calls closed)
published_final_example =
    published_final one_digest (lit "run-1-2-0") 1 calls calls
      (close_run failed_outcome 12 (ok tt) none) (published_or failed_run closed.published) refl
      calls_published
