-- ===== src/Cli/Batch/Examples.antt =====
-- Batches of one script on concrete inputs.
use agenstro.Common.{
  ℕ, suc, ◌-◌, ◌^◌, ◌≤◌, ◌≡◌, ◌↔◌, refl, true, false, ◌&&◌, none, some, ok, err, [], ◌∷◌, arith,
  length, all,
}
use agenstro.Common.Text.{lit}
use agenstro.Process.Command.{CommandOutcome, exited, is_success}
use agenstro.Daemon.{EventLog}
use agenstro.Daemon.Repair.{Reading, Review}
use agenstro.Outcome.{succeeded, classify_outcome, validate_outcome_consistency}
use agenstro.Cli.Batch.{
  Attempt, Script, ScriptRun, ScriptBatchExecution, BatchRun, run_attempts, run_scripts,
  execute_script_batch, is_completed,
}
use agenstro.Cli.Batch.Reruns.{budget, run_attempts-ends}
use agenstro.Cli.Batch.Counts.{passes}
use agenstro.Cli.Batch.Covers.{is_clean}
use agenstro.Cli.Batch.Results.{is_completed-finished, is_completed-AllClean}
use agenstro.Cli.Batch.Reports.{Numbers, script_batch_outcome, script_batch_exit_code}
use agenstro.Cli.Batch.Reports.Consistency.{
  batch_class, script_batch_outcome-IsConsistent, exit_code-class,
}

abbrev ended_with : ℕ → CommandOutcome
ended_with c = record { kind = exited; exit_code = some c; error = none; elapsed_ms = 7 }

abbrev no_entry : Reading
no_entry = record { plain = err []; content = err [] }

abbrev no_review : Review
no_review = record {
  finished_write = true;
  proposed_write = true;
  applied_write = true;
  escalated_write = true;
  cancelled = false;
  source = no_entry;
  response = err [];
  cancelled_after = false;
  application = record {
    resolved = err [];
    extension = none;
    reading = no_entry;
    persisted = err [];
  };
}

abbrev attempt : ℕ → Attempt
attempt c = record {
  started_write = true;
  rounds = [];
  status = ok (ended_with c);
  facts = record { outcome_unknown = false; observation_ambiguous = false };
  review = no_review;
  cancelled = false;
}

abbrev script : ℕ → Script
script c = record { path = lit "a.hs"; attempts = attempt c ∷ [] }

abbrev no_events : EventLog
no_events = record { lines = []; degraded = false; escalated = false }

run_attempts-ends_example :
    (r : ScriptRun) × (run_attempts none (lit "a.hs") (attempt 3 ∷ []) 0 0 no_events ≡ some r)
    × (r.attempts ≤ suc (budget none))
run_attempts-ends_example =
    run_attempts-ends none (lit "a.hs") (attempt 3 ∷ []) 0 no_events (omega arith)

abbrev finished : ℕ → ℕ → BatchRun
finished c ms = record {
  log = no_events;
  finished = record { status = ended_with c; unknown = false } ∷ [];
  result = ok (record {
    command = record { kind = exited; exit_code = some 0; error = none; elapsed_ms = ms };
    script_started = true;
    clef_outcome_unknown = false;
  });
}

abbrev execution : ScriptBatchExecution
execution = record {
  command = record { kind = exited; exit_code = some 0; error = none; elapsed_ms = 14 };
  script_started = true;
  clef_outcome_unknown = false;
}

completes :
    execute_script_batch none false true (ok (ended_with 0)) (script 0 ∷ []) no_events
    ≡ some (finished 0 14)
unfolding execute_script_batch run_scripts run_attempts is_success
completes = refl

-- The second script does not run: the first ended with the exit code -1.
passes_over :
    execute_script_batch none false true
      (ok (ended_with 0))
      (script (2 ^ 32 - 1) ∷ script 0 ∷ [])
      no_events
    ≡ some (finished (2 ^ 32 - 1) 14)
unfolding execute_script_batch run_scripts run_attempts is_success
passes_over = refl

is_completed-finished_example :
    is_completed execution
    ≡ (is_success (ended_with 0) && all passes (finished (2 ^ 32 - 1) 14).finished)
is_completed-finished_example =
    is_completed-finished none false true (ended_with 0) (script (2 ^ 32 - 1) ∷ script 0 ∷ [])
      no_events (finished (2 ^ 32 - 1) 14) execution passes_over refl

completed : is_completed execution ≡ true
unfolding is_success
completed = refl

is_completed-AllClean_example :
    (length (finished 0 14).finished ≡ length (script 0 ∷ []))
    × (all is_clean (finished 0 14).finished ≡ true)
is_completed-AllClean_example =
    is_completed-AllClean none false true (ended_with 0) (script 0 ∷ []) no_events (finished 0 14)
      execution completes refl refl completed

abbrev numbers : Numbers ℕ
numbers = record { from_usize = λ n. n; from_i32 = λ n. n; i32_text = λ n. n ∷ [] }

script_batch_outcome-IsConsistent_example :
    (validate_outcome_consistency (script_batch_outcome numbers 9 1 [] 20 (ok execution)) ≡ ok tt)
    × (classify_outcome (script_batch_outcome numbers 9 1 [] 20 (ok execution))
        ≡ batch_class (ok execution))
script_batch_outcome-IsConsistent_example =
    script_batch_outcome-IsConsistent numbers 9 1 [] 20 (ok execution)

exit_code-class_example :
    (script_batch_exit_code (ok execution) ≡ 0)
    ↔ (classify_outcome (script_batch_outcome numbers 9 1 [] 20 (ok execution)) ≡ succeeded)
exit_code-class_example = exit_code-class numbers 9 1 [] 20 (ok execution)
