-- ===== src/Cli/Batch/Reports.antt =====
-- tactus-runtime/src/cli.rs: what a batch reports as its outcome, and its exit code.
pub mod Consistency
use agenstro.Common.{
  ℕ, ◌-◌, Bool, true, false, ◌&&◌, ◌||◌, not, Option, none, some, is_some, Result, ok, err, List,
  [], ◌∷◌, ◌++◌, ◌==◌, length, if◌then◌else◌,
}
use agenstro.Common.Text.{Text, lit}
use agenstro.Json.{
  Value, Items, Fields, null, boolean, number, string, array, object, nil, cons, end, field,
}
use agenstro.Protocol.{TerminalResult, PluginFailure, success, failure}
use agenstro.Process.{
  InvocationKind, InvocationPhase, dispatched, terminal_received, InvocationProgress,
  ProcessOutcome,
}
use agenstro.Process.Command.{
  CommandKind, exited, deadline_exceeded, cancelled, runtime_failed, CommandOutcome, is_success,
  is_exited,
}
use agenstro.Cli.Batch.{ScriptBatchExecution, Ending, is_completed}

pub record ScriptExecutionResult : Type 0 where
  pub script : Text
  pub exit_code : Option ℕ
  pub command_kind : CommandKind
  pub outcome_unknown : Bool

abbrev pub execution_result : Text → Ending → ScriptExecutionResult
execution_result script e = record {
  script = script;
  exit_code = e.status.exit_code;
  command_kind = e.status.kind;
  outcome_unknown = e.unknown || not (is_exited e.status.kind) || not (is_some e.status.exit_code);
}

-- The JSON numbers of `serde_json`, and the decimal text of an `i32`.
pub record Numbers (N : Type 0) : Type 0 where
  pub from_usize : ℕ → N
  pub from_i32 : ℕ → N
  pub i32_text : ℕ → Text

abbrev pub kind_text : CommandKind → Text
kind_text exited = lit "exited"
kind_text deadline_exceeded = lit "deadline_exceeded"
kind_text cancelled = lit "cancelled"
kind_text runtime_failed = lit "runtime_failed"

abbrev pub exits_by_itself : CommandKind → Bool
exits_by_itself runtime_failed = false
exits_by_itself _ = true

-- `current_unix_millis` is the argument `now`.
unfoldable pub script_command_progress : ℕ → CommandOutcome → InvocationPhase → InvocationProgress
script_command_progress now c phase = record {
  phase = phase;
  dispatched_unix_ms = now - c.elapsed_ms;
  first_response_unix_ms = none;
  last_event_unix_ms = none;
  cleanup_completed = exits_by_itself c.kind;
}

abbrev pub coded : CommandKind → Option ℕ → Bool
coded kind code = is_exited kind && is_some code

abbrev pub failed_kind : CommandKind → Option ℕ → InvocationKind
failed_kind exited none = InvocationKind.runtime_failed
failed_kind exited (some c) = InvocationKind.plugin_failed
failed_kind deadline_exceeded code = InvocationKind.deadline_exceeded
failed_kind cancelled code = InvocationKind.cancelled
failed_kind runtime_failed code = InvocationKind.runtime_failed

abbrev code_or_1 : Option ℕ → ℕ
code_or_1 none = 1
code_or_1 (some c) = c

abbrev or_text : Option Text → Option Text → Option Text
or_text (some e) other = some e
or_text none other = other

module _ {N : Type 0} (n : Numbers N) where
  abbrev code_value : Option ℕ → Value N
  code_value none = null
  code_value (some c) = number (n.from_i32 c)

  abbrev result_value : ScriptExecutionResult → Value N
  result_value r = object (
      field (lit "script") (string r.script) (
        field (lit "exit_code") (code_value r.exit_code) (
          field (lit "command_kind") (string (kind_text r.command_kind))
            (field (lit "outcome_unknown") (boolean r.outcome_unknown) end))))

  abbrev result_values : List ScriptExecutionResult → Items N
  result_values [] = nil
  result_values (r ∷ rs) = cons (result_value r) (result_values rs)

  -- The members that every report has, before those of its own.
  abbrev counts : ℕ → List ScriptExecutionResult → Fields N → Fields N
  counts script_count results more =
      field (lit "script_count") (number (n.from_usize script_count)) (
        field (lit "completed_script_count") (number (n.from_usize (length results)))
          (field (lit "scripts") (array (result_values results)) more))

  abbrev report :
      InvocationKind
      → Option ℕ
      → Option (TerminalResult N)
      → ℕ
      → Option Text
      → ℕ
      → Option InvocationProgress
      → ProcessOutcome N
  report kind code terminal frames error ms progress = record {
    kind = kind;
    exit_code = code;
    terminal = terminal;
    frames_seen = frames;
    events_dropped = 0;
    observation_error = none;
    stderr = [];
    stderr_truncated = false;
    error = error;
    elapsed_ms = ms;
    progress = progress;
  }

  abbrev failure_of : Text → Text → Option (Value N) → Option (TerminalResult N)
  failure_of code message details =
      some (failure (record { code = code; message = message; details = details }))

  module _ (now script_count : ℕ) (results : List ScriptExecutionResult) (ms : ℕ) where
    abbrev pub completed_report : ProcessOutcome N
    completed_report =
        report InvocationKind.succeeded (some 0)
          (some (
            success (
              object (
                counts script_count results
                  (field (lit "exit_code") (number (n.from_usize 0)) end)))))
          0 none ms none

    abbrev pub unprepared_report : CommandOutcome → ProcessOutcome N
    unprepared_report c =
        report InvocationKind.plugin_failed c.exit_code
          (failure_of (lit "script_preparation_failed")
            (lit "script batch preparation did not complete successfully")
            (some (
              object (
                counts script_count results (
                  field (lit "command_kind") (string (kind_text c.kind))
                    (field (lit "exit_code") (code_value c.exit_code) end))))))
          0 c.error ms none

    abbrev pub unknown_report : CommandOutcome → ProcessOutcome N
    unknown_report c =
        report InvocationKind.plugin_failed c.exit_code
          (failure_of (lit "outcome_unknown")
            (lit "a Clef workflow reported an ambiguous external result")
            (some (object (counts script_count results end))))
          1 c.error ms (some (script_command_progress now c terminal_received))

    abbrev pub failed_report : CommandOutcome → ProcessOutcome N
    failed_report c =
        let died = is_exited c.kind && not (is_some c.exit_code) in
        report (failed_kind c.kind c.exit_code) c.exit_code
          (if coded c.kind c.exit_code
            then failure_of (lit "script_batch_failed")
                (lit "script batch exited with code " ++ n.i32_text (code_or_1 c.exit_code))
                (some (object (counts script_count results end)))
            else none)
          0
          (or_text c.error
            (if died then some (lit "script process terminated without an exit code") else none))
          ms
          (if not (coded c.kind c.exit_code)
            then some (script_command_progress now c dispatched)
            else none)

    abbrev pub unstarted_report : Text → ProcessOutcome N
    unstarted_report e =
        report InvocationKind.plugin_failed (some 1)
          (failure_of (lit "script_supervisor_start_failed") e none) 0 none ms none

    unfoldable pub script_batch_outcome : Result Text ScriptBatchExecution → ProcessOutcome N
    script_batch_outcome (err e) = unstarted_report e
    script_batch_outcome (ok x) =
        if is_completed x
        then completed_report
        else if not x.script_started
        then unprepared_report x.command
        else if x.clef_outcome_unknown
        then unknown_report x.command
        else failed_report x.command

abbrev failing_code : Option ℕ → ℕ
failing_code none = 1
failing_code (some c) = if c == 0 then 1 else c

unfoldable pub script_batch_exit_code : Result Text ScriptBatchExecution → ℕ
script_batch_exit_code (err e) = 1
script_batch_exit_code (ok x) =
    if is_completed x
    then 0
    else if is_exited x.command.kind
    then failing_code x.command.exit_code
    else 1

-- The exit code of a single command, such as a toolchain command that is passed on.
unfoldable pub command_exit_code : CommandOutcome → ℕ
command_exit_code c =
    if is_success c then 0 else if is_exited c.kind then failing_code c.exit_code else 1
