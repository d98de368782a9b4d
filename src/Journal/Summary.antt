-- ===== src/Journal/Summary.antt =====
-- tactus-runtime/src/journal.rs: the terminal record of a run, and the projection of it that is
-- written, in which texts of the plugin are replaced by digests.
pub mod Fidelity
use agenstro.Common.{
  ℕ, Bool, true, false, not, ◌||◌, Option, none, some, [], ◌++◌, take, length, if◌then◌else◌,
}
use agenstro.Common.Text.{Text, lit, is_empty}
use agenstro.Json.{Value, null, boolean, number, string, array, object, end, field}
use agenstro.Protocol.{TerminalResult, PluginFailure, success, failure}
use agenstro.Process.{ProcessOutcome}
use agenstro.Journal.Redaction.{Encoder}
use agenstro.Journal.Redaction.Identifiers.{public_diagnostic_code, invalid_identifier}

abbrev pub trace_api : Text
trace_api = lit "agenstro.trace/v1"

pub record RunSummary (N : Type 0) : Type 0 where
  pub api : Text
  pub run_id : Text
  pub started_unix_ms : ℕ
  pub finished_unix_ms : ℕ
  pub events_recorded : ℕ
  pub outcome : ProcessOutcome N

-- `Option::map`.
abbrev pub map_option : {A B : Type 0} → (A → B) → Option A → Option B
map_option f none = none
map_option f (some a) = some (f a)

module _ {N : Type 0} where
  abbrev value_type : Value N → Text
  value_type null = lit "null"
  value_type (boolean b) = lit "boolean"
  value_type (number n) = lit "number"
  value_type (string s) = lit "string"
  value_type (array vs) = lit "array"
  value_type (object fs) = lit "object"

  unfoldable pub diagnostic_value_summary : Encoder N → Value N → Value N
  diagnostic_value_summary c v = object (
      field (lit "diagnostic_summary") (boolean true) (
        field (lit "value_type") (string (value_type v)) (
          field (lit "bytes") (number (c.from_usize (length (c.to_vec v))))
            (field (lit "sha256") (string (c.digest (c.to_vec v))) end))))

  unfoldable pub diagnostic_text_summary : Encoder N → Text → Text
  diagnostic_text_summary c s =
      lit "diagnostic withheld ("
      ++ c.decimal (length s)
      ++ lit " bytes; sha256 "
      ++ c.digest s
      ++ lit ")"

  unfoldable pub durable_diagnostic_code : Encoder N → Text → Text
  durable_diagnostic_code c s =
      if public_diagnostic_code s then s else invalid_identifier ++ take 16 (c.digest s)

  -- The failure's `code`, `message` and `details` are replaced.
  unfoldable pub summarize_failure : Encoder N → PluginFailure N → PluginFailure N
  summarize_failure c e = record {
    code = durable_diagnostic_code c e.code;
    message = diagnostic_text_summary c e.message;
    details = map_option (diagnostic_value_summary c) e.details;
  }

  unfoldable pub summarize_terminal : Encoder N → TerminalResult N → TerminalResult N
  summarize_terminal c (success v) = success (diagnostic_value_summary c v)
  summarize_terminal c (failure e) = failure (summarize_failure c e)

  unfoldable pub summarize_outcome : Encoder N → ProcessOutcome N → ProcessOutcome N
  summarize_outcome c o = record {
    kind = o.kind;
    exit_code = o.exit_code;
    terminal = map_option (summarize_terminal c) o.terminal;
    frames_seen = o.frames_seen;
    events_dropped = o.events_dropped;
    observation_error = map_option (diagnostic_text_summary c) o.observation_error;
    stderr = [];
    stderr_truncated = o.stderr_truncated || not (is_empty o.stderr);
    error = map_option (diagnostic_text_summary c) o.error;
    elapsed_ms = o.elapsed_ms;
    progress = o.progress;
  }

  unfoldable pub diagnostic_summary : Encoder N → RunSummary N → RunSummary N
  diagnostic_summary c s = record {
    api = s.api;
    run_id = s.run_id;
    started_unix_ms = s.started_unix_ms;
    finished_unix_ms = s.finished_unix_ms;
    events_recorded = s.events_recorded;
    outcome = summarize_outcome c s.outcome;
  }
