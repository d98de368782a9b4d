-- ===== src/Runs.antt =====
-- tactus-runtime/src/runs.rs: the operator's view of the journals. What `EventReader::next` returns,
-- call after call, is a list; reading past its end returns the end of the stream.
pub mod Maintenance
pub mod Paging
mod Examples
use agenstro.Common.{
  ℕ, ◌+◌, Bool, true, false, ◌&&◌, ◌||◌, not, Option, none, some, is_some_and, is_none_or, Result,
  ok, err, List, [], ◌∷◌, leb, ltb, ◌==◌, if◌then◌else◌,
}
use agenstro.Common.Text.{Text, lit, text_eq, one_of}
use agenstro.Json.{Value, object, get, as_str}
use agenstro.Protocol.{TerminalResult, failure}
use agenstro.Process.{InvocationKind, ProcessOutcome}
use agenstro.Outcome.{OutcomeState, outcome_unknown, classify_outcome, as_text}
use agenstro.Journal.Summary.{RunSummary}
use agenstro.Journal.Writer.{TraceEvent}
use agenstro.JournalReader.{ReadError, EventRead, event, end, partial}

pub data RunIntegrity : Type 0 where
  intact partly corrupt : RunIntegrity

pub record RunRecord : Type 0 where
  pub run_id : Text
  pub state : Text
  pub outcome_kind : Option Text
  pub failure_code : Option Text
  pub integrity : RunIntegrity
  pub started_unix_ms : ℕ
  pub finished_unix_ms : Option ℕ
  pub last_event_unix_ms : Option ℕ
  pub events_recorded : ℕ
  pub protected : Bool
  pub protection_reasons : List Text

pub record EventFacts : Type 0 where
  pub count : ℕ
  pub last_event_unix_ms : Option ℕ
  pub outcome_unknown : Bool
  pub complete : Bool

-- An error of the reader is kept as it is; the source's `map_read_error` renames it. The last four are
-- the reasons that the modelled code gives for `Corrupt` and `InvalidArgument`.
pub data RunsError : Type 0 where
  io : Text → RunsError
  unreadable : ReadError → RunsError
  wrong_count unknown_state wrong_limit event_too_large : RunsError

abbrev pub invocation_kind_name : InvocationKind → Text
invocation_kind_name InvocationKind.succeeded = lit "succeeded"
invocation_kind_name InvocationKind.plugin_failed = lit "plugin_failed"
invocation_kind_name InvocationKind.process_failed = lit "process_failed"
invocation_kind_name InvocationKind.protocol_failed = lit "protocol_failed"
invocation_kind_name InvocationKind.runtime_failed = lit "runtime_failed"
invocation_kind_name InvocationKind.deadline_exceeded = lit "deadline_exceeded"
invocation_kind_name InvocationKind.cancelled = lit "cancelled"

abbrev pub is_empty_list {ℓ} : {A : Type ℓ} → List A → Bool
is_empty_list [] = true
is_empty_list (x ∷ xs) = false

abbrev pub is_unknown_state : OutcomeState → Bool
is_unknown_state outcome_unknown = true
is_unknown_state _ = false

abbrev pub reasons : Bool → Bool → List Text
reasons true true = lit "unresolved_outcome_unknown" ∷ []
reasons true false = lit "unresolved_outcome_unknown" ∷ lit "scan_budget_exceeded" ∷ []
reasons false true = []
reasons false false = lit "scan_budget_exceeded" ∷ []

module _ {N : Type 0} where
  abbrev terminal_failure_code : Option (TerminalResult N) → Option Text
  terminal_failure_code (some (failure e)) = some e.code
  terminal_failure_code _ = none

  abbrev state_after : Value N → Option (Value N)
  state_after (object fs) = get (lit "state_after") fs
  state_after _ = none

  abbrev text_of : Option (Value N) → Option Text
  text_of none = none
  text_of (some v) = as_str v

  unfoldable pub event_is_outcome_unknown : TraceEvent N → Bool
  event_is_outcome_unknown e =
      text_eq e.kind (lit "runtime.outcome_unknown")
      || (text_eq e.kind (lit "runtime.state_transition")
          && is_some_and (λ s. text_eq s (lit "outcome_unknown")) (text_of (state_after e.data_)))

  -- At the end of the file, the count of a published summary is checked.
  abbrev pub finish_scan : EventFacts → Option (RunSummary N) → Result RunsError EventFacts
  finish_scan f none = ok (record f { complete = true })
  finish_scan f (some s) =
      if s.events_recorded == f.count then ok (record f { complete = true }) else err wrong_count

  abbrev pub observe_event : TraceEvent N → EventFacts → EventFacts
  observe_event e f = record f {
    count = f.count + 1;
    last_event_unix_ms = some e.at_unix_ms;
    outcome_unknown = f.outcome_unknown || event_is_outcome_unknown e;
  }

  unfoldable pub scan :
      EventFacts
      → Option (RunSummary N)
      → List (Result ReadError (EventRead N))
      → Result RunsError EventFacts
  scan f s [] = finish_scan f s
  scan f s (ok (event e n) ∷ rest) = scan (observe_event e f) s rest
  scan f s (ok end ∷ rest) = finish_scan f s
  scan f s (ok partial ∷ rest) = ok (record f { complete = false })
  scan f s (err ReadError.scan_budget_exceeded ∷ rest) = ok (record f { complete = false })
  scan f s (err e ∷ rest) = err (unreadable e)

  unfoldable pub scan_events :
      Option (RunSummary N) → List (Result ReadError (EventRead N)) → Result RunsError EventFacts
  scan_events =
      scan
        (record { count = 0; last_event_unix_ms = none; outcome_unknown = false; complete = false })

  abbrev pub unresolved : RunSummary N → EventFacts → Bool
  unresolved s f = is_unknown_state (classify_outcome s.outcome) || f.outcome_unknown

  -- The record of a run from its summary and the facts of its events.
  unfoldable pub project : Text → ℕ → Option (RunSummary N) → EventFacts → RunRecord
  project id started none f = record {
    run_id = id;
    state = lit "open";
    outcome_kind = none;
    failure_code = none;
    integrity = partly;
    started_unix_ms = started;
    finished_unix_ms = none;
    last_event_unix_ms = f.last_event_unix_ms;
    events_recorded = f.count;
    protected = true;
    protection_reasons = lit "open" ∷ [];
  }
  project id started (some s) f = record {
    run_id = id;
    state = if unresolved s f then lit "outcome_unknown" else as_text (classify_outcome s.outcome);
    outcome_kind = some (invocation_kind_name s.outcome.kind);
    failure_code = terminal_failure_code s.outcome.terminal;
    integrity = if f.complete then intact else partly;
    started_unix_ms = s.started_unix_ms;
    finished_unix_ms = some s.finished_unix_ms;
    last_event_unix_ms = f.last_event_unix_ms;
    events_recorded = f.count;
    protected = not (is_empty_list (reasons (unresolved s f) f.complete));
    protection_reasons = reasons (unresolved s f) f.complete;
  }

  abbrev pub projected :
      Text → ℕ → Option (RunSummary N) → Result RunsError EventFacts → Result RunsError RunRecord
  projected id started s (err e) = err e
  projected id started s (ok f) = ok (project id started s f)

  -- What `read_summary` returns, and then what the reader returns.
  unfoldable pub inspect_run :
      Text
      → ℕ
      → Result RunsError (Option (RunSummary N))
      → List (Result ReadError (EventRead N))
      → Result RunsError RunRecord
  inspect_run id started (err e) reads = err e
  inspect_run id started (ok s) reads = projected id started s (scan_events s reads)

abbrev pub max_list_limit : ℕ
max_list_limit = 10000

unfoldable pub validate_limit : ℕ → Result RunsError (Unit {0})
validate_limit n = if n == 0 || ltb max_list_limit n then err wrong_limit else ok tt

abbrev pub states : List Text
states =
    lit "succeeded"
    ∷ lit "failed"
    ∷ lit "outcome_unknown"
    ∷ lit "open"
    ∷ lit "corrupt"
    ∷ lit "plugin_failed"
    ∷ lit "process_failed"
    ∷ lit "protocol_failed"
    ∷ lit "runtime_failed"
    ∷ lit "deadline_exceeded"
    ∷ lit "cancelled"
    ∷ []

unfoldable pub validate_state_filter : Option Text → Result RunsError (Unit {0})
validate_state_filter none = ok tt
validate_state_filter (some s) = if one_of states s then ok tt else err unknown_state

unfoldable pub state_matches : Text → RunRecord → Bool
state_matches selected r =
    text_eq r.state selected || is_some_and (λ k. text_eq k selected) r.outcome_kind

unfoldable pub filtered_runs : Option Text → Option ℕ → List RunRecord → List RunRecord
filtered_runs state since [] = []
filtered_runs state since (r ∷ rs) =
    let rest = filtered_runs state since rs in
    if is_none_or (λ t. leb t r.started_unix_ms) since && is_none_or (λ s. state_matches s r) state
    then r ∷ rest
    else rest
