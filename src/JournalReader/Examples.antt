-- ===== src/JournalReader/Examples.antt =====
-- The theorems on the reader at two lines that are cut in the middle of the first, and at a run of
-- two events.
use agenstro.Common.{
  ℕ, ◌+◌, refl, false, true, none, some, ok, List, [], ◌∷◌, map, arith, if◌then◌else◌,
}
use agenstro.Common.Text.{Text, lit, text_eq}
use agenstro.Json.{null}
use agenstro.Protocol.{success}
use agenstro.Process.{InvocationKind, ProcessOutcome}
use agenstro.Outcome.{validate_outcome_consistency}
use agenstro.Journal.Redaction.{Encoder, redact_diagnostic_value}
use agenstro.Journal.Summary.{
  RunSummary, trace_api, diagnostic_summary, summarize_outcome, summarize_terminal,
}
use agenstro.Journal.Writer.{
  TraceEvent, create, appended, record_with_presentation, finish, snapshot_summary,
}
use agenstro.Journal.Writer.Calls.{Call, log, close_run, run_call, run_calls}
use agenstro.JournalReader.{read_bounded_line, open_reader, strip_last}
use agenstro.JournalReader.Lines.{IsLineOf, join, read_bounded_line-IsLineOf}
use agenstro.JournalReader.OneEvent.{Codec}
use agenstro.JournalReader.RoundTrip.{ReadsBack, journal-ReadsBack}

abbrev buffers : List Text
buffers = (123 ∷ 49 ∷ []) ∷ (125 ∷ 10 ∷ 123 ∷ []) ∷ (125 ∷ 10 ∷ []) ∷ []

read_bounded_line-IsLineOf_example :
    IsLineOf 64 [] (join buffers) (read_bounded_line 64 [] (map ok buffers))
read_bounded_line-IsLineOf_example = read_bounded_line-IsLineOf 64 buffers refl

abbrev encoder : Encoder ℕ
encoder = record {
  to_vec = λ v. lit "null";
  digest = λ s. lit "74234e98afe7498fb5daf1f36ac2d78acc339464f950703b8c019892f982b90b";
  from_usize = λ n. n;
  decimal = λ n. lit "4";
}

abbrev outcome : ProcessOutcome ℕ
outcome = record {
  kind = InvocationKind.succeeded;
  exit_code = some 0;
  terminal = some (success null);
  frames_seen = 1;
  events_dropped = 0;
  observation_error = none;
  stderr = [];
  stderr_truncated = false;
  error = none;
  elapsed_ms = 4;
  progress = none;
}

abbrev calls : List (Call ℕ)
calls =
    log (lit "a") null none 2 appended
    ∷ log (lit "b") null none 3 appended
    ∷ close_run outcome 9 (ok tt) none
    ∷ []

abbrev written : Text → ℕ → ℕ → TraceEvent ℕ
written k n now = record {
  api = trace_api;
  run_id = lit "run-1-2-0";
  seq = n;
  at_unix_ms = now;
  kind = k;
  presentation = none;
  data_ = null;
}

abbrev events : List (TraceEvent ℕ)
events = written (lit "a") 1 2 ∷ written (lit "b") 2 3 ∷ []

-- "{1}" and "{2}".
abbrev codec : Codec ℕ
codec = record {
  encode = λ e. 123 ∷ (48 + e.seq) ∷ 125 ∷ [];
  from_slice =
      λ s. if text_eq s (lit "{1}") then ok (written (lit "a") 1 2) else ok (written (lit "b") 2 3);
}

abbrev published : RunSummary ℕ
published = diagnostic_summary encoder (record {
  api = trace_api;
  run_id = lit "run-1-2-0";
  started_unix_ms = 1;
  finished_unix_ms = 9;
  events_recorded = 2;
  outcome = outcome;
})

abbrev pieces : List Text
pieces = lit "{1" ∷ (125 ∷ 10 ∷ 123 ∷ []) ∷ (50 ∷ 125 ∷ 10 ∷ []) ∷ []

journal-ReadsBack_example :
    ReadsBack codec events
      (open_reader
        (map ok pieces)
        (run_calls encoder calls (create (lit "run-1-2-0") 1)).run_id
        true)
      published
unfolding run_calls run_call create record_with_presentation finish snapshot_summary
    diagnostic_summary summarize_outcome summarize_terminal validate_outcome_consistency
    redact_diagnostic_value strip_last text_eq
journal-ReadsBack_example =
    journal-ReadsBack codec encoder (lit "run-1-2-0") 1 calls events published pieces refl refl refl
      refl refl ((refl, refl, refl), ((refl, refl, refl), tt)) refl (omega arith)
