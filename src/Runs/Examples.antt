-- ===== src/Runs/Examples.antt =====
-- The theorems on maintenance and paging at a journal of two events.
use agenstro.Common.{ℕ, ◌≡◌, refl, true, false, none, some, ok, List, [], ◌∷◌}
use agenstro.Common.Text.{Text, lit, text_eq}
use agenstro.Json.{null}
use agenstro.Protocol.{success}
use agenstro.Process.{InvocationKind}
use agenstro.Journal.Summary.{RunSummary, trace_api}
use agenstro.Journal.Writer.{TraceEvent}
use agenstro.Outcome.{classify_outcome, outcome_is_unknown}
use agenstro.Runs.{
  RunRecord, intact, inspect_run, scan_events, scan, event_is_outcome_unknown, project,
}
use agenstro.Runs.Maintenance.{
  gc, Finding, eligible_for_maintenance, maintenance_plan, maintain, sweep_planned, sweep_one,
}
use agenstro.Runs.Maintenance.Safety.{AreSettled, maintain-AreSettled}
use agenstro.Runs.Paging.{reads_of}

abbrev numbered : ℕ → TraceEvent ℕ
numbered n = record {
  api = trace_api;
  run_id = lit "run-5-1-0";
  seq = n;
  at_unix_ms = n;
  kind = lit "plugin.event";
  presentation = none;
  data_ = null;
}

abbrev stream : List (TraceEvent ℕ × ℕ)
stream = (numbered 1, 80) ∷ (numbered 2, 80) ∷ []

abbrev summary : RunSummary ℕ
summary = record {
  api = trace_api;
  run_id = lit "run-5-1-0";
  started_unix_ms = 5;
  finished_unix_ms = 9;
  events_recorded = 2;
  outcome = record {
    kind = InvocationKind.succeeded;
    exit_code = some 0;
    terminal = some (success null);
    frames_seen = 1;
    events_dropped = 0;
    observation_error = none;
    stderr = [];
    stderr_truncated = false;
    error = none;
    elapsed_ms = 4;
    progress = none;
  };
}

abbrev old_record : RunRecord
old_record = record {
  run_id = lit "run-5-1-0";
  state = lit "succeeded";
  outcome_kind = some (lit "succeeded");
  failure_code = none;
  integrity = intact;
  started_unix_ms = 5;
  finished_unix_ms = some 9;
  last_event_unix_ms = some 2;
  events_recorded = 2;
  protected = false;
  protection_reasons = [];
}

abbrev find : Text → Finding ℕ
find id = record {
  started = 5;
  summary = ok (some summary);
  reads = reads_of stream;
  safe = true;
  destination_exists = false;
  moved = ok tt;
}

deletes_old_run :
    (maintain gc true (some 100) ((old_record, true) ∷ []) find).swept ≡ lit "run-5-1-0" ∷ []
unfolding maintain maintenance_plan sweep_planned sweep_one eligible_for_maintenance inspect_run
    scan_events scan event_is_outcome_unknown project classify_outcome outcome_is_unknown text_eq
deletes_old_run = refl

maintain-AreSettled_example :
    AreSettled (some 100) find (maintain gc true (some 100) ((old_record, true) ∷ []) find).swept
    × (true ≡ false → (maintain gc true (some 100) ((old_record, true) ∷ []) find).swept ≡ [])
maintain-AreSettled_example = maintain-AreSettled gc true (some 100) ((old_record, true) ∷ []) find
