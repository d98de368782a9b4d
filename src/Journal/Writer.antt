-- ===== src/Journal/Writer.antt =====
-- tactus-runtime/src/journal.rs: `RunJournal`. A journal is its fields, with the lines that its event
-- stream holds in place of the open file, and with the summary that was published in its directory.
-- What the file system does in a call is an argument of the call; `unix_millis` is one too.
pub mod Calls
pub mod Sequence
use agenstro.Common.{
  ℕ, ◌+◌, ◌-◌, Bool, true, false, Option, none, some, is_some, Result, ok, err, ◌>>=◌, ◌>>◌,
  fail_if, map_err, List, [], ◌∷◌, ◌++◌, if◌then◌else◌,
}
use agenstro.Common.Text.{Text, lit}
use agenstro.Json.{Value, boolean, string, object, end, field}
use agenstro.Process.{ProcessOutcome}
use agenstro.Outcome.{Inconsistency, validate_outcome_consistency}
use agenstro.Journal.Redaction.{Encoder, redact_diagnostic_value}
use agenstro.Journal.Summary.{RunSummary, trace_api, diagnostic_summary, durable_diagnostic_code}

pub data PresentationCategory : Type 0 where
  state info warning error : PresentationCategory

pub record Presentation : Type 0 where
  pub category : PresentationCategory
  pub message : Text

pub record TraceEvent (N : Type 0) : Type 0 where
  pub api : Text
  pub run_id : Text
  pub seq : ℕ
  pub at_unix_ms : ℕ
  pub kind : Text
  pub presentation : Option Presentation
  pub data_ : Value N

pub data TriggerKind : Type 0 where
  request event timer internal_result control : TriggerKind

pub record TransitionTrigger (N : Type 0) : Type 0 where
  pub kind : TriggerKind
  pub source : Text
  pub code : Text
  pub details : Option (Value N)

pub record TransitionGuard : Type 0 where
  pub condition : Text
  pub passed : Bool
  pub reason : Text

pub record StateTransition (N : Type 0) : Type 0 where
  pub state_before : Text
  pub trigger : TransitionTrigger N
  pub guard : TransitionGuard
  pub state_after : Text

pub data JournalError : Type 0 where
  io : Text → JournalError
  json : Text → JournalError
  invalid_outcome : Inconsistency → JournalError
  already_finished : JournalError

-- Whether an event was written and flushed. When a step failed, the stream may hold its line all
-- the same.
pub data Append : Type 0 where
  appended : Append
  append_failed : JournalError → Bool → Append

pub record RunJournal (N : Type 0) : Type 0 where
  pub run_id : Text
  pub started_unix_ms : ℕ
  pub next_seq : ℕ
  pub events : Option (List (TraceEvent N))
  pub finished : Bool
  pub published : Option (RunSummary N)

abbrev pub Answer : Type 0 → Type 0 → Type 0
Answer N A = RunJournal N × Result JournalError A

abbrev trigger_text : TriggerKind → Text
trigger_text request = lit "request"
trigger_text event = lit "event"
trigger_text timer = lit "timer"
trigger_text internal_result = lit "internal_result"
trigger_text control = lit "control"

module _ {N : Type 0} where
  unfoldable pub create : Text → ℕ → RunJournal N
  create id now = record {
    run_id = id;
    started_unix_ms = now;
    next_seq = 1;
    events = some [];
    finished = false;
    published = none;
  }

  unfoldable pub degraded : Text → ℕ → RunJournal N
  degraded id now = record {
    run_id = id;
    started_unix_ms = now;
    next_seq = 1;
    events = none;
    finished = false;
    published = none;
  }

  abbrev pub is_durable : RunJournal N → Bool
  is_durable j = is_some j.events

  abbrev pub append :
      RunJournal N → TraceEvent N → Option (List (TraceEvent N)) → Append → Answer N ℕ
  append j e none a = (record j { next_seq = j.next_seq + 1 }, ok e.seq)
  append j e (some es) appended =
      (record j { next_seq = j.next_seq + 1; events = some (es ++ (e ∷ [])) }, ok e.seq)
  append j e (some es) (append_failed x true) = (record j { events = some (es ++ (e ∷ [])) }, err x)
  append j e (some es) (append_failed x false) = (j, err x)

  unfoldable pub record_with_presentation :
      Encoder N → Text → Value N → Option Presentation → ℕ → Append → RunJournal N → Answer N ℕ
  record_with_presentation c k v p now a j =
      let e : TraceEvent N = record {
        api = trace_api;
        run_id = j.run_id;
        seq = j.next_seq;
        at_unix_ms = now;
        kind = k;
        presentation = p;
        data_ = redact_diagnostic_value c v;
      } in
      if j.finished then (j, err already_finished) else append j e j.events a

  -- `serde_json::to_value`, as the types derive it.
  abbrev trigger_value : TransitionTrigger N → Value N
  trigger_value t = object (
      field (lit "kind") (string (trigger_text t.kind)) (
        field (lit "source") (string t.source) (
          field (lit "code") (string t.code)
            (elim t.details [ none ↦ end | some v ↦ field (lit "details") v end ]))))

  abbrev guard_value : TransitionGuard → Value N
  guard_value g = object (
      field (lit "condition") (string g.condition)
        (field (lit "passed") (boolean g.passed) (field (lit "reason") (string g.reason) end)))

  abbrev transition_value : StateTransition N → Value N
  transition_value s = object (
      field (lit "state_before") (string s.state_before) (
        field (lit "trigger") (trigger_value s.trigger) (
          field (lit "guard") (guard_value s.guard)
            (field (lit "state_after") (string s.state_after) end))))

  unfoldable pub record_transition :
      Encoder N
      → Text
      → TransitionTrigger N
      → TransitionGuard
      → Text
      → Presentation
      → ℕ
      → Append
      → RunJournal N
      → Answer N ℕ
  unfolding record_with_presentation
  record_transition c before t g after p now a j =
      let s : StateTransition N = record {
        state_before = before;
        trigger = record t { code = durable_diagnostic_code c t.code };
        guard = g;
        state_after = after;
      } in
      record_with_presentation c (lit "runtime.state_transition") (transition_value s) (some p) now
        a j

  unfoldable pub snapshot_summary : ℕ → ProcessOutcome N → RunJournal N → RunSummary N
  snapshot_summary now o j = record {
    api = trace_api;
    run_id = j.run_id;
    started_unix_ms = j.started_unix_ms;
    finished_unix_ms = now;
    events_recorded = if is_durable j then j.next_seq - 1 else 0;
    outcome = o;
  }

  -- The summary's file is renamed into place or is not there.
  abbrev pub publish_summary :
      Encoder N → RunSummary N → Option JournalError → RunJournal N → Answer N (RunSummary N)
  publish_summary c s none j =
      (record j { finished = true; published = some (diagnostic_summary c s) }, ok s)
  publish_summary c s (some e) j = (j, err e)

  -- A journal without files is only marked.
  abbrev pub close :
      Encoder N
      → RunSummary N
      → Result JournalError (Unit {0})
      → Option JournalError
      → Option (List (TraceEvent N))
      → RunJournal N
      → Answer N (RunSummary N)
  close c s sync rename none j = (record j { finished = true }, ok s)
  close c s (err e) rename (some es) j = (j, err e)
  close c s (ok u) rename (some es) j = publish_summary c s rename j

  abbrev pub admit : ProcessOutcome N → RunJournal N → Result JournalError (Unit {0})
  admit o j = do
    fail_if j.finished already_finished
    map_err invalid_outcome (validate_outcome_consistency o)

  abbrev pub finish_with :
      Encoder N
      → ProcessOutcome N
      → ℕ
      → Result JournalError (Unit {0})
      → Option JournalError
      → RunJournal N
      → Result JournalError (Unit {0})
      → Answer N (RunSummary N)
  finish_with c o now sync rename j (err e) = (j, err e)
  finish_with c o now sync rename j (ok u) =
      close c (snapshot_summary now o j) sync rename j.events j

  -- The results of the flush and the sync, and of the publication.
  unfoldable pub finish :
      Encoder N
      → ProcessOutcome N
      → ℕ
      → Result JournalError (Unit {0})
      → Option JournalError
      → RunJournal N
      → Answer N (RunSummary N)
  finish c o now sync rename j = finish_with c o now sync rename j (admit o j)

  unfoldable pub finish_degraded :
      Encoder N
      → ProcessOutcome N
      → ℕ
      → Option JournalError
      → RunJournal N
      → Answer N (RunSummary N)
  finish_degraded c o now rename j = finish_with c o now (ok tt) rename j (admit o j)
