-- ===== src/Outcome.antt =====
-- tactus-runtime/src/outcome.rs: what a process outcome means for an operator, which outcomes are
-- consistent, and the diagnostic of an outcome that is not known.
pub mod Classification
mod Examples
use agenstro.Common.{
  ℕ, zero, suc, ◌==◌, ltb, Bool, true, false, not, ◌&&◌, ◌||◌, Option, none, some, Result, ok, err,
  ◌>>◌, fail_if, is_some, is_some_and, if◌then◌else◌, List, [], ◌∷◌,
}
use agenstro.Common.Text.{Text, lit, text_eq}
use agenstro.Protocol.{TerminalResult, success, failure}
use agenstro.Process.{
  InvocationKind, InvocationPhase, dispatched, first_response, partial_output, terminal_received,
  InvocationProgress, ProcessOutcome, kind_is_succeeded,
}

pub data OutcomeState : Type 0 where
  succeeded failed outcome_unknown : OutcomeState

abbrev pub outcome_unknown_code : Text
outcome_unknown_code = lit "outcome_unknown"

unfoldable pub as_text : OutcomeState → Text
as_text succeeded = lit "succeeded"
as_text failed = lit "failed"
as_text outcome_unknown = outcome_unknown_code

-- The kinds of the first `matches!`.
abbrev pub kind_is_unknown : InvocationKind → Bool
kind_is_unknown InvocationKind.succeeded = false
kind_is_unknown InvocationKind.plugin_failed = false
kind_is_unknown _ = true

module _ {N : Type 0} where
  abbrev pub reports_unknown : Option (TerminalResult N) → Bool
  reports_unknown none = false
  reports_unknown (some (success v)) = false
  reports_unknown (some (failure e)) = text_eq e.code outcome_unknown_code

  unfoldable pub outcome_is_unknown : ProcessOutcome N → Bool
  outcome_is_unknown o = kind_is_unknown o.kind || reports_unknown o.terminal

  unfoldable pub classify_outcome : ProcessOutcome N → OutcomeState
  unfolding outcome_is_unknown
  classify_outcome o =
      if outcome_is_unknown o
      then outcome_unknown
      else if kind_is_succeeded o.kind
      then succeeded
      else failed

  abbrev pub is_success_result : Option (TerminalResult N) → Bool
  is_success_result (some (success v)) = true
  is_success_result _ = false

  abbrev pub is_failure_result : Option (TerminalResult N) → Bool
  is_failure_result (some (failure e)) = true
  is_failure_result _ = false

-- The messages of `validate_outcome_consistency`.
pub data Inconsistency : Type 0 where
  succeeded_without_zero_exit succeeded_without_success : Inconsistency
  plugin_failure_without_failure process_failure_without_success : Inconsistency
  process_failure_with_zero_exit : Inconsistency

module _ {N : Type 0} where
  abbrev pub check_consistency :
      InvocationKind → Option ℕ → Option (TerminalResult N) → Result Inconsistency (Unit {0})
  check_consistency InvocationKind.succeeded code terminal = do
    fail_if (not (is_some_and (λ c. c == 0) code)) succeeded_without_zero_exit
    fail_if (not (is_success_result terminal)) succeeded_without_success
    ok tt
  check_consistency InvocationKind.plugin_failed code terminal = do
    fail_if (not (is_failure_result terminal)) plugin_failure_without_failure
    ok tt
  check_consistency InvocationKind.process_failed code terminal = do
    fail_if (not (is_success_result terminal)) process_failure_without_success
    fail_if (is_some_and (λ c. c == 0) code) process_failure_with_zero_exit
    ok tt
  check_consistency _ code terminal = ok tt

  unfoldable pub validate_outcome_consistency : ProcessOutcome N → Result Inconsistency (Unit {0})
  validate_outcome_consistency o = check_consistency o.kind o.exit_code o.terminal

pub record OutcomeContext : Type 0 where
  pub workflow : Option Text
  pub task : Option Text
  pub business_key_sha256 : Option Text
  pub occurrence_id : Option Text
  pub provider : Option Text

pub record OutcomeUnknownDiagnostic : Type 0 where
  pub api : Text
  pub context : OutcomeContext
  pub namespace : Text
  pub method : Text
  pub phase : Text
  pub dispatched : Bool
  pub first_response_received : Bool
  pub partial_output_generated : Bool
  pub terminal_received : Bool
  pub dispatched_unix_ms : Option ℕ
  pub frames_seen : ℕ
  pub events_dropped : ℕ
  pub first_response_unix_ms : Option ℕ
  pub last_event_unix_ms : Option ℕ
  pub external_effect_possible : Bool
  pub cleanup_completed : Bool
  pub reconciliation : List Text

abbrev phase_text : InvocationPhase → Text
phase_text dispatched = lit "dispatched"
phase_text first_response = lit "first_response"
phase_text partial_output = lit "partial_output"
phase_text terminal_received = lit "terminal_received"

abbrev pub phase_is_terminal : InvocationPhase → Bool
phase_is_terminal terminal_received = true
phase_is_terminal _ = false

abbrev phase_is_partial : InvocationPhase → Bool
phase_is_partial partial_output = true
phase_is_partial _ = false

abbrev pub inspect_first : List Text
inspect_first =
    lit "Inspect the named external provider or system using the occurrence and run identifiers."
    ∷ lit "Inspect workspace outputs without mutating them."
    ∷ lit "Do not retry until the external result has been reconciled."
    ∷ []

abbrev pub correct_and_retry : List Text
correct_and_retry =
    lit "Correct the local configuration or executable resolution failure."
    ∷ lit "Retry only after confirming that no external process was dispatched."
    ∷ []

abbrev map_option : {A B : Type 0} → (A → B) → Option A → Option B
map_option f none = none
map_option f (some a) = some (f a)

abbrev and_then : {A B : Type 0} → Option A → (A → Option B) → Option B
and_then none f = none
and_then (some a) f = f a

abbrev phase_of : Option InvocationProgress → Text
phase_of none = lit "before_spawn"
phase_of (some p) = phase_text p.phase

module _ {N : Type 0} where
  unfoldable pub from_outcome :
      OutcomeContext → Text → Text → ProcessOutcome N → OutcomeUnknownDiagnostic
  unfolding outcome_is_unknown
  from_outcome context namespace method o = record {
    api = lit "agenstro.outcome-unknown/v1";
    context = context;
    namespace = namespace;
    method = method;
    phase = phase_of o.progress;
    dispatched = is_some o.progress;
    first_response_received = is_some_and (λ p. is_some p.first_response_unix_ms) o.progress;
    partial_output_generated =
        is_some_and
          (λ p. phase_is_partial p.phase || (phase_is_terminal p.phase && ltb 1 o.frames_seen))
          o.progress;
    terminal_received = is_some_and (λ p. phase_is_terminal p.phase) o.progress;
    dispatched_unix_ms = map_option (λ p. p.dispatched_unix_ms) o.progress;
    frames_seen = o.frames_seen;
    events_dropped = o.events_dropped;
    first_response_unix_ms = and_then o.progress (λ p. p.first_response_unix_ms);
    last_event_unix_ms = and_then o.progress (λ p. p.last_event_unix_ms);
    external_effect_possible = outcome_is_unknown o && is_some o.progress;
    cleanup_completed = is_some_and (λ p. p.cleanup_completed) o.progress;
    reconciliation =
        if outcome_is_unknown o && is_some o.progress then inspect_first else correct_and_retry;
  }
