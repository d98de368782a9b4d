-- ===== src/Journal/Summary/Fidelity.antt =====
-- What a reader of the written summary may conclude about the outcome of the run.
use agenstro.Common.{
  ◌≡◌, refl, sym, ap, ◌∙◌, inl, inr, true, false, Option, none, some, ◌++◌, Bool-cases, take,
}
use agenstro.Common.Text.{Text, text_eq, text_eq→eq, one_of}
use agenstro.Protocol.{TerminalResult, success, failure}
use agenstro.Process.{InvocationKind, ProcessOutcome}
use agenstro.Outcome.{
  classify_outcome, outcome_is_unknown, outcome_unknown_code, validate_outcome_consistency,
  check_consistency, reports_unknown, is_success_result, is_failure_result,
}
use agenstro.Journal.Redaction.{Encoder}
use agenstro.Journal.Redaction.Identifiers.{
  public_diagnostic_code, invalid_identifier, strip_prefix,
}
use agenstro.Journal.Summary.{
  durable_diagnostic_code, summarize_failure, summarize_terminal, summarize_outcome,
  diagnostic_summary, RunSummary, map_option,
}

outcome_unknown_public : public_diagnostic_code outcome_unknown_code ≡ true
unfolding public_diagnostic_code one_of text_eq strip_prefix
outcome_unknown_public = refl

module _ {N : Type 0} (c : Encoder N) where
  replaced_code :
      (s : Text) → text_eq (invalid_identifier ++ take 16 (c.digest s)) outcome_unknown_code ≡ false
  unfolding text_eq
  replaced_code s = refl

  private_code :
      (s : Text) → public_diagnostic_code s ≡ false → text_eq s outcome_unknown_code ≡ false
  private_code s h = elim (Bool-cases (text_eq s outcome_unknown_code)) [
    | inl same ↦ absurd (
        cc (
          sym h
          ∙ ap public_diagnostic_code (text_eq→eq s outcome_unknown_code same)
          ∙ outcome_unknown_public))
    | inr other ↦ other
  ]

  -- A replaced code is never mistaken for `outcome_unknown`, and that code is kept.
  durable_code-unknown :
      (s : Text)
      → text_eq (durable_diagnostic_code c s) outcome_unknown_code ≡ text_eq s outcome_unknown_code
  unfolding durable_diagnostic_code
  durable_code-unknown s = elim (Bool-cases (public_diagnostic_code s)) [
    | inl public ↦ rw public refl
    | inr private ↦ rw private (replaced_code s ∙ sym (private_code s private))
  ]

  terminal-unknown :
      (t : Option (TerminalResult N))
      → reports_unknown (map_option (summarize_terminal c) t) ≡ reports_unknown t
  unfolding summarize_terminal summarize_failure
  terminal-unknown none = refl
  terminal-unknown (some (success v)) = refl
  terminal-unknown (some (failure e)) = durable_code-unknown e.code

  terminal-success :
      (t : Option (TerminalResult N))
      → is_success_result (map_option (summarize_terminal c) t) ≡ is_success_result t
  unfolding summarize_terminal
  terminal-success none = refl
  terminal-success (some (success v)) = refl
  terminal-success (some (failure e)) = refl

  terminal-failure :
      (t : Option (TerminalResult N))
      → is_failure_result (map_option (summarize_terminal c) t) ≡ is_failure_result t
  unfolding summarize_terminal
  terminal-failure none = refl
  terminal-failure (some (success v)) = refl
  terminal-failure (some (failure e)) = refl

  summary_class :
      (o : ProcessOutcome N) → classify_outcome (summarize_outcome c o) ≡ classify_outcome o
  unfolding classify_outcome outcome_is_unknown summarize_outcome
  summary_class o = rw (terminal-unknown o.terminal) refl

  summary_verdict :
      (o : ProcessOutcome N)
      → validate_outcome_consistency (summarize_outcome c o) ≡ validate_outcome_consistency o
  unfolding validate_outcome_consistency summarize_outcome
  summary_verdict o = by_kind o.kind
    where
      by_kind :
          (k : InvocationKind)
          → check_consistency k o.exit_code (map_option (summarize_terminal c) o.terminal)
            ≡ check_consistency k o.exit_code o.terminal
      by_kind InvocationKind.succeeded = rw (terminal-success o.terminal) refl
      by_kind InvocationKind.plugin_failed = rw (terminal-failure o.terminal) refl
      by_kind InvocationKind.process_failed = rw (terminal-success o.terminal) refl
      by_kind InvocationKind.protocol_failed = refl
      by_kind InvocationKind.runtime_failed = refl
      by_kind InvocationKind.deadline_exceeded = refl
      by_kind InvocationKind.cancelled = refl

  -- The written summary is classified like the outcome itself, and the check of consistency gives
  -- the same verdict on both: a failure's code is replaced by a digest unless it is a listed one,
  -- and `outcome_unknown` is listed.
  pub diagnostic_summary_faithful :
      (s : RunSummary N)
      → (classify_outcome (diagnostic_summary c s).outcome ≡ classify_outcome s.outcome)
        × (validate_outcome_consistency (diagnostic_summary c s).outcome
            ≡ validate_outcome_consistency s.outcome)
  unfolding diagnostic_summary
  diagnostic_summary_faithful s = (summary_class s.outcome, summary_verdict s.outcome)
