-- ===== src/Outcome/Classification.antt =====
-- What each class of `classify_outcome` is evidence of, for outcomes that pass the check of
-- consistency.
use agenstro.Common.{
  ◌≡◌, ◌≢◌, ◌⊎◌, inl, inr, refl, true, false, Option, none, some, ok, arith, Bool-cases, ◌∙◌, sym,
  ap,
}
use agenstro.Common.Text.{Text, text_eq, text_eq_refl, text_eq→eq}
use agenstro.Json.{Value}
use agenstro.Protocol.{TerminalResult, PluginFailure, success, failure}
use agenstro.Process.{InvocationKind, ProcessOutcome}
use agenstro.Outcome.{
  OutcomeState, succeeded, failed, outcome_unknown, outcome_unknown_code, classify_outcome,
  validate_outcome_consistency, kind_is_unknown,
}

code_ne : (s : Text) → text_eq s outcome_unknown_code ≡ false → s ≢ outcome_unknown_code
code_ne s h e =
    cc (sym h ∙ ap (λ t. text_eq t outcome_unknown_code) e ∙ text_eq_refl outcome_unknown_code)

module _ {N : Type 0} where
  abbrev pub Evidence : OutcomeState → ProcessOutcome N → Type 0
  Evidence succeeded o = (o.exit_code ≡ some 0) × ((v : Value N) × (o.terminal ≡ some (success v)))
  Evidence failed o =
      (e : PluginFailure N) × (o.terminal ≡ some (failure e)) × (e.code ≢ outcome_unknown_code)
  Evidence outcome_unknown o =
      (kind_is_unknown o.kind ≡ true)
      ⊎ ((e : PluginFailure N) × (o.terminal ≡ some (failure e)) × (e.code ≡ outcome_unknown_code))

  failure-Evidence :
      (o : ProcessOutcome N) (t : Option (TerminalResult N))
      → o.terminal ≡ t
      → o.kind ≡ InvocationKind.plugin_failed
      → validate_outcome_consistency o ≡ ok tt
      → Evidence (classify_outcome o) o
  unfolding classify_outcome validate_outcome_consistency
  failure-Evidence o none e k h = ground arith
  failure-Evidence o (some (success v)) e k h = ground arith
  failure-Evidence o (some (failure f)) e k h =
      elim (Bool-cases (text_eq f.code outcome_unknown_code)) [
        | inl same ↦ rw (k, e, same) (inr (f, refl, text_eq→eq f.code outcome_unknown_code same))
        | inr other ↦ rw (k, e, other) (f, refl, code_ne f.code other)
      ]

  success-Evidence :
      (o : ProcessOutcome N) (t : Option (TerminalResult N))
      → o.terminal ≡ t
      → o.kind ≡ InvocationKind.succeeded
      → validate_outcome_consistency o ≡ ok tt
      → Evidence (classify_outcome o) o
  unfolding classify_outcome validate_outcome_consistency
  success-Evidence o none e k h = ground arith
  success-Evidence o (some (success v)) e k h = rw (k, e) (ground (arith, e), (v, refl))
  success-Evidence o (some (failure f)) e k h = ground arith

  unknown-Evidence :
      (o : ProcessOutcome N) → kind_is_unknown o.kind ≡ true → Evidence (classify_outcome o) o
  unfolding classify_outcome
  unknown-Evidence o h = rw h (inl h)

  -- On an outcome that passes the consistency check, `succeeded` means exit code zero and a success
  -- value; `failed` means a failure that the plugin reported, with another code than
  -- `outcome_unknown`; and `outcome_unknown` means a kind that leaves the effect open, or a failure
  -- with that code.
  pub classify-Evidence :
      (o : ProcessOutcome N)
      → validate_outcome_consistency o ≡ ok tt
      → Evidence (classify_outcome o) o
  classify-Evidence o h = by_kind o.kind refl
    where
      by_kind : (k : InvocationKind) → o.kind ≡ k → Evidence (classify_outcome o) o
      by_kind InvocationKind.succeeded e = success-Evidence o o.terminal refl e h
      by_kind InvocationKind.plugin_failed e = failure-Evidence o o.terminal refl e h
      by_kind InvocationKind.process_failed e = unknown-Evidence o (ground arith)
      by_kind InvocationKind.protocol_failed e = unknown-Evidence o (ground arith)
      by_kind InvocationKind.runtime_failed e = unknown-Evidence o (ground arith)
      by_kind InvocationKind.deadline_exceeded e = unknown-Evidence o (ground arith)
      by_kind InvocationKind.cancelled e = unknown-Evidence o (ground arith)
