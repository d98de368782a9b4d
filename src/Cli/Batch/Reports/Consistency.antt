-- ===== src/Cli/Batch/Reports/Consistency.antt =====
-- The outcome of a batch, its class, and the exit code of the program.
use agenstro.Common.{
  ℕ, ◌≡◌, ◌≢◌, ◌↔◌, refl, sym, ◌∙◌, Bool, true, false, ◌||◌, not, Option, none, some, Result, ok,
  err, List, ◌==◌, arith, if◌then◌else◌,
}
use agenstro.Common.Text.{Text, text_eq}
use agenstro.Process.{ProcessOutcome}
use agenstro.Process.Command.{
  CommandOutcome, CommandKind, exited, deadline_exceeded, cancelled, runtime_failed,
}
use agenstro.Outcome.{
  OutcomeState, succeeded, failed, outcome_unknown, classify_outcome, validate_outcome_consistency,
}
use agenstro.Cli.Batch.{ScriptBatchExecution, is_completed}
use agenstro.Cli.Batch.Reports.{
  ScriptExecutionResult, Numbers, coded, completed_report, unprepared_report, unknown_report,
  failed_report, script_batch_outcome, script_batch_exit_code,
}

-- The class that a batch should have.
abbrev pub batch_class : Result Text ScriptBatchExecution → OutcomeState
batch_class (err e) = failed
batch_class (ok x) =
    if is_completed x
    then succeeded
    else if not x.script_started
    then failed
    else if x.clef_outcome_unknown || not (coded x.command.kind x.command.exit_code)
    then outcome_unknown
    else failed

module _ {N : Type 0} (n : Numbers N) (now count : ℕ) (results : List ScriptExecutionResult)
    (ms : ℕ) where
  abbrev IsRight : OutcomeState → ProcessOutcome N → Type 0
  IsRight c o = (validate_outcome_consistency o ≡ ok tt) × (classify_outcome o ≡ c)

  failed_report-IsRight :
      (c : CommandOutcome)
      → IsRight
          (if not (coded c.kind c.exit_code) then outcome_unknown else failed)
          (failed_report n now count results ms c)
  unfolding validate_outcome_consistency classify_outcome text_eq
  failed_report-IsRight c = by_kind c.kind c.exit_code refl refl
    where
      by_kind :
          (k : CommandKind) (q : Option ℕ)
          → c.kind ≡ k
          → c.exit_code ≡ q
          → IsRight
              (if not (coded c.kind c.exit_code) then outcome_unknown else failed)
              (failed_report n now count results ms c)
      by_kind exited none v w = rw (v, w) (refl, refl)
      by_kind exited (some x) v w = rw (v, w) (refl, refl)
      by_kind deadline_exceeded q v w = rw v (refl, refl)
      by_kind cancelled q v w = rw v (refl, refl)
      by_kind runtime_failed q v w = rw v (refl, refl)

  -- The outcome of a batch always passes the check of consistency. Its class is `succeeded` exactly
  -- for a completed batch, and `outcome_unknown` exactly when a script was started and it is not
  -- known how it ended, by its diagnostics or by its process.
  pub script_batch_outcome-IsConsistent :
      (r : Result Text ScriptBatchExecution)
      → (validate_outcome_consistency (script_batch_outcome n now count results ms r) ≡ ok tt)
        × (classify_outcome (script_batch_outcome n now count results ms r) ≡ batch_class r)
  unfolding script_batch_outcome validate_outcome_consistency classify_outcome text_eq
  script_batch_outcome-IsConsistent (err e) = (refl, refl)
  script_batch_outcome-IsConsistent (ok x) =
      by_tests (is_completed x) x.script_started x.clef_outcome_unknown
    where
      by_tests :
          (a b c : Bool)
          → IsRight
              (if a
                then succeeded
                else if not b
                then failed
                else if c || not (coded x.command.kind x.command.exit_code)
                then outcome_unknown
                else failed)
              (if a
                then completed_report n now count results ms
                else if not b
                then unprepared_report n now count results ms x.command
                else if c
                then unknown_report n now count results ms x.command
                else failed_report n now count results ms x.command)
      by_tests true b c = (refl, refl)
      by_tests false false c = (refl, refl)
      by_tests false true true = (refl, refl)
      by_tests false true false = failed_report-IsRight x.command

exit_code_zero :
    (r : Result Text ScriptBatchExecution)
    → (script_batch_exit_code r == 0) ≡ (elim r [ ok x ↦ is_completed x | err e ↦ false ])
unfolding script_batch_exit_code
exit_code_zero (err e) = refl
exit_code_zero (ok x) = by_code x.command.exit_code refl
  where
    by_code :
        (q : Option ℕ)
        → x.command.exit_code ≡ q
        → (script_batch_exit_code (ok x) == 0) ≡ is_completed x
    by_code none w = ground (arith, w)
    by_code (some c) w = ground (arith, w)

true_ne_false : {b : Bool} → b ≡ true → b ≢ false
true_ne_false h k = cc

failing_class :
    (a b : Bool) → (if a then failed else if b then outcome_unknown else failed) ≢ succeeded
failing_class true b h = cc
failing_class false true h = cc
failing_class false false h = cc

class-succeeded :
    (r : Result Text ScriptBatchExecution)
    → (script_batch_exit_code r ≡ 0) ↔ (batch_class r ≡ succeeded)
unfolding script_batch_exit_code
class-succeeded (err e) = (λ h. absurd (omega arith), λ h. cc)
class-succeeded (ok x) = by_end (is_completed x) x.command.exit_code refl
  where
    by_end :
        (b : Bool) (q : Option ℕ)
        → is_completed x ≡ b
        → (script_batch_exit_code (ok x) ≡ 0) ↔ (batch_class (ok x) ≡ succeeded)
    by_end true q v = rw v (λ h. refl, λ h. refl)
    by_end false q v = (
      λ h. absurd (true_ne_false (ground (arith, h)) (exit_code_zero (ok x) ∙ v)),
      rw v (λ h. absurd (
          failing_class (not x.script_started)
            (x.clef_outcome_unknown || not (coded x.command.kind x.command.exit_code)) h)),
    )

-- The program ends with exit code zero exactly when the reported outcome is a success.
pub exit_code-class :
    {N : Type 0} (n : Numbers N) (now count : ℕ) (results : List ScriptExecutionResult) (ms : ℕ)
    (r : Result Text ScriptBatchExecution)
    → (script_batch_exit_code r ≡ 0)
      ↔ (classify_outcome (script_batch_outcome n now count results ms r) ≡ succeeded)
exit_code-class n now count results ms r =
    let same = (script_batch_outcome-IsConsistent n now count results ms r).1 in
    let (there, back) = class-succeeded r in (λ h. same ∙ there h, λ h. back (sym same ∙ h))
