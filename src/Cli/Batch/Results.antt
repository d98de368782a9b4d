-- ===== src/Cli/Batch/Results.antt =====
-- What the result of a batch says about its scripts.
use agenstro.Common.{
  ℕ, ◌≡◌, refl, ap, ◌∙◌, sym, subst, Bool, true, false, ◌&&◌, not, Option, none, some, is_some_and,
  ok, List, [], ◌∷◌, arith, length, all, if◌then◌else◌,
}
use agenstro.Process.Command.{CommandOutcome, is_success, is_negative}
use agenstro.Daemon.{EventLog}
use agenstro.Daemon.Repair.{Daemon}
use agenstro.Cli.Batch.{
  ScriptBatchExecution, Script, Ending, BatchRun, run_scripts, execute_script_batch, is_completed,
  unprepared,
}
use agenstro.Cli.Batch.Counts.{passes, Counts, CountsFor, run_scripts-Counts}
use agenstro.Cli.Batch.Covers.{is_clean, and_right, Covers, CoversFor, run_scripts-Covers}

passing_clean :
    (finished : List Ending)
    → all passes finished ≡ true
    → all (λ e. not (is_some_and is_negative e.status.exit_code)) finished ≡ true
    → all is_clean finished ≡ true
passing_clean [] h k = refl
passing_clean (e ∷ es) h k =
    let rest : all is_clean es ≡ true = passing_clean es (ground (arith, h)) (ground (arith, k)) in
    by_code e.status.exit_code refl rest
  where
    by_code :
        (q : Option ℕ)
        → e.status.exit_code ≡ q
        → all is_clean es ≡ true
        → all is_clean (e ∷ es) ≡ true
    by_code none w rest = ground (arith, h, w)
    by_code (some c) w rest = ground (arith, h, k, w, rest)

module _ (d : Option Daemon) (keep_going wrote : Bool) (build : CommandOutcome)
    (scripts : List Script) (log : EventLog) (b : BatchRun) (e : ScriptBatchExecution) where
  execute-Counts :
      Counts (is_success build) (execute_script_batch d keep_going wrote (ok build) scripts log)
  unfolding execute_script_batch
  execute-Counts = by_build (is_success build) refl
    where
      by_build :
          (z : Bool)
          → is_success build ≡ z
          → Counts z (
              if z
              then run_scripts d keep_going scripts 0 build.elapsed_ms log
              else some (unprepared d wrote build log))
      by_build true w = run_scripts-Counts d keep_going scripts 0 build.elapsed_ms log refl
      by_build false w = ap (λ z. z && true) w

  execute-Covers :
      is_success build ≡ true
      → Covers (length scripts) (execute_script_batch d keep_going wrote (ok build) scripts log)
  unfolding execute_script_batch
  execute-Covers built =
      rw (built, Covers) (run_scripts-Covers d keep_going scripts 0 build.elapsed_ms log)

  -- A batch that returned a result is a completed one exactly when the preparation succeeded and each
  -- script that finished is known to have ended with an exit code that is zero or negative.
  pub is_completed-finished :
      execute_script_batch d keep_going wrote (ok build) scripts log ≡ some b
      → b.result ≡ ok e
      → is_completed e ≡ (is_success build && all passes b.finished)
  is_completed-finished h k =
      subst (CountsFor (is_success build) b.finished) k
        (subst (Counts (is_success build)) h execute-Counts)

  -- Where no exit code is negative, a completed batch ran every script, and each ended with a known
  -- exit code zero.
  pub is_completed-AllClean :
      execute_script_batch d keep_going wrote (ok build) scripts log ≡ some b
      → b.result ≡ ok e
      → all (λ x. not (is_some_and is_negative x.status.exit_code)) b.finished ≡ true
      → is_completed e ≡ true
      → (length b.finished ≡ length scripts) × (all is_clean b.finished ≡ true)
  is_completed-AllClean h k nonneg done =
      let success : (is_success build && all passes b.finished) ≡ true =
        sym (is_completed-finished h k) ∙ done in
      let clean : all is_clean b.finished ≡ true =
        passing_clean b.finished (and_right (is_success build) (all passes b.finished) success)
          nonneg in
      let built : is_success build ≡ true = ground (arith, success) in
      (
        subst (CoversFor (length scripts) b.finished) k
            (subst (Covers (length scripts)) h (execute-Covers built)) clean,
        clean,
      )
