-- ===== src/Cli/Batch/Covers.antt =====
-- A batch of clean scripts ran all of them.
use agenstro.Common.{
  ℕ, suc, ◌≡◌, refl, ap, Bool, true, false, ◌&&◌, not, Option, none, some, Result, ok, err, List,
  [], ◌∷◌, arith, length, all, if◌then◌else◌,
}
use agenstro.Common.Text.{Text}
use agenstro.Daemon.{EventLog}
use agenstro.Daemon.Repair.{Daemon}
use agenstro.Cli.Batch.{
  ScriptBatchExecution, Script, ScriptRun, Ending, stops, fails, worst, stopped, batch_end,
  with_finished, after_run, run_attempts, BatchRun, run_scripts,
}

-- A script that ended with exit code zero.
abbrev pub is_clean : Ending → Bool
is_clean e = not (stops e) && not (fails e)

abbrev pub CoversFor : ℕ → List Ending → Result Text ScriptBatchExecution → Type 0
CoversFor n finished (err e) = Unit {0}
CoversFor n finished (ok e) = all is_clean finished ≡ true → length finished ≡ n

abbrev pub Covers : ℕ → Option BatchRun → Type 0
Covers n none = Unit {0}
Covers n (some b) = CoversFor n b.finished b.result

pub and_right : (a b : Bool) → (a && b) ≡ true → b ≡ true
and_right a b h = ground arith

with_finished-Covers :
    (n : ℕ) (e : Ending) (run : Option BatchRun)
    → Covers n run
    → Covers (suc n) (with_finished e run)
with_finished-Covers n e none h = tt
with_finished-Covers n e (some b) h = by_result b.result h
  where
    by_result :
        (q : Result Text ScriptBatchExecution)
        → CoversFor n b.finished q
        → CoversFor (suc n) (e ∷ b.finished) q
    by_result (err x) h = tt
    by_result (ok x) h = λ k. ap suc (h (and_right (is_clean e) (all is_clean b.finished) k))

after_run-Covers :
    (keep_going : Bool) (n first : ℕ) (r : ScriptRun) (e : Ending) (next : Option BatchRun)
    → Covers n next
    → Covers (suc n) (after_run keep_going first r e next)
after_run-Covers keep_going n first r e next h =
    by_tests (stops e) (fails e && not keep_going) refl refl
  where
    by_tests :
        (a b : Bool)
        → stops e ≡ a
        → (fails e && not keep_going) ≡ b
        → Covers (suc n) (
            if a
            then some (stopped e r)
            else if b
            then some (batch_end r.log (e ∷ []) first r.elapsed_ms)
            else with_finished e next)
    by_tests true b v w = λ k. ground (arith, k, v)
    by_tests false true v w = λ k. ground (arith, k, w)
    by_tests false false v w = with_finished-Covers n e next h

pub run_scripts-Covers :
    (d : Option Daemon) (keep_going : Bool) (scripts : List Script) (first ms : ℕ) (log : EventLog)
    → Covers (length scripts) (run_scripts d keep_going scripts first ms log)
unfolding run_scripts
run_scripts-Covers d keep_going [] first ms log = λ k. refl
run_scripts-Covers d keep_going (s ∷ ss) first ms log =
    by_run (run_attempts d s.path s.attempts 0 ms log)
      (λ f t l. run_scripts-Covers d keep_going ss f t l)
  where
    by_end :
        (r : ScriptRun) (q : Result Text Ending)
        → ((f t : ℕ) (l : EventLog) → Covers (length ss) (run_scripts d keep_going ss f t l))
        → Covers (suc (length ss)) (elim q as (λ x. Option BatchRun) [
          | err e ↦ some (record { log = r.log; finished = []; result = err e })
          | ok e ↦
              after_run keep_going
                (worst first e.status.exit_code)
                r
                e
                (run_scripts d keep_going ss (worst first e.status.exit_code) r.elapsed_ms r.log)
        ])
    by_end r (err e) rec = tt
    by_end r (ok e) rec =
        after_run-Covers keep_going (length ss) (worst first e.status.exit_code) r e
          (run_scripts d keep_going ss (worst first e.status.exit_code) r.elapsed_ms r.log)
          (rec (worst first e.status.exit_code) r.elapsed_ms r.log)

    by_run :
        (q : Option ScriptRun)
        → ((f t : ℕ) (l : EventLog) → Covers (length ss) (run_scripts d keep_going ss f t l))
        → Covers (suc (length ss)) (elim q as (λ x. Option BatchRun) [
          | none ↦ none
          | some r ↦ elim r.ended as (λ x. Option BatchRun) [
            | err e ↦ some (record { log = r.log; finished = []; result = err e })
            | ok e ↦
                after_run keep_going
                  (worst first e.status.exit_code)
                  r
                  e
                  (run_scripts d keep_going ss (worst first e.status.exit_code) r.elapsed_ms r.log)
          ]
        ])
    by_run none rec = tt
    by_run (some r) rec = by_end r r.ended rec
