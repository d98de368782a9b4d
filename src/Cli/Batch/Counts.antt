-- ===== src/Cli/Batch/Counts.antt =====
-- A batch is taken for completed when all its finished scripts pass.
use agenstro.Common.{
  ℕ, ◌≡◌, refl, ◌∙◌, subst, Bool, true, false, ◌&&◌, ◌||◌, not, Option, none, some, is_some_and,
  Result, ok, err, List, [], ◌∷◌, ◌==◌, arith, all, if◌then◌else◌,
}
use agenstro.Common.Text.{Text}
use agenstro.Process.Command.{is_success, is_negative}
use agenstro.Daemon.{EventLog}
use agenstro.Daemon.Repair.{Daemon}
use agenstro.Cli.Batch.{
  ScriptBatchExecution, Script, ScriptRun, Ending, stops, fails, worst, stopped, batch_end,
  with_finished, after_run, run_attempts, BatchRun, run_scripts, is_completed,
}

-- The scripts that the result takes for completed ones: the exit code is known, and not positive.
abbrev pub passes : Ending → Bool
passes e = not (stops e) && is_some_and (λ c. c == 0 || is_negative c) e.status.exit_code

worst-is_negative :
    (first : ℕ) (code : Option ℕ)
    → is_negative first ≡ false
    → is_negative (worst first code) ≡ false
worst-is_negative first none h = h
worst-is_negative first (some c) h = ground arith

worst-zero :
    (first c : ℕ)
    → is_negative first ≡ false
    → (worst first (some c) == 0) ≡ ((first == 0) && (c == 0 || is_negative c))
worst-zero first c h = ground arith

abbrev pub CountsFor : Bool → List Ending → Result Text ScriptBatchExecution → Type 0
CountsFor zero finished (err e) = Unit {0}
CountsFor zero finished (ok e) = is_completed e ≡ (zero && all passes finished)

abbrev pub Counts : Bool → Option BatchRun → Type 0
Counts zero none = Unit {0}
Counts zero (some b) = CountsFor zero b.finished b.result

stopped-Counts :
    (zero : Bool) (r : ScriptRun) (e : Ending) → stops e ≡ true → Counts zero (some (stopped e r))
unfolding is_success
stopped-Counts zero r e h = ground arith

with_finished-Counts :
    (zero : Bool) (e : Ending) (run : Option BatchRun)
    → Counts (zero && passes e) run
    → Counts zero (with_finished e run)
with_finished-Counts zero e none h = tt
with_finished-Counts zero e (some b) h = by_result b.result h
  where
    by_result :
        (q : Result Text ScriptBatchExecution)
        → CountsFor (zero && passes e) b.finished q
        → CountsFor zero (e ∷ b.finished) q
    by_result (err x) h = tt
    by_result (ok x) h = ground (arith, h)

-- The code counts for the first failure.
counted :
    (first : ℕ) (e : Ending)
    → is_negative first ≡ false
    → stops e ≡ false
    → (worst first e.status.exit_code == 0) ≡ ((first == 0) && passes e)
counted first e h k = by_code e.status.exit_code refl
  where
    by_code :
        (q : Option ℕ)
        → e.status.exit_code ≡ q
        → (worst first e.status.exit_code == 0) ≡ ((first == 0) && passes e)
    by_code none w = ground (arith, w, k)
    by_code (some c) w = rw w (worst-zero first c h ∙ ground (arith, w, k))

batch_end-Counts :
    (first : ℕ) (r : ScriptRun) (e : Ending)
    → is_negative first ≡ false
    → stops e ≡ false
    → Counts
        (first == 0)
        (some (batch_end r.log (e ∷ []) (worst first e.status.exit_code) r.elapsed_ms))
unfolding is_success
batch_end-Counts first r e h k = ground (arith, counted first e h k)

after_run-Counts :
    (keep_going : Bool) (first : ℕ) (r : ScriptRun) (e : Ending) (next : Option BatchRun)
    → is_negative first ≡ false
    → Counts (worst first e.status.exit_code == 0) next
    → Counts (first == 0) (after_run keep_going (worst first e.status.exit_code) r e next)
after_run-Counts keep_going first r e next h rec =
    by_tests (stops e) (fails e && not keep_going) refl
  where
    by_tests :
        (a b : Bool)
        → stops e ≡ a
        → Counts (first == 0) (
            if a
            then some (stopped e r)
            else if b
            then some (batch_end r.log (e ∷ []) (worst first e.status.exit_code) r.elapsed_ms)
            else with_finished e next)
    by_tests true b w = stopped-Counts (first == 0) r e w
    by_tests false true w = batch_end-Counts first r e h w
    by_tests false false w =
        with_finished-Counts (first == 0) e next
          (subst (λ z. Counts z next) (counted first e h w) rec)

pub run_scripts-Counts :
    (d : Option Daemon) (keep_going : Bool) (scripts : List Script) (first ms : ℕ) (log : EventLog)
    → is_negative first ≡ false
    → Counts (first == 0) (run_scripts d keep_going scripts first ms log)
unfolding run_scripts is_success
run_scripts-Counts d keep_going [] first ms log h = ground arith
run_scripts-Counts d keep_going (s ∷ ss) first ms log h =
    by_run (run_attempts d s.path s.attempts 0 ms log)
      (λ f t l k. run_scripts-Counts d keep_going ss f t l k)
  where
    by_end :
        (r : ScriptRun) (q : Result Text Ending)
        → ((f t : ℕ) (l : EventLog)
            → is_negative f ≡ false
            → Counts (f == 0) (run_scripts d keep_going ss f t l))
        → Counts (first == 0) (elim q as (λ x. Option BatchRun) [
          | err e ↦ some (record { log = r.log; finished = []; result = err e })
          | ok e ↦
              after_run keep_going
                (worst first e.status.exit_code)
                r
                e
                (run_scripts d keep_going ss (worst first e.status.exit_code) r.elapsed_ms r.log)
        ])
    by_end r (err e) rec = tt
    by_end r (ok e) rec = after_run-Counts keep_going first r e _ h (
        rec (worst first e.status.exit_code) r.elapsed_ms r.log
          (worst-is_negative first e.status.exit_code h))

    by_run :
        (q : Option ScriptRun)
        → ((f t : ℕ) (l : EventLog)
            → is_negative f ≡ false
            → Counts (f == 0) (run_scripts d keep_going ss f t l))
        → Counts (first == 0) (elim q as (λ x. Option BatchRun) [
          | none ↦ none
          | some r ↦ elim r.ended as (λ x. Option BatchRun) [
            | err e ↦ some (record { log = r.log; finished = []; result = err e })
            | ok e ↦
                after_run keep_going
                  (worst first e.status.exit_code)
                  r
                  e
                  (run_scripts d keep_going ss (worst first e.status.exit_code) r.elapsed_ms r.log)
          ]
        ])
    by_run none rec = tt
    by_run (some r) rec = by_end r r.ended rec
